-- ===== src/Lobby/Slots/Election.antt =====
-- Who becomes the leader of a lobby.
use ship_server.Base.{
  ℕ, ◌≤◌, ◌<◌, ◌≡◌, ◌≢◌, refl, ap, ◌∙◌, ◌⊎◌, inl, inr, Bool, true, List, Option, none, some, ltb,
  arith, get_elem?, take, ltb→lt, lt→ltb,
}
use ship_server.Lobby.{Lobby, Client, gc}
use ship_server.Lobby.Slots.{elect, lobby_elect_leader_locked, lobby_elect_leader_cross_locked}
use ship_server.Lobby.Slots.Candidates.{elect-earliest, elect-Chosen}

-- What an election among the clients that are not in the leader's slot says of a candidate d in
-- slot j: nobody joined before `now`, or the winner joined before `now` and no later than d.
abbrev Verdict : ℕ → (ℕ → Client) → (Client → Bool) → ℕ → List (Option ℕ) → Option ℕ → ℕ → Type 0
Verdict now of eligible leader slots r d =
    ((r ≡ none) × (now ≤ (of d).join_time))
    ⊎ ((k : ℕ) × (c : ℕ) × (r ≡ some k)
        × (get_elem? slots k ≡ some (some c))
        × (k ≢ leader)
        × (eligible (of c) ≡ true)
        × ((of c).join_time < now)
        × ((of c).join_time ≤ (of d).join_time))

elect-Verdict :
    (of : ℕ → Client) (eligible : Client → Bool) (leader now : ℕ) (slots : List (Option ℕ))
    (j d : ℕ)
    → get_elem? slots j ≡ some (some d)
    → j ≢ leader
    → eligible (of d) ≡ true
    → Verdict now of eligible leader slots (elect of eligible leader slots 0 (none, now)).0 d
elect-Verdict of eligible leader now slots j d e ne a =
    elim (elect-Chosen of eligible leader slots 0 (none, now)) [
      | inl same ↦ inl (ap (λ p. p.0) same, omega (arith, bound, ap (λ p. p.1) same))
      | inr (c, h) ↦ inr (
        c.at,
        c.client,
        c.slot ∙ ap (λ (k : ℕ). some k) (omega arith),
        c.seated,
        omega (arith, c.other),
        c.allowed,
        omega (arith, h, c.time),
        omega (arith, bound, c.time),
      )
    ]
  where
    bound : (elect of eligible leader slots 0 (none, now)).1 ≤ (of d).join_time
    bound = elect-earliest of eligible leader slots 0 (none, now) j d e (omega arith) a

-- `lobby_elect_leader_locked`: seen from any client d in a slot other than the leader's, either
-- nobody is elected and d joined at `now` or later, or the elected slot is another client's than
-- the leader's who joined before `now` and no later than d.
lobby_elect_leader_locked-Verdict :
    (now : ℕ) (of : ℕ → Client) (l : Lobby) (j d : ℕ)
    → get_elem? (take l.max_clients l.clients) j ≡ some (some d)
    → j ≢ l.leader_id
    → Verdict now of
        (λ c. true)
        l.leader_id
        (take l.max_clients l.clients)
        (lobby_elect_leader_locked now of l)
        d
unfolding lobby_elect_leader_locked
lobby_elect_leader_locked-Verdict now of l j d e ne =
    elect-Verdict of (λ c. true) l.leader_id now (take l.max_clients l.clients) j d e ne refl

-- `lobby_elect_leader_cross_locked`: seen from any client d of an older version than GC in a slot
-- other than the leader's, who joined before `now`, the elected slot is a client's of such a
-- version who joined no later than d, and the team stays as it was.
lobby_elect_leader_cross_locked-older :
    (now : ℕ) (of : ℕ → Client) (l : Lobby) (j d : ℕ)
    → get_elem? (take l.max_clients l.clients) j ≡ some (some d)
    → j ≢ l.leader_id
    → (of d).version < gc
    → (of d).join_time < now
    → (k : ℕ) × (c : ℕ) × (lobby_elect_leader_cross_locked now of l ≡ (some k, l))
      × (get_elem? (take l.max_clients l.clients) k ≡ some (some c))
      × ((of c).version < gc)
      × ((of c).join_time ≤ (of d).join_time)
unfolding lobby_elect_leader_cross_locked
lobby_elect_leader_cross_locked-older now of l j d e ne v t =
    elim (elect-Verdict of (λ c. ltb c.version gc) l.leader_id now (take l.max_clients l.clients) j
      d e ne (lt→ltb _ _ v)) [
        | inl (_, late) ↦ absurd (omega arith)
        | inr (k, c, r, g, _, o, _, b) ↦
            (k, c, rw (r, lobby_elect_leader_cross_locked) refl, g, ltb→lt _ _ o, b)
      ]

-- A slot that a client other than the leader has.
abbrev pub Successor : Lobby → Option ℕ → Type 0
Successor l r =
    (k : ℕ) × (c : ℕ) × (r ≡ some k)
    × (get_elem? (take l.max_clients l.clients) k ≡ some (some c))
    × (k ≢ l.leader_id)

-- Each election finds somebody, if anybody but the leader joined before `now`.
pub elect-Successor :
    (now : ℕ) (of : ℕ → Client) (l : Lobby) (j d : ℕ)
    → get_elem? (take l.max_clients l.clients) j ≡ some (some d)
    → j ≢ l.leader_id
    → (of d).join_time < now
    → Successor l (lobby_elect_leader_locked now of l)
elect-Successor now of l j d e ne t = elim (lobby_elect_leader_locked-Verdict now of l j d e ne) [
  | inl (_, late) ↦ absurd (omega arith)
  | inr (k, c, r, g, o, _, _, _) ↦ (k, c, r, g, o)
]

pub elect_cross-Successor :
    (now : ℕ) (of : ℕ → Client) (l : Lobby) (j d : ℕ)
    → get_elem? (take l.max_clients l.clients) j ≡ some (some d)
    → j ≢ l.leader_id
    → (of d).join_time < now
    → Successor l (lobby_elect_leader_cross_locked now of l).0
unfolding lobby_elect_leader_cross_locked lobby_elect_leader_locked
elect_cross-Successor now of l j d e ne t =
    let slots = take l.max_clients l.clients in
    elim (elect-Chosen of (λ c. ltb c.version gc) l.leader_id slots 0 (none, now)) [
      | inr (c, _) ↦ (
        c.at,
        c.client,
        rw (c.slot, lobby_elect_leader_cross_locked) (ap (λ (k : ℕ). some k) (omega arith)),
        c.seated,
        omega (arith, c.other),
      )
      | inl same ↦
          rw (same, lobby_elect_leader_cross_locked)
            (rw (ap (λ p. p.1) same) (elect-Successor now of l j d e ne t))
    ]

-- ===== src/Lobby/Slots/Leaderless.antt =====
-- When an election finds nobody: clients that joined in the second of the election.
use ship_server.Base.{
  ℕ, suc, ◌+◌, ◌≤◌, ◌≡◌, refl, ap, ◌∙◌, ◌⊎◌, zero, inl, inr, Bool, true, false, List, [], ◌∷◌,
  Option, none, some, ltb, ◌==◌, ◌&&◌, if◌then◌else◌, arith, take, get_or, set, has_flag,
  Bool-cases, ==_refl,
}
use ship_server.Lobby.{Lobby, Client, World, gc}
use ship_server.Lobby.Flag
use ship_server.Lobby.Slots.{
  elect, lobby_elect_leader_locked, lobby_elect_leader_cross_locked, or_zero, replace_leader,
  lobby_remove_client_locked,
}
use ship_server.Lobby.Slots.Leave.{remove-vacates, vacate-slots}

-- Nobody in the slot, or a client that joined at `now` or later.
abbrev Late : ℕ → (ℕ → Client) → ℕ → Option ℕ → Type 0
Late now of leader none = Unit
Late now of leader (some c) = now ≤ (of c).join_time

-- `Late` for the slots from i on, but for the leader's.
abbrev AllLate : ℕ → (ℕ → Client) → ℕ → ℕ → List (Option ℕ) → Type 0
AllLate now of leader i [] = Unit
AllLate now of leader i (x ∷ r) =
    (if i == leader then Unit else Late now of leader x) × AllLate now of leader (i + 1) r

not_before : (now t : ℕ) → now ≤ t → ltb t now ≡ false
not_before now t h = ground arith

first_free :
    (slots : List (Option ℕ)) (i : ℕ)
    → (i ≡ 0) ⊎ (get_or slots 0 none ≡ none)
    → get_or (set slots i none) 0 none ≡ none
first_free [] i z = refl
first_free (x ∷ r) zero z = refl
first_free (x ∷ r) (suc i) (inl e) = absurd (omega arith)
first_free (x ∷ r) (suc i) (inr e) = e

elect-late :
    (of : ℕ → Client) (eligible : Client → Bool) (leader now : ℕ) (slots : List (Option ℕ)) (i : ℕ)
    → AllLate now of leader i slots
    → elect of eligible leader slots i (none, now) ≡ (none, now)
unfolding elect
elect-late of eligible leader now [] i h = refl
elect-late of eligible leader now (none ∷ r) i h = elect-late of eligible leader now r (i + 1) h.1
elect-late of eligible leader now (some c ∷ r) i h = elim (Bool-cases (i == leader)) [
  | inl e ↦ rw e (elect-late of eligible leader now r (i + 1) h.1)
  | inr e ↦
      let late : ltb (of c).join_time now ≡ false = not_before now (of c).join_time (rw e at h.0) in
      rw (e, late) (elect-late of eligible leader now r (i + 1) h.1)
]

module _ (now : ℕ) (of : ℕ → Client) (l : Lobby) where
  abbrev slots : List (Option ℕ)
  slots = take l.max_clients l.clients

  elect_leader-late : AllLate now of l.leader_id 0 slots → lobby_elect_leader_locked now of l ≡ none
  unfolding lobby_elect_leader_locked
  elect_leader-late h = ap (λ p. p.0) (elect-late of (λ c. true) l.leader_id now slots 0 h)

  elect_cross-late :
      AllLate now of l.leader_id 0 slots → (lobby_elect_leader_cross_locked now of l).0 ≡ none
  unfolding lobby_elect_leader_cross_locked
  elect_cross-late h =
      let same = elect-late of (λ c. ltb c.version gc) l.leader_id now slots 0 h in
      rw (same, lobby_elect_leader_cross_locked)
        (rw (ap (λ p. p.1) same)
          (ap (λ p. p.0) (elect-late of (λ c. true) l.leader_id now slots 0 h)))

  replace_leader-late :
      AllLate now of l.leader_id 0 slots → (replace_leader now of l l.leader_id).leader_id ≡ 0
  unfolding replace_leader
  replace_leader-late h =
      rw (==_refl l.leader_id)
        (elim (Bool-cases (ltb l.version gc && has_flag l.flags Flag.gc_allowed)) [
          | inl x ↦ rw x (ap or_zero (elect_cross-late h))
          | inr x ↦ rw x (ap or_zero (elect_leader-late h))
        ])

-- When the leader goes, every other client joined in the second of the election or later, and slot 0
-- was the leader's own or free, nobody is elected: after `lobby_remove_client_locked` the leader is
-- slot 0, and no client is in it, whoever is left in the other slots.
pub lobby_remove_client_locked-leaderless :
    (now : ℕ) (w : World) (c l : ℕ)
    → get_or (w.lobbies l).clients (w.lobbies l).leader_id none ≡ some c
    → AllLate now w.clients
        (w.lobbies l).leader_id
        0
        (take (w.lobbies l).max_clients (w.lobbies l).clients)
    → ((w.lobbies l).leader_id ≡ 0) ⊎ (get_or (w.lobbies l).clients 0 none ≡ none)
    → let lob' = (lobby_remove_client_locked now w c (w.lobbies l).leader_id l).1.lobbies l in
      (lob'.leader_id ≡ 0) × (get_or lob'.clients lob'.leader_id none ≡ none)
lobby_remove_client_locked-leaderless now w c l e late z =
    let lob = w.lobbies l in
    let r = remove-vacates now w c lob.leader_id l e in
    let s = vacate-slots now w.clients lob lob.leader_id in
    let zero_leader = r.3 ∙ s.3 ∙ replace_leader-late now w.clients lob late in
    (zero_leader, rw (zero_leader, r.0, s.0) (first_free lob.clients lob.leader_id z))

-- ===== src/Lobby/Slots/Count.antt =====
-- The number of clients against the slots, under joining and leaving.
use ship_server.Base.{
  ℕ, zero, suc, ◌+◌, ◌≤◌, ◌<◌, ◌≡◌, refl, ap, ◌∙◌, ◌⊎◌, inl, inr, true, false, List, [], ◌∷◌,
  Option, none, some, ltb, leb, ◌==◌, if◌then◌else◌, pos, neg, arith, length, take, get_or, set,
  find_index, sum_by, sum_by-set, length-set, find_index-le, find_index_sound, Bool-cases, ==_refl,
  leb→le, lt→ltb, ==→eq,
}
use ship_server.Lobby.{Lobby, Client, World, is_empty}
use ship_server.Lobby.Slots.{
  update_challenge, place, before_join, free_slot, prefers_one, lobby_add_client_locked,
}

abbrev pub occupied : Option ℕ → ℕ
occupied none = 0
occupied (some c) = 1

-- `num_clients` counts the clients in the slots that the lobby may use.
pub record IsCounted (l : Lobby) : Type 0 where
  pub size : length l.clients ≡ 12
  pub two : 2 ≤ l.max_clients
  pub twelve : l.max_clients ≤ 12
  pub counted : l.num_clients ≡ sum_by occupied (take l.max_clients l.clients)

-- A search for a free slot that fails has seen only clients.
find_index-full :
    (n : ℕ) (slots : List (Option ℕ))
    → n ≤ length slots
    → find_index is_empty n slots ≡ n
    → sum_by occupied (take n slots) ≡ n
unfolding find_index
find_index-full zero slots h e = refl
find_index-full (suc n) [] h e = absurd (omega arith)
find_index-full (suc n) (none ∷ r) h e = absurd (omega arith)
find_index-full (suc n) (some c ∷ r) h e =
    omega (arith, find_index-full n r (omega arith) (omega arith))

pub update_challenge-slots :
    (of : ℕ → Client) (l : Lobby)
    → ((update_challenge of l).clients ≡ l.clients)
      × ((update_challenge of l).num_clients ≡ l.num_clients)
      × ((update_challenge of l).max_clients ≡ l.max_clients)
unfolding update_challenge
update_challenge-slots of l = ground arith

pub before_join-slots :
    (w : World) (c l : ℕ)
    → let lob = (before_join w c l).lobbies l in
      (lob.clients ≡ (w.lobbies l).clients)
      × (lob.num_clients ≡ (w.lobbies l).num_clients)
      × (lob.max_clients ≡ (w.lobbies l).max_clients)
unfolding before_join
before_join-slots w c l = ground (arith, ==_refl l)

pub place-slots :
    (now : ℕ) (w : World) (c l i : ℕ)
    → let lob = (place now w c l i).lobbies l in
      (lob.clients ≡ set (w.lobbies l).clients i (some c))
      × (lob.num_clients ≡ (w.lobbies l).num_clients + 1)
      × (lob.max_clients ≡ (w.lobbies l).max_clients)
unfolding place
place-slots now w c l i = ground (arith, ==_refl l)

is_empty→none : (o : Option ℕ) → is_empty o ≡ true → o ≡ none
is_empty→none none e = refl
is_empty→none (some c) e = cc

free_slot-lt :
    (l : Lobby) → IsCounted l → l.num_clients < l.max_clients → free_slot l < l.max_clients
free_slot-lt l v h = elim (Bool-cases (free_slot l == l.max_clients)) [
  | inl e ↦ absurd (
      omega (
        arith,
        v.counted,
        find_index-full l.max_clients l.clients (omega (arith, v.size, v.twelve)) (==→eq _ _ e),
      ))
  | inr ne ↦ ground (arith, find_index-le is_empty l.max_clients l.clients)
]

-- With the count kept, a lobby that is not full has a slot for the client.
pub add-cases :
    (now : ℕ) (w : World) (c l : ℕ)
    → IsCounted (w.lobbies l)
    → let lob = w.lobbies l in
      ((lob.max_clients ≤ lob.num_clients) × (lobby_add_client_locked now w c l ≡ (neg 1, w)))
      ⊎ ((i : ℕ) × (lob.num_clients < lob.max_clients)
          × (i < lob.max_clients)
          × (get_or lob.clients i none ≡ none)
          × (lobby_add_client_locked now w c l ≡ (pos 0, place now (before_join w c l) c l i)))
unfolding lobby_add_client_locked
add-cases now w c l v = elim (Bool-cases (leb lob.max_clients lob.num_clients)) [
  | inl full ↦ inl (leb→le _ _ full, rw (full, lobby_add_client_locked) refl)
  | inr room ↦ elim (Bool-cases (prefers_one lob)) [
    | inl one ↦ inr (
      1,
      ground arith,
      omega (arith, v.two),
      is_empty→none (get_or lob.clients 1 none) (ground arith),
      rw (room, one, lobby_add_client_locked) refl,
    )
    | inr other ↦ inr (
      free_slot lob,
      ground arith,
      free room,
      is_empty→none _ (find_index_sound is_empty lob.max_clients lob.clients none (free room)),
      rw (room, other, lt→ltb _ _ (free room), lobby_add_client_locked) refl,
    )
  ]
]
  where
    lob : Lobby
    lob = w.lobbies l

    free : leb lob.max_clients lob.num_clients ≡ false → free_slot lob < lob.max_clients
    free room = free_slot-lt lob v (ground arith)

-- A write to one slot, with the count changed to match.
pub IsCounted-set :
    (l l' : Lobby) (i : ℕ) (y : Option ℕ)
    → IsCounted l
    → i < l.max_clients
    → l'.clients ≡ set l.clients i y
    → l'.num_clients + occupied (get_or l.clients i none) ≡ l.num_clients + occupied y
    → l'.max_clients ≡ l.max_clients
    → IsCounted l'
IsCounted-set l l' i y v h e n m = record {
  size = omega (arith, ap length e, length-set l.clients i y, v.size);
  two = omega (arith, v.two, m);
  twelve = omega (arith, v.twelve, m);
  counted =
      rw (m, e)
        (omega (
          arith,
          n,
          v.counted,
          sum_by-set occupied l.max_clients i l.clients none y h (omega (arith, v.size, v.twelve)),
        ));
}

place-IsCounted :
    (now : ℕ) (w : World) (c l i : ℕ)
    → IsCounted (w.lobbies l)
    → i < (w.lobbies l).max_clients
    → get_or (w.lobbies l).clients i none ≡ none
    → IsCounted ((place now (before_join w c l) c l i).lobbies l)
place-IsCounted now w c l i v h e =
    let p = place-slots now (before_join w c l) c l i in
    let b = before_join-slots w c l in
    IsCounted-set (w.lobbies l) _ i (some c) v h (p.0 ∙ ap (λ s. set s i (some c)) b.0)
      (rw e (omega (arith, p.1, b.1))) (p.2 ∙ b.2)

-- `lobby_add_client_locked` answers 0 exactly when the lobby has fewer clients than it may have,
-- so the search for a slot never fails, and it keeps the count.
pub lobby_add_client_locked-IsCounted :
    (now : ℕ) (w : World) (c l : ℕ)
    → IsCounted (w.lobbies l)
    → let lob = w.lobbies l in
      let (code, w') = lobby_add_client_locked now w c l in
      (code ≡ (if ltb lob.num_clients lob.max_clients then pos 0 else neg 1))
      × IsCounted (w'.lobbies l)
lobby_add_client_locked-IsCounted now w c l v = elim (add-cases now w c l v) [
  | inl (full, e) ↦ rw e (ground arith, v)
  | inr (i, room, lt, free, e) ↦
      rw (e, lt→ltb _ _ room) (refl, place-IsCounted now w c l i v lt free)
]

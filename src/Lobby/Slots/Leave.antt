-- ===== src/Lobby/Slots/Leave.antt =====
-- Leaving a lobby: the slots, the count and the leader after it.
use ship_server.Base.{
  ℕ, zero, suc, ◌-◌, ◌<◌, ◌≡◌, ◌≢◌, refl, sym, ap, ◌∙◌, inl, inr, true, List, [], ◌∷◌, Option, none,
  some, ltb, ◌==◌, ◌&&◌, if◌then◌else◌, pos, neg, arith, take, get_elem?, get_elem?-set_ne,
  sum_by-set, get_or, set, has_flag, Bool-cases, ==_refl,
}
use ship_server.Lobby.{Lobby, Client, World, type_lobby, gc, holds, put_lobby}
use ship_server.Lobby.Flag
use ship_server.Lobby.Slots.{
  update_challenge, lobby_elect_leader_cross_locked, or_zero, replace_leader, clear_regs, vacate,
  detach, leave_team, lobby_remove_client_locked,
}
use ship_server.Lobby.Slots.Election.{Successor, elect-Successor, elect_cross-Successor}
use ship_server.Lobby.Slots.Count.{IsCounted, IsCounted-set, occupied, update_challenge-slots}

cross-slots :
    (now : ℕ) (of : ℕ → Client) (l : Lobby)
    → let l' = (lobby_elect_leader_cross_locked now of l).1 in
      (l'.clients ≡ l.clients) × (l'.num_clients ≡ l.num_clients) × (l'.max_clients ≡ l.max_clients)
unfolding lobby_elect_leader_cross_locked
cross-slots now of l = ground arith

leader-update_challenge :
    (of : ℕ → Client) (l : Lobby) → (update_challenge of l).leader_id ≡ l.leader_id
unfolding update_challenge
leader-update_challenge of l = ground arith

replace_leader-slots :
    (now : ℕ) (of : ℕ → Client) (l : Lobby) (id : ℕ)
    → let l' = replace_leader now of l id in
      (l'.clients ≡ l.clients) × (l'.num_clients ≡ l.num_clients) × (l'.max_clients ≡ l.max_clients)
unfolding replace_leader lobby_elect_leader_cross_locked
replace_leader-slots now of l id = ground (arith, cross-slots now of l)

holds→some : (o : Option ℕ) (c : ℕ) → holds o c ≡ true → o ≡ some c
holds→some none c e = cc
holds→some (some d) c e = ground arith

pub vacate-slots :
    (now : ℕ) (of : ℕ → Client) (l : Lobby) (id : ℕ)
    → let l' = vacate now of l id in
      (l'.clients ≡ set l.clients id none)
      × (l'.num_clients ≡ l.num_clients - 1)
      × (l'.max_clients ≡ l.max_clients)
      × (l'.leader_id ≡ (replace_leader now of l id).leader_id)
unfolding vacate
vacate-slots now of l id =
    let l1 = replace_leader now of l id in
    let l2 : Lobby = record l1 {
      clients = set l1.clients id none;
      num_clients = l1.num_clients - 1;
    } in
    let u = update_challenge-slots of l2 in
    let r = replace_leader-slots now of l id in
    (
      u.0 ∙ ap (λ s. set s id none) r.0,
      u.1 ∙ ap (λ n. n - 1) r.1,
      u.2 ∙ r.2,
      leader-update_challenge of l2,
    )

leave_team-slots :
    (w : World) (c id l : ℕ) (lob : Lobby)
    → let l' = (leave_team w c id l lob).lobbies l in
      (l'.clients ≡ lob.clients)
      × (l'.num_clients ≡ lob.num_clients)
      × (l'.max_clients ≡ lob.max_clients)
      × (l'.leader_id ≡ lob.leader_id)
unfolding leave_team clear_regs
leave_team-slots w c id l lob = rw (==_refl l) (refl, refl, refl, refl)

put_lobby_self : (w : World) (l : ℕ) (lob : Lobby) → (put_lobby w l lob).lobbies l ≡ lob
put_lobby_self w l lob = rw (==_refl l) refl

-- The lobby after a client has left it.
pub remove-vacates :
    (now : ℕ) (w : World) (c id l : ℕ)
    → get_or (w.lobbies l).clients id none ≡ some c
    → let l' = (lobby_remove_client_locked now w c id l).1.lobbies l in
      let v = vacate now w.clients (w.lobbies l) id in
      (l'.clients ≡ v.clients)
      × (l'.num_clients ≡ v.num_clients)
      × (l'.max_clients ≡ v.max_clients)
      × (l'.leader_id ≡ v.leader_id)
unfolding lobby_remove_client_locked
remove-vacates now w c id l e =
    let v = vacate now w.clients (w.lobbies l) id in
    elim (Bool-cases (v.type == type_lobby)) [
      | inl t ↦ rw (e, holds, ==_refl c, t) (rw (==_refl l) (refl, refl, refl, refl))
      | inr t ↦ rw (e, holds, ==_refl c, t) (leave_team-slots (detach w c l) c id l v)
    ]

type-vacate : (now : ℕ) (of : ℕ → Client) (l : Lobby) (id : ℕ) → (vacate now of l id).type ≡ l.type
unfolding vacate update_challenge replace_leader lobby_elect_leader_cross_locked
type-vacate now of l id = ground arith

left-IsCounted :
    (now : ℕ) (w : World) (c id l : ℕ)
    → IsCounted (w.lobbies l)
    → id < (w.lobbies l).max_clients
    → get_or (w.lobbies l).clients id none ≡ some c
    → IsCounted ((lobby_remove_client_locked now w c id l).1.lobbies l)
left-IsCounted now w c id l v h e =
    let lob = w.lobbies l in
    let r = remove-vacates now w c id l e in
    let s = vacate-slots now w.clients lob id in
    IsCounted-set lob _ id none v h (r.0 ∙ s.0)
      (rw e (
        omega (
          arith,
          r.1,
          s.1,
          v.counted,
          rw e at (
              sum_by-set occupied lob.max_clients id lob.clients none none h
                (omega (arith, v.size, v.twelve))),
        )))
      (r.2 ∙ s.2)

-- `lobby_remove_client_locked` answers -1 if the client is not in the slot that it is said to be
-- in, 1 if it was the last of a team, else 0; and it keeps the count.
pub lobby_remove_client_locked-IsCounted :
    (now : ℕ) (w : World) (c id l : ℕ)
    → IsCounted (w.lobbies l)
    → id < (w.lobbies l).max_clients
    → let (code, w') = lobby_remove_client_locked now w c id l in
      let lob = w.lobbies l in
      (code ≡ (
        if holds (get_or lob.clients id none) c
        then (if lob.type == type_lobby
            then pos 0
            else if lob.num_clients - 1 == 0
            then pos 1
            else pos 0)
        else neg 1))
      × IsCounted (w'.lobbies l)
unfolding lobby_remove_client_locked
lobby_remove_client_locked-IsCounted now w c id l v h =
    elim (Bool-cases (holds (get_or (w.lobbies l).clients id none) c)) [
      | inr n ↦ rw n (refl, v)
      | inl y ↦ (
        rw (y, lobby_remove_client_locked)
            (ground (
              arith,
              type-vacate now w.clients (w.lobbies l) id,
              vacate-slots now w.clients (w.lobbies l) id,
            )),
        left-IsCounted now w c id l v h (holds→some _ c y),
      )
    ]

get_elem?-take :
    (n k : ℕ) (slots : List (Option ℕ)) {c : ℕ}
    → get_elem? (take n slots) k ≡ some (some c)
    → get_elem? slots k ≡ some (some c)
get_elem?-take zero k slots e = cc
get_elem?-take (suc n) k [] e = cc
get_elem?-take (suc n) zero (x ∷ r) e = e
get_elem?-take (suc n) (suc k) (x ∷ r) e = get_elem?-take n k r e

-- When the leader goes, whoever is elected has a slot.
replace_leader-Successor :
    (now : ℕ) (of : ℕ → Client) (l : Lobby) (j d : ℕ)
    → get_elem? (take l.max_clients l.clients) j ≡ some (some d)
    → j ≢ l.leader_id
    → (of d).join_time < now
    → Successor l (some (replace_leader now of l l.leader_id).leader_id)
unfolding replace_leader
replace_leader-Successor now of l j d e ne t =
    rw (==_refl l.leader_id)
      (elim (Bool-cases (ltb l.version gc && has_flag l.flags Flag.gc_allowed)) [
        | inl x ↦
            let (k, c, r, g, o) = elect_cross-Successor now of l j d e ne t in
            rw x (k, c, ap (λ q. some (or_zero q)) r, g, o)
        | inr x ↦
            let (k, c, r, g, o) = elect-Successor now of l j d e ne t in
            rw x (k, c, ap (λ q. some (or_zero q)) r, g, o)
      ])

-- A lobby that loses its leader has one again: if another client, in any slot j that the lobby may
-- use, joined before `now`, then after `lobby_remove_client_locked` the leader's slot has a client.
pub lobby_remove_client_locked-leader :
    (now : ℕ) (w : World) (c l j d : ℕ)
    → get_or (w.lobbies l).clients (w.lobbies l).leader_id none ≡ some c
    → get_elem? (take (w.lobbies l).max_clients (w.lobbies l).clients) j ≡ some (some d)
    → j ≢ (w.lobbies l).leader_id
    → (w.clients d).join_time < now
    → let lob' = (lobby_remove_client_locked now w c (w.lobbies l).leader_id l).1.lobbies l in
      (e : ℕ) × (get_elem? lob'.clients lob'.leader_id ≡ some (some e))
lobby_remove_client_locked-leader now w c l j d h e ne t =
    let lob = w.lobbies l in
    let r = remove-vacates now w c lob.leader_id l h in
    let s = vacate-slots now w.clients lob lob.leader_id in
    let (k, b, q, g, o) = replace_leader-Successor now w.clients lob j d e ne t in
    (
      b,
      rw (r.0, s.0, r.3, s.3, ap or_zero q)
          (get_elem?-set_ne lob.clients none (λ x. o (sym x))
            ∙ get_elem?-take lob.max_clients k lob.clients g),
    )

-- ===== src/Lobby/Slots/Candidates.antt =====
-- The loop that both elections run: the candidate it ends with.
use ship_server.Base.{
  ℕ, zero, suc, ◌+◌, ◌≤◌, ◌<◌, ◌≡◌, ◌≢◌, refl, ap, ◌∙◌, ◌⊎◌, inl, inr, Bool, true, ◌&&◌, List, [],
  ◌∷◌, Option, none, some, ltb, ◌==◌, if◌then◌else◌, arith, get_elem?, Bool-cases,
}
use ship_server.Lobby.{Client}
use ship_server.Lobby.Slots.{elect}

-- The choice of one round of the loop.
abbrev better : (ℕ → Client) → (Client → Bool) → ℕ → ℕ → ℕ → Option ℕ × ℕ → Option ℕ × ℕ
better of eligible leader i c best =
    if i == leader
    then best
    else if ltb (of c).join_time best.1 && eligible (of c)
    then (some i, (of c).join_time)
    else best

-- Slot k of the list holds a candidate who joined at t; the list starts at slot i.
pub record Chosen (of : ℕ → Client) (eligible : Client → Bool) (leader i : ℕ)
    (slots : List (Option ℕ)) (r : Option ℕ × ℕ) : Type 0 where
  pub at : ℕ
  pub client : ℕ
  pub seated : get_elem? slots at ≡ some (some client)
  pub other : i + at ≢ leader
  pub allowed : eligible (of client) ≡ true
  pub slot : r.0 ≡ some (i + at)
  pub time : r.1 ≡ (of client).join_time

module _ (of : ℕ → Client) (eligible : Client → Bool) (leader : ℕ) where
  better-le : (i c : ℕ) (best : Option ℕ × ℕ) → (better of eligible leader i c best).1 ≤ best.1
  better-le i c best = ground arith

  elect-le :
      (slots : List (Option ℕ)) (i : ℕ) (best : Option ℕ × ℕ)
      → (elect of eligible leader slots i best).1 ≤ best.1
  unfolding elect
  elect-le [] i best = omega arith
  elect-le (none ∷ r) i best = elect-le r (i + 1) best
  elect-le (some c ∷ r) i best =
      ground (arith, elect-le r (i + 1) (better of eligible leader i c best))

  -- No candidate joined before the time that the loop ends with.
  pub elect-earliest :
      (slots : List (Option ℕ)) (i : ℕ) (best : Option ℕ × ℕ) (j d : ℕ)
      → get_elem? slots j ≡ some (some d)
      → i + j ≢ leader
      → eligible (of d) ≡ true
      → (elect of eligible leader slots i best).1 ≤ (of d).join_time
  unfolding elect
  elect-earliest [] i best j d e ne a = cc
  elect-earliest (none ∷ r) i best zero d e ne a = cc
  elect-earliest (none ∷ r) i best (suc j) d e ne a =
      elect-earliest r (i + 1) best j d e (omega arith) a
  elect-earliest (some c ∷ r) i best zero d e ne a =
      ground (arith, elect-le r (i + 1) (better of eligible leader i c best))
  elect-earliest (some c ∷ r) i best (suc j) d e ne a =
      elect-earliest r (i + 1) (better of eligible leader i c best) j d e (omega arith) a

  later :
      (x : Option ℕ) (r : List (Option ℕ)) (i : ℕ) (b : Option ℕ × ℕ)
      → Chosen of eligible leader (i + 1) r b
      → Chosen of eligible leader i (x ∷ r) b
  later x r i b h = record {
    at = suc h.at;
    client = h.client;
    seated = h.seated;
    other = omega (arith, h.other);
    allowed = h.allowed;
    slot = h.slot ∙ ap (λ (k : ℕ). some k) (omega arith);
    time = h.time;
  }

  here :
      (c : ℕ) (r : List (Option ℕ)) (i : ℕ) (best : Option ℕ × ℕ)
      → (better of eligible leader i c best ≡ best)
        ⊎ (Chosen of eligible leader i (some c ∷ r) (better of eligible leader i c best)
            × ((better of eligible leader i c best).1 < best.1))
  here c r i best = elim (Bool-cases (i == leader)) [
    | inl e ↦ inl (rw e)
    | inr e ↦ elim (Bool-cases (ltb (of c).join_time best.1 && eligible (of c))) [
      | inr n ↦ inl (rw (e, n))
      | inl y ↦ inr (
          rw (e, y)
            (
              record {
                at = 0;
                client = c;
                seated = refl;
                other = ground arith;
                allowed = ground arith;
                slot = ap (λ (k : ℕ). some k) (omega arith);
                time = refl;
              },
              ground arith,
            ))
    ]
  ]

  -- The loop ends with what it began with, or with a candidate who joined before that.
  pub elect-Chosen :
      (slots : List (Option ℕ)) (i : ℕ) (best : Option ℕ × ℕ)
      → (elect of eligible leader slots i best ≡ best)
        ⊎ (Chosen of eligible leader i slots (elect of eligible leader slots i best)
            × ((elect of eligible leader slots i best).1 < best.1))
  unfolding elect
  elect-Chosen [] i best = inl refl
  elect-Chosen (none ∷ r) i best = elim (elect-Chosen r (i + 1) best) [
    | inl e ↦ inl e
    | inr (c, h) ↦ inr (later none r i _ c, h)
  ]
  elect-Chosen (some c ∷ r) i best =
      elim (elect-Chosen r (i + 1) (better of eligible leader i c best)) [
        | inr (d, h) ↦ inr (later (some c) r i _ d, omega (arith, better-le i c best, h))
        | inl e ↦ rw e (here c r i best)
      ]

-- ===== src/Quests/Calls/Stale.antt =====
-- `del_quest_sflag` and `del_quest_lflag` of src/quest_functions.c look at a word that was not
-- pushed.
use ship_server.Base.{
  ℕ, zero, suc, ◌+◌, ◌<◌, ◌≤◌, ◌≡◌, ◌⊎◌, inl, inr, refl, sym, subst, true, false, ltb, List, [],
  ◌∷◌, ◌==◌, if◌then◌else◌, arith,
}
use ship_server.Quests.Functions.{
  Effect, Team, request, Called, not_yet, invalid_register, delete_flag, long_flag,
}
use ship_server.Quests.Calls.{
  Env, ask, del_flag, del_quest_sflag, del_quest_lflag, functions, first_functions, call,
  quest_function_dispatch,
}
use ship_server.Quests.Calls.Pushed.{Agree, pushed}

-- The control word of the request of function 16 or 17.
abbrev ctl_of : ℕ → ℕ
ctl_of number = if number == 16 then delete_flag else long_flag + delete_flag

-- A call that deletes a flag, and whatever lies on the stack above it.
abbrev deletion : ℕ → ℕ → ℕ → List ℕ → List ℕ
deletion number flag reg above = number ∷ 1 ∷ 1 ∷ flag ∷ reg ∷ above

deletion-Agree :
    (number flag reg : ℕ) (above above' : List ℕ)
    → Agree 5 (deletion number flag reg above) (deletion number flag reg above')
deletion-Agree number flag reg above above' zero lt = refl
deletion-Agree number flag reg above above' (suc zero) lt = refl
deletion-Agree number flag reg above above' (suc (suc zero)) lt = refl
deletion-Agree number flag reg above above' (suc (suc (suc zero))) lt = refl
deletion-Agree number flag reg above above' (suc (suc (suc (suc zero)))) lt = refl
deletion-Agree number flag reg above above' (suc (suc (suc (suc (suc i))))) lt =
    absurd (omega arith)

-- Nothing is done, for an invalid register; the request goes to the shipgate.
abbrev IsRefused : Called → Type 0
IsRefused d = (d.code ≡ invalid_register) × (d.effects ≡ [])

abbrev IsAsked : Effect → Called → Type 0
IsAsked r d = (d.code ≡ not_yet) × (d.effects ≡ r ∷ [])

-- What two calls do that push the same five words.
abbrev pub IsStale : Env → Team → ℕ → ℕ → ℕ → List ℕ → List ℕ → Type 0
IsStale env t number flag reg above above' =
    let s = deletion number flag reg above in
    let s' = deletion number flag reg above' in
    (pushed s ≡ 5)
    × Agree (pushed s) s s'
    × IsRefused (quest_function_dispatch env t s)
    × IsAsked (request true flag reg (ctl_of number)) (quest_function_dispatch env t s')

del_flag-IsRefused :
    (ctl : ℕ) (env : Env) (t : Team) (number flag reg bad : ℕ) (old : List ℕ)
    → flag ≤ 255
    → 255 < bad
    → IsRefused (del_flag ctl env t (deletion number flag reg (bad ∷ old)))
unfolding del_flag
del_flag-IsRefused ctl env t number flag reg bad old le lt = (ground arith, ground arith)

del_flag-IsAsked :
    (ctl : ℕ) (env : Env) (t : Team) (number flag reg good : ℕ) (old : List ℕ)
    → flag ≤ 255
    → good ≤ 255
    → env.refuses (request true flag reg ctl) ≡ false
    → IsAsked
        (request true flag reg ctl)
        (del_flag ctl env t (deletion number flag reg (good ∷ old)))
unfolding del_flag ask
del_flag-IsAsked ctl env t number flag reg good old le le' took =
    let t1 : ltb 255 flag ≡ false = ground arith in
    let t2 : ltb 255 good ≡ false = ground arith in rw (t1, t2, took) (refl, refl)

module _ (env : Env) (t : Team) (flag reg bad good : ℕ) (old old' : List ℕ) (le : flag ≤ 255)
    (lt : 255 < bad) (le' : good ≤ 255) where
  short_flag-IsStale :
      env.refuses (request true flag reg delete_flag) ≡ false
      → IsStale env t 16 flag reg (bad ∷ old) (good ∷ old')
  unfolding quest_function_dispatch functions first_functions call del_quest_sflag
  short_flag-IsStale took = (
    refl,
    deletion-Agree 16 flag reg (bad ∷ old) (good ∷ old'),
    del_flag-IsRefused delete_flag env t 16 flag reg bad old le lt,
    del_flag-IsAsked delete_flag env t 16 flag reg good old' le le' took,
  )

  long_flag-IsStale :
      env.refuses (request true flag reg (long_flag + delete_flag)) ≡ false
      → IsStale env t 17 flag reg (bad ∷ old) (good ∷ old')
  unfolding quest_function_dispatch functions first_functions call del_quest_lflag
  long_flag-IsStale took = (
    refl,
    deletion-Agree 17 flag reg (bad ∷ old) (good ∷ old'),
    del_flag-IsRefused (long_flag + delete_flag) env t 17 flag reg bad old le lt,
    del_flag-IsAsked (long_flag + delete_flag) env t 17 flag reg good old' le le' took,
  )

-- A quest's call of function 16 or 17, which delete a flag, pushes five words, and these do not
-- decide what it does: of two stacks that agree on them, that with a word above 255 left next to
-- them by an earlier call is refused for an invalid register, and that with a word up to 255 there
-- asks the shipgate, where the shipgate takes the request. So it is for every flag up to 255, and
-- for every register pushed, also one above 255.
pub del_quest_flag-IsStale :
    (env : Env) (t : Team) (number flag reg bad good : ℕ) (old old' : List ℕ)
    → (number ≡ 16) ⊎ (number ≡ 17)
    → flag ≤ 255
    → 255 < bad
    → good ≤ 255
    → env.refuses (request true flag reg (ctl_of number)) ≡ false
    → IsStale env t number flag reg (bad ∷ old) (good ∷ old')
del_quest_flag-IsStale env t number flag reg bad good old old' n le lt le' took =
    let Stale = λ (k : ℕ).
      env.refuses (request true flag reg (ctl_of k)) ≡ false
      → IsStale env t k flag reg (bad ∷ old) (good ∷ old') in
    elim n [
      | inl q ↦
          subst Stale (sym q) (short_flag-IsStale env t flag reg bad good old old' le lt le') took
      | inr q ↦
          subst Stale (sym q) (long_flag-IsStale env t flag reg bad good old old' le lt le') took
    ]

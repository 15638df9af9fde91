-- ===== src/Quests/Calls/Pushed.antt =====
-- Which words of the stack the functions of src/quest_functions.c look at.
use ship_server.Base.{
  ℕ, zero, suc, ◌+◌, ◌-◌, ◌<◌, ◌≤◌, ◌≡◌, ◌≢◌, refl, ap, sym, subst, ◌∙◌, inl, inr, false, ◌||◌,
  List, [], ◌∷◌, ◌++◌, Option, none, some, ltb, ◌==◌, get_elem?, All, length, get_elem?-append_left,
  get_elem?-append_right, Bool-cases, arith,
}
use ship_server.Quests.Functions.{
  Member, Team, Called, arg, per_client, get_section_id, get_char_class, get_char_gender,
  get_char_race, get_char_job, get_client_floor, get_client_position, get_level, get_pos_updates,
  one_value, get_client_count_updates, get_random_integer,
}
use ship_server.Quests.Calls.{
  Env, get_flag, get_quest_sflag, get_quest_lflag, set_quest_sflag, set_quest_lflag, words, ascii,
  letters, word_censor_check, name_in, get_ship_name, get_ship_name_utf16, first_functions,
  last_functions, functions, del_quest_sflag, del_quest_lflag, call, quest_function_dispatch,
  script_start,
}

-- The stacks hold the same first `n` words.
abbrev pub Agree : ℕ → List ℕ → List ℕ → Type 0
Agree n s s' = (i : ℕ) → i < n → arg s i ≡ arg s' i

-- How many words a call with these counts pushes.
abbrev pub pushed : List ℕ → ℕ
pushed s = 3 + arg s 1 + arg s 2

-- The function looks at no word beyond those.
abbrev LooksWithin : (Team → List ℕ → Called) → Type 0
LooksWithin f = (t : Team) (s s' : List ℕ) → Agree (pushed s) s s' → f t s ≡ f t s'

one_value-LooksWithin : (value : ℕ) → LooksWithin (one_value value)
unfolding one_value
one_value-LooksWithin value t s s' a = ground (arith, a 1, a 2, a 3)

per_client-LooksWithin :
    (k : ℕ) (values : Member → List ℕ) (keep : ℕ → ℕ → Team → Team)
    → LooksWithin (per_client k values keep)
unfolding per_client
per_client-LooksWithin k values keep t s s' a = ground (arith, a 1, a 2, a 3, a 4, a 5, a 6, a 7)

get_random_integer-LooksWithin : (rnd : ℕ) → LooksWithin (get_random_integer rnd)
unfolding get_random_integer
get_random_integer-LooksWithin rnd t s s' a = ground (arith, a 1, a 2, a 3, a 4, a 5)

get_client_count_updates-LooksWithin : (me : ℕ) → LooksWithin (get_client_count_updates me)
unfolding get_client_count_updates
get_client_count_updates-LooksWithin me t s s' a = ground (arith, a 1, a 2, a 3)

name_in-LooksWithin : (last : ℕ) (values : List ℕ) → LooksWithin (name_in last values)
unfolding name_in
name_in-LooksWithin last values t s s' a = ground (arith, a 1, a 2, a 3)

get_flag-LooksWithin : (ctl : ℕ) (env : Env) → LooksWithin (get_flag ctl env)
unfolding get_flag
get_flag-LooksWithin ctl env t s s' a = ground (arith, a 1, a 2, a 3, a 4)

set_quest_sflag-LooksWithin : (env : Env) → LooksWithin (set_quest_sflag env)
unfolding set_quest_sflag
set_quest_sflag-LooksWithin env t s s' a = ground (arith, a 1, a 2, a 3, a 4, a 5)

set_quest_lflag-LooksWithin : (env : Env) → LooksWithin (set_quest_lflag env)
unfolding set_quest_lflag
set_quest_lflag-LooksWithin env t s s' a = ground (arith, a 1, a 2, a 3, a 4, a 5)

words-Agree : (m n i : ℕ) (s s' : List ℕ) → Agree m s s' → i + n ≤ m → words s i n ≡ words s' i n
unfolding words
words-Agree m zero i s s' a le = refl
words-Agree m (suc n) i s s' a le =
    rw (a i (omega arith)) (rw (words-Agree m n (i + 1) s s' a (omega arith)) refl)

word_censor_check-LooksWithin :
    (read : List ℕ → Option (List ℕ)) (env : Env) → LooksWithin (word_censor_check read env)
unfolding word_censor_check
word_censor_check-LooksWithin read env t s s' a =
    let n = arg s 1 in
    let same : arg s 1 ≡ arg s' 1 = a 1 (omega arith) in
    rw (← same) (
      rw (← a 2 (omega arith)) (elim (Bool-cases (ltb n 1 || ltb 24 n)) [
        | inl e1 ↦ rw e1 refl
        | inr e1 ↦ rw e1 (elim (Bool-cases (arg s 2 == 1)) [
          | inr e2 ↦ rw e2 refl
          | inl e2 ↦
              let one : arg s 2 ≡ 1 = ground arith in
              rw e2 (
                rw (a (n + 3) (omega arith))
                  (rw (words-Agree (pushed s) n 3 s s' a (omega arith)) refl))
        ])
      ]))

first_functions-LooksWithin : (env : Env) → All LooksWithin (first_functions env)
unfolding first_functions get_section_id get_char_class get_char_gender get_char_race get_char_job
    get_client_floor get_client_position get_quest_sflag get_quest_lflag
first_functions-LooksWithin env = (
  per_client-LooksWithin 1 _ _,
  (
    one_value-LooksWithin env.now,
    (
      (λ t. one_value-LooksWithin t.num_clients t),
      (
        per_client-LooksWithin 1 _ _,
        (
          per_client-LooksWithin 1 _ _,
          (
            per_client-LooksWithin 1 _ _,
            (
              per_client-LooksWithin 1 _ _,
              (
                per_client-LooksWithin 1 _ _,
                (
                  per_client-LooksWithin 3 _ _,
                  (
                    get_random_integer-LooksWithin env.rnd,
                    (
                      one_value-LooksWithin env.ship_clients,
                      (
                        one_value-LooksWithin env.block_clients,
                        (
                          get_flag-LooksWithin 0 env,
                          (
                            set_quest_sflag-LooksWithin env,
                            (get_flag-LooksWithin _ env, (set_quest_lflag-LooksWithin env, tt)),
                          ),
                        ),
                      ),
                    ),
                  ),
                ),
              ),
            ),
          ),
        ),
      ),
    ),
  ),
)

last_functions-LooksWithin : (env : Env) → All LooksWithin (last_functions env)
unfolding last_functions get_pos_updates get_level get_ship_name get_ship_name_utf16
last_functions-LooksWithin env = (
  word_censor_check-LooksWithin ascii env,
  (
    word_censor_check-LooksWithin letters env,
    (
      (λ t. one_value-LooksWithin t.rand_seed t),
      (
        per_client-LooksWithin 4 _ _,
        (
          per_client-LooksWithin 1 _ _,
          (
            name_in-LooksWithin 253 _,
            (
              name_in-LooksWithin 250 _,
              (one_value-LooksWithin _, (get_client_count_updates-LooksWithin env.me, tt)),
            ),
          ),
        ),
      ),
    ),
  ),
)

-- A function that is found looks at no other words.
Within : Option (Team → List ℕ → Called) → Type 0
Within none = Unit
Within (some f) = LooksWithin f

Within-get_elem? :
    (fs : List (Team → List ℕ → Called)) (n : ℕ) → All LooksWithin fs → Within (get_elem? fs n)
unfolding Within
Within-get_elem? [] n all = tt
Within-get_elem? (f ∷ fs) zero all = all.0
Within-get_elem? (f ∷ fs) (suc n) all = Within-get_elem? fs n all.1

first_functions-length : (env : Env) → length (first_functions env) ≡ 16
unfolding first_functions
first_functions-length env = refl

Within-functions : (env : Env) (n : ℕ) → n ≢ 16 → n ≢ 17 → Within (get_elem? (functions env) n)
unfolding functions
Within-functions env n ne ne' =
    let rest = del_quest_sflag env ∷ del_quest_lflag env ∷ last_functions env in
    let first = first_functions env in
    let len : length first ≡ 16 = first_functions-length env in
    elim (Bool-cases (ltb n 16)) [
      | inl low ↦
          subst Within (sym (get_elem?-append_left first rest n (ground arith)))
            (Within-get_elem? first n (first_functions-LooksWithin env))
      | inr high ↦
          let m = n - 18 in
          let place : length first + suc (suc m) ≡ n = ground arith in
          subst Within
            (sym (get_elem?-append_right first rest (suc (suc m)))
              ∙ ap (get_elem? (first ++ rest)) place)
            (Within-get_elem? (last_functions env) m (last_functions-LooksWithin env))
    ]

call-Within : (o : Option (Team → List ℕ → Called)) → Within o → LooksWithin (call o)
unfolding Within call
call-Within none w t s s' a = refl
call-Within (some f) w t s s' a = w t s s' a

-- A quest's call of any function of the server but the two that delete flags depends only on the
-- words that the call pushed: the number, the two counts, and as many words as they say. Stacks
-- that agree on those give the same code, effects and team, whatever an earlier call left behind.
pub quest_function_dispatch-pushed :
    (env : Env) (t : Team) (s s' : List ℕ)
    → arg s 0 ≤ script_start
    → arg s 0 ≢ 16
    → arg s 0 ≢ 17
    → Agree (pushed s) s s'
    → quest_function_dispatch env t s ≡ quest_function_dispatch env t s'
unfolding quest_function_dispatch
quest_function_dispatch-pushed env t s s' le ne ne' a =
    let builtin : ltb script_start (arg s 0) ≡ false = ground arith in
    rw (← a 0 (omega arith)) (
      rw builtin (
        call-Within (get_elem? (functions env) (arg s 0)) (Within-functions env (arg s 0) ne ne') t
          s s' a))

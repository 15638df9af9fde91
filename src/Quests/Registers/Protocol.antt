-- ===== src/Quests/Registers/Protocol.antt =====
-- The calls of a quest, word by word, through `handle_sync_reg` of src/subcmd.c.
use ship_server.Base.{
  ℕ, zero, suc, ◌+◌, ◌-◌, ◌%◌, ◌<◌, ◌≤◌, ◌≡◌, ◌≢◌, refl, ap, sym, subst, ◌∙◌, inl, inr, Bool, true,
  false, ◌&&◌, List, [], ◌∷◌, ◌++◌, append-nil, ltb, leb, ◌==◌, ==_ne, set, length, length-set,
  get_or-set_self, get_or-set_ne, u32, arith, Bool-cases,
}
use ship_server.Quests.Functions.{Team, Effect, sync, Called, arg, not_yet}
use ship_server.Quests.Calls.{Env, words, script_start, quest_function_dispatch}
use ship_server.Quests.Calls.Pushed.{Agree, pushed, quest_function_dispatch-pushed}
use ship_server.Quests.Registers.{Asker, max_qstack, called, push}

-- Writes of the data register, one after the other.
pub feed : Env → ℕ → List ℕ → Asker → Asker × List Effect
feed env reg [] a = (a, [])
feed env reg (w ∷ ws) a =
    let first = push env reg a w in
    let rest = feed env reg ws first.0 in (rest.0, first.1 ++ rest.1)

-- The first `k` words have been pushed, and no call is waiting for the shipgate.
abbrev IsAt : List ℕ → ℕ → Asker → Type 0
IsAt ws k a = (a.top ≡ k) × Agree k a.stack ws × (a.locked ≡ false) × (length a.stack ≡ max_qstack)

abbrev push_word : Asker → ℕ → Asker
push_word a w = record a { stack = set a.stack a.top w; top = a.top + 1 }

push_word-IsAt :
    (ws : List ℕ) (k : ℕ) (a : Asker)
    → k < max_qstack
    → IsAt ws k a
    → IsAt ws (k + 1) (push_word a (arg ws k))
push_word-IsAt ws k a lt (top, agree, unlocked, len) =
    (omega arith, agree', unlocked, omega (arith, length-set a.stack a.top (arg ws k)))
  where
    agree' : Agree (k + 1) (set a.stack a.top (arg ws k)) ws
    agree' i lt' = elim (Bool-cases (a.top == i)) [
      | inl here ↦
          let e : a.top ≡ i = ground arith in
          let e' : k ≡ i = omega arith in
          ap (λ j. arg (set a.stack a.top (arg ws k)) j) (sym e)
          ∙ get_or-set_self a.stack a.top (arg ws k) 0 (omega arith)
          ∙ ap (arg ws) e'
      | inr elsewhere ↦
          let ne : a.top ≢ i = ground arith in
          get_or-set_ne a.stack a.top i (arg ws k) 0 ne ∙ agree i (ground arith)
    ]

-- The test for a whole call.
abbrev is_complete : Asker → Bool
is_complete a = leb 3 a.top && a.top == (3 + arg a.stack 1 + arg a.stack 2) % u32

is_complete-early :
    (ws : List ℕ) (k : ℕ) (a : Asker)
    → pushed ws ≤ max_qstack
    → k < pushed ws
    → IsAt ws k a
    → is_complete a ≡ false
is_complete-early ws k a le lt (top, agree, unlocked, len) = elim (Bool-cases (leb 3 a.top)) [
  | inr few ↦ rw few refl
  | inl three ↦
      let e1 : arg a.stack 1 ≡ arg ws 1 = agree 1 (ground arith) in
      let e2 : arg a.stack 2 ≡ arg ws 2 = agree 2 (ground arith) in
      rw three (rw e1 (rw e2 (ground arith)))
]

is_complete-last :
    (ws : List ℕ) (a : Asker)
    → pushed ws ≤ max_qstack
    → IsAt ws (pushed ws) a
    → is_complete a ≡ true
is_complete-last ws a le (top, agree, unlocked, len) =
    let three : leb 3 a.top ≡ true = ground arith in
    let e1 : arg a.stack 1 ≡ arg ws 1 = agree 1 (omega arith) in
    let e2 : arg a.stack 2 ≡ arg ws 2 = agree 2 (omega arith) in
    rw three (rw e1 (rw e2 (ground arith)))

-- A word that does not complete the call is kept.
push-waits :
    (env : Env) (reg : ℕ) (ws : List ℕ) (k : ℕ) (a : Asker)
    → pushed ws ≤ max_qstack
    → k + 1 < pushed ws
    → IsAt ws k a
    → push env reg a (arg ws k) ≡ (push_word a (arg ws k), [])
unfolding push
push-waits env reg ws k a le lt at =
    let room : ltb a.top max_qstack ≡ true = ground (arith, at.0) in
    let early : is_complete (push_word a (arg ws k)) ≡ false =
      is_complete-early ws (k + 1) (push_word a (arg ws k)) le lt
        (push_word-IsAt ws k a (omega arith) at) in
    rw room (rw at.2 (rw early refl))

-- The last word calls the function.
push-calls :
    (env : Env) (reg : ℕ) (ws : List ℕ) (k : ℕ) (a : Asker)
    → pushed ws ≤ max_qstack
    → k + 1 ≡ pushed ws
    → IsAt ws k a
    → let a' = push_word a (arg ws k) in
      push env reg a (arg ws k) ≡ called reg a' (quest_function_dispatch env a.team a'.stack)
unfolding push
push-calls env reg ws k a le last at =
    let room : ltb a.top max_qstack ≡ true = ground (arith, at.0) in
    let whole : is_complete (push_word a (arg ws k)) ≡ true =
      is_complete-last ws (push_word a (arg ws k)) le (
        subst (λ n. IsAt ws n (push_word a (arg ws k))) last
          (push_word-IsAt ws k a (omega arith) at)) in
    rw room (rw at.2 (rw whole refl))

-- What the call leaves: its effects and then its code in the data register, an empty stack, and the
-- team and the lock as the function set them.
abbrev pub IsAnswered : ℕ → Called → Asker × List Effect → Type 0
IsAnswered reg d (a', es) =
    (es ≡ d.effects ++ (sync reg d.code ∷ []))
    × (a'.top ≡ 0)
    × (a'.locked ≡ d.locks)
    × (a'.team ≡ d.team)

called-IsAnswered :
    (reg : ℕ) (a : Asker) (d : Called)
    → a.locked ≡ false
    → d.code ≢ not_yet
    → IsAnswered reg d (called reg a d)
unfolding called
called-IsAnswered reg a d unlocked ne =
    let now : (d.code == not_yet) ≡ false = ==_ne d.code not_yet ne in
    rw now (refl, refl, rw unlocked refl, refl)

feed-waits :
    (env : Env) (reg w : ℕ) (ws : List ℕ) (a a' : Asker)
    → push env reg a w ≡ (a', [])
    → feed env reg (w ∷ ws) a ≡ feed env reg ws a'
unfolding feed
feed-waits env reg w ws a a' e = rw e refl

feed-last :
    (env : Env) (reg w : ℕ) (a : Asker) (r : Asker × List Effect)
    → push env reg a w ≡ r
    → feed env reg (w ∷ []) a ≡ r
unfolding feed
feed-last env reg w a r e = rw e (ap (λ es. (r.0, es)) (append-nil r.1))

feed-IsAnswered :
    (env : Env) (reg n k : ℕ) (ws : List ℕ) (t : Team) (a : Asker)
    → pushed ws ≤ max_qstack
    → k + suc n ≡ pushed ws
    → IsAt ws k a
    → a.team ≡ t
    → ((s : List ℕ)
        → Agree (pushed ws) ws s
        → quest_function_dispatch env t s ≡ quest_function_dispatch env t ws)
    → (quest_function_dispatch env t ws).code ≢ not_yet
    → IsAnswered reg (quest_function_dispatch env t ws) (feed env reg (words ws k (suc n)) a)
unfolding words
feed-IsAnswered env reg zero k ws t a le total at same reads ne =
    let a' = push_word a (arg ws k) in
    let last : k + 1 ≡ pushed ws = omega arith in
    let agree : Agree (pushed ws) ws a'.stack =
      λ i lt. sym ((push_word-IsAt ws k a (omega arith) at).1 i (omega arith)) in
    let d : quest_function_dispatch env a.team a'.stack ≡ quest_function_dispatch env t ws =
      ap (λ u. quest_function_dispatch env u a'.stack) same ∙ reads a'.stack agree in
    let answer = called reg a' (quest_function_dispatch env t ws) in
    let pushes : push env reg a (arg ws k) ≡ answer =
      push-calls env reg ws k a le last at ∙ ap (called reg a') d in
    subst (IsAnswered reg (quest_function_dispatch env t ws))
      (sym (feed-last env reg (arg ws k) a answer pushes))
      (called-IsAnswered reg a' (quest_function_dispatch env t ws) at.2 ne)
feed-IsAnswered env reg (suc n) k ws t a le total at same reads ne =
    let a' = push_word a (arg ws k) in
    subst (IsAnswered reg (quest_function_dispatch env t ws))
      (sym (
        feed-waits env reg (arg ws k) (words ws (k + 1) (suc n)) a a'
          (push-waits env reg ws k a le (omega arith) at)))
      (feed-IsAnswered env reg n (k + 1) ws t a' le (omega arith)
        (push_word-IsAt ws k a (omega arith) at) same reads ne)

words-drop : (x : ℕ) (xs : List ℕ) (i n : ℕ) → words (x ∷ xs) (suc i) n ≡ words xs i n
unfolding words
words-drop x xs i zero = refl
words-drop x xs i (suc n) =
    let e : suc i + 1 ≡ suc (i + 1) = omega arith in
    ap (λ r. arg xs i ∷ r) (ap (λ j. words (x ∷ xs) j n) e ∙ words-drop x xs (i + 1) n)

words_all : (ws : List ℕ) → words ws 0 (length ws) ≡ ws
unfolding words
words_all [] = refl
words_all (w ∷ ws) =
    let one : 0 + 1 ≡ 1 = refl in ap (λ r. w ∷ r) (words-drop w ws 0 (length ws) ∙ words_all ws)

-- The words of a quest's call, written to the data register one by one on an empty unlocked stack,
-- call the function once, with the last word: the effects are the function's on exactly these words,
-- followed by its code in the data register, and the stack is empty again, whatever earlier calls
-- left in it. The call is as long as its counts say and fits the stack of 32; its function is
-- the server's, does not delete flags and does not wait for the shipgate.
pub feed-call :
    (env : Env) (reg : ℕ) (ws : List ℕ) (a : Asker)
    → length ws ≡ pushed ws
    → pushed ws ≤ max_qstack
    → a.top ≡ 0
    → a.locked ≡ false
    → length a.stack ≡ max_qstack
    → arg ws 0 ≤ script_start
    → arg ws 0 ≢ 16
    → arg ws 0 ≢ 17
    → (quest_function_dispatch env a.team ws).code ≢ not_yet
    → IsAnswered reg (quest_function_dispatch env a.team ws) (feed env reg ws a)
feed-call env reg ws a len le top unlocked size builtin ne16 ne17 ready =
    let reads : (s : List ℕ)
        → Agree (pushed ws) ws s
        → quest_function_dispatch env a.team s ≡ quest_function_dispatch env a.team ws =
      λ s agree. sym (quest_function_dispatch-pushed env a.team ws s builtin ne16 ne17 agree) in
    let count : suc (pushed ws - 1) ≡ length ws = omega arith in
    let all : words ws 0 (suc (pushed ws - 1)) ≡ ws = ap (words ws 0) count ∙ words_all ws in
    subst (λ vs. IsAnswered reg (quest_function_dispatch env a.team ws) (feed env reg vs a)) all
      (feed-IsAnswered env reg (pushed ws - 1) 0 ws a.team a le (omega arith)
        (top, (λ i lt. absurd (omega arith)), unlocked, size) refl reads ready)

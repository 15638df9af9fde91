-- ===== src/Quests/Registers/Bounded.antt =====
-- The quest stack in `handle_sync_reg` of src/subcmd.c stays inside its array.
use ship_server.Base.{
  ℕ, ◌+◌, ◌%◌, ◌≤◌, ◌≡◌, inl, inr, Bool, true, false, not, ◌&&◌, List, Option, none, some, ltb, leb,
  ◌==◌, if◌then◌else◌, set, length, length-set, ℤ, u32, arith, Bool-cases,
}
use ship_server.Quests.Functions.{Effect, Called, arg, not_yet}
use ship_server.Quests.Calls.{Env, quest_function_dispatch}
use ship_server.Quests.Registers.{
  Asker, Quest, max_qstack, called, push, special, written, handle_sync_reg, quest_flag_reply,
}

-- `q_stack_top` is at most 32, and the array has 32 words.
abbrev pub IsBounded : Asker → Type 0
IsBounded a = (a.top ≤ max_qstack) × (length a.stack ≡ max_qstack)

called-IsBounded : (reg : ℕ) (a : Asker) (d : Called) → IsBounded a → IsBounded (called reg a d).0
unfolding called
called-IsBounded reg a d b = elim (Bool-cases (d.code == not_yet)) [
  | inl e ↦ rw e b
  | inr e ↦ rw e (omega arith, b.1)
]

-- What a test between two results keeps.
if-keeps {ℓ} :
    {A : Type ℓ} (P : A → Type 0) (t : Bool) (x y : A) → P x → P y → P (if t then x else y)
if-keeps P true x y h k = h
if-keeps P false x y h k = k

push-IsBounded :
    (env : Env) (reg : ℕ) (a : Asker) (val : ℕ) → IsBounded a → IsBounded (push env reg a val).0
unfolding push
push-IsBounded env reg a val b =
    let a' = record a { stack = set a.stack a.top val; top = a.top + 1 } in
    let keeps : Asker × List Effect → Type 0 = λ r. IsBounded r.0 in
    elim (Bool-cases (ltb a.top max_qstack)) [
      | inl room ↦
          let b' : IsBounded a' = (ground arith, omega (arith, length-set a.stack a.top val)) in
          rw room (
            if-keeps keeps a.locked _ _ b (
              if-keeps keeps (leb 3 a'.top && a'.top == (3 + arg a'.stack 1 + arg a'.stack 2) % u32)
                _ _ (called-IsBounded reg a' (quest_function_dispatch env a.team a'.stack) b') b'))
      | inr full ↦ rw full (if-keeps keeps (a.top == max_qstack) _ _ b b)
    ]

-- The client after a write that a special register took.
abbrev Takes : Option (Asker × List Effect) → Type 0
Takes none = Unit
Takes (some r) = IsBounded r.0

written-IsBounded :
    (regvals : List ℕ) (a : Asker) (reg val : ℕ) (o : Option (Asker × List Effect))
    → IsBounded a
    → Takes o
    → IsBounded (written regvals a reg val o).asker
unfolding written
written-IsBounded regvals a reg val none b t = b
written-IsBounded regvals a reg val (some r) b t = t

special-Takes :
    (env : Env) (scripted : Bool) (q : Quest) (a : Asker) (reg val : ℕ)
    → IsBounded a
    → Takes (special env scripted q a reg val)
unfolding special
special-Takes env scripted q a reg val b = if-keeps Takes scripted _ _ b (
    if-keeps Takes (q.has_short && reg == q.short_reg) _ _ b (
      if-keeps Takes (q.has_data && reg == q.data_reg) _ _ (push-IsBounded env reg a val b)
        (if-keeps Takes (q.has_data && reg == q.ctl_reg) _ _ (omega arith, b.1) tt)))

-- Writing any value to any register, whether or not a script or the quest handles it, keeps the
-- quest stack inside its array of 32 words, whatever the functions that it calls answer; and so
-- does a reply of the shipgate.
pub handle_sync_reg-IsBounded :
    (env : Env) (scripted : Bool) (q : Quest) (a : Asker) (regvals : List ℕ) (reg val : ℕ)
    (is_set is_error : Bool)
    → IsBounded a
    → IsBounded (handle_sync_reg env scripted q a regvals reg val).asker
      × IsBounded (quest_flag_reply q a is_set is_error val).1
unfolding handle_sync_reg quest_flag_reply
handle_sync_reg-IsBounded env scripted q a regvals reg val is_set is_error b =
    let keeps : ℤ × Asker × List Effect → Type 0 = λ r. IsBounded r.1 in
    (
      written-IsBounded _ a reg val (special env scripted q a reg val) b
          (special-Takes env scripted q a reg val b),
      if-keeps keeps (not a.locked) _ _ b (omega arith, b.1),
    )

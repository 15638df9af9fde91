-- ===== src/Quests/Registers.antt =====
-- src/subcmd.c: `handle_sync_reg`, by which a quest writes a register, and src/quest_functions.c:
-- `quest_flag_reply`, by which the shipgate answers.
pub mod Protocol
pub mod Bounded
mod Examples
use ship_server.Base.{
  ℕ, zero, suc, ◌+◌, ◌-◌, ◌*◌, ◌%◌, ◌/◌, Bool, true, false, not, ◌&&◌, ◌||◌, List, [], ◌∷◌, ◌++◌,
  Option, none, some, ltb, leb, ◌==◌, if◌then◌else◌, ℤ, pos, neg, get_or, set, length, find_index,
  has_flag, u8, u32,
}
use ship_server.Quests.Functions.{
  Team, Effect, sync, request, Called, arg, not_yet, no_error, delete_flag,
}
use ship_server.Quests.Calls.{Env, quest_function_dispatch}

-- CLIENT_MAX_QSTACK
abbrev pub max_qstack : ℕ
max_qstack = 32

abbrev stack_overflow : ℕ
stack_overflow = 0x8000FFFF

abbrev stack_locked : ℕ
stack_locked = 0x8000FFF9

abbrev illegal_ctl : ℕ
illegal_ctl = 0x8000FFFE

abbrev retval_error : ℕ
retval_error = 0x8000FFF7

-- A client and its team: `locked` is CLIENT_FLAG_QSTACK_LOCK.
pub record Asker : Type 0 where
  pub stack : List ℕ
  pub top : ℕ
  pub locked : Bool
  pub team : Team

-- The registers that the quest declared, with the three flags of `l->q_flags`.
pub record Quest : Type 0 where
  pub has_short : Bool
  pub has_data : Bool
  pub has_sync : Bool
  pub short_reg : ℕ
  pub data_reg : ℕ
  pub ctl_reg : ℕ
  pub syncregs : List ℕ

-- The packet is sent on when nothing has handled it.
pub data Sent : Type 0 where
  effect : Effect → Sent
  forwarded : ℕ → ℕ → Sent

-- What a write of a register leaves: the client, the values of the synced registers, what is sent.
pub record Written : Type 0 where
  pub asker : Asker
  pub regvals : List ℕ
  pub sent : List Sent

abbrev effects_of : List Effect → List Sent
effects_of [] = []
effects_of (e ∷ es) = effect e ∷ effects_of es

-- The word that sets a short flag: its control bits, and the request.
short_flag : ℕ → ℕ → List Effect
short_flag reg val =
    let ctl = (val / 0x20000000) % 8 in
    let id = (val / 0x10000) % 256 in
    if ltb 1 ctl
    then sync reg illegal_ctl ∷ []
    else if not ((val / 0x1000000) % 8 == 0) || has_flag val 0x10000000
    then sync reg illegal_ctl ∷ []
    else if has_flag val 0x08000000
    then request true id 0 delete_flag ∷ []
    else request (ctl % 2 == 1) id (val % 0x10000) 0 ∷ []

-- After the function was called.
pub called : ℕ → Asker → Called → Asker × List Effect
called reg a d =
    let a' = record a { locked = a.locked || d.locks; team = d.team } in
    if d.code == not_yet
    then (a', d.effects)
    else (record a' { top = 0 }, d.effects ++ (sync reg d.code ∷ []))

-- A write of the data register.
pub push : Env → ℕ → Asker → ℕ → Asker × List Effect
push env reg a val =
    let a' = record a { stack = set a.stack a.top val; top = a.top + 1 } in
    if ltb a.top max_qstack
    then (if a.locked
        then (a, sync reg stack_locked ∷ [])
        else if leb 3 a'.top && a'.top == (3 + arg a'.stack 1 + arg a'.stack 2) % u32
        then called reg a' (quest_function_dispatch env a.team a'.stack)
        else (a', []))
    else if a.top == max_qstack
    then (a, sync reg stack_overflow ∷ [])
    else (a, [])

-- `reg_sync_index`: the place of the register among the synced ones, or their number.
reg_sync_index : Quest → ℕ → ℕ
reg_sync_index q reg =
    if q.has_sync
    then find_index (λ r. r == reg) (length q.syncregs) q.syncregs
    else length q.syncregs

-- The writes that one of the quest's own registers takes; `none` for any other.
pub special : Env → Bool → Quest → Asker → ℕ → ℕ → Option (Asker × List Effect)
special env scripted q a reg val =
    if scripted
    then some (a, [])
    else if q.has_short && reg == q.short_reg
    then some (a, short_flag reg val)
    else if q.has_data && reg == q.data_reg
    then some (push env reg a val)
    else if q.has_data && reg == q.ctl_reg
    then some (record a { top = 0 }, [])
    else none

pub written : List ℕ → Asker → ℕ → ℕ → Option (Asker × List Effect) → Written
written regvals a reg val none = record {
  asker = a;
  regvals = regvals;
  sent = forwarded reg val ∷ [];
}
written regvals a reg val (some (a', es)) = record {
  asker = a';
  regvals = regvals;
  sent = effects_of es;
}

-- `scripted` says that a script has handled the write.
pub handle_sync_reg : Env → Bool → Quest → Asker → List ℕ → ℕ → ℕ → Written
handle_sync_reg env scripted q a regvals reg val =
    let i = reg_sync_index q reg in
    written (if i == length q.syncregs then regvals else set regvals i val) a reg val
      (special env scripted q a reg val)

-- `is_set` and `is_error` are QFLAG_REPLY_SET and QFLAG_REPLY_ERROR of the reason.
pub quest_flag_reply : Quest → Asker → Bool → Bool → ℕ → ℤ × Asker × List Effect
quest_flag_reply q a is_set is_error value =
    let reg = arg a.stack (if is_set then 5 else 4) % u8 in
    let value' = (if is_set && not is_error then 0 else value) in
    let result = (if is_error then retval_error else no_error) in
    if not a.locked then (neg 1, a, []) else (
      pos 0,
      record a { top = 0; locked = false },
      sync reg value' ∷ sync q.data_reg result ∷ [],
    )

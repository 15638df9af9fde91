-- ===== src/Quests/Functions.antt =====
-- src/quest_functions.c: the functions that a quest calls by writing words into a register. The
-- words are the caller's stack: the function's number, the counts of arguments and results, the
-- arguments, the registers for the results.
use ship_server.Base.{
  ℕ, ◌+◌, ◌-◌, ◌%◌, Bool, false, not, ◌||◌, List, [], ◌∷◌, ◌++◌, Option, none, some, ltb, leb, ◌==◌,
  if◌then◌else◌, get_or, set, replicate, u8, u32, u32_max,
}

-- What the functions read of a client of the team: the coordinates are those truncated to words.
pub record Member : Type 0 where
  pub section : ℕ
  pub ch_class : ℕ
  pub level : ℕ
  pub cur_area : ℕ
  pub x : ℕ
  pub y : ℕ
  pub z : ℕ

pub record Team : Type 0 where
  pub clients : List (Option Member)
  pub num_clients : ℕ
  pub rand_seed : ℕ
  pub qpos_regs : List (List ℕ)
  pub qcount_reg : List ℕ

-- A register that is written at the client, and a request to the shipgate: whether it sets, the
-- flag, the value and the control bits.
pub data Effect : Type 0 where
  sync : ℕ → ℕ → Effect
  request : Bool → ℕ → ℕ → ℕ → Effect

-- The code, whether CLIENT_FLAG_QSTACK_LOCK was set, the team, and the effects in order.
pub record Called : Type 0 where
  pub code : ℕ
  pub locks : Bool
  pub team : Team
  pub effects : List Effect

-- QUEST_FUNC_RET_*
abbrev pub no_error : ℕ
no_error = 0

abbrev pub invalid_func : ℕ
invalid_func = 0x8000FFFE

abbrev pub bad_arg_count : ℕ
bad_arg_count = 0x8000FFFD

abbrev pub bad_ret_count : ℕ
bad_ret_count = 0x8000FFFC

abbrev pub invalid_arg : ℕ
invalid_arg = 0x8000FFFB

abbrev pub invalid_register : ℕ
invalid_register = 0x8000FFFA

abbrev pub shipgate_err : ℕ
shipgate_err = 0x8000FFF8

abbrev pub not_yet : ℕ
not_yet = 0xDEADBEEF

-- QFLAG_LONG_FLAG and QFLAG_DELETE_FLAG
abbrev pub long_flag : ℕ
long_flag = 0x80000000

abbrev pub delete_flag : ℕ
delete_flag = 0x40000000

-- `c->q_stack[i]`
abbrev pub arg : List ℕ → ℕ → ℕ
arg s i = get_or s i 0

abbrev pub fails : ℕ → Team → Called
fails code t = record { code = code; locks = false; team = t; effects = [] }

abbrev pub answers : Team → List Effect → Called
answers t effects = record { code = no_error; locks = false; team = t; effects = effects }

-- Registers from `reg` on, each of 8 bits.
pub sync_from : ℕ → List ℕ → List Effect
sync_from reg [] = []
sync_from reg (v ∷ vs) = sync (reg % u8) v ∷ sync_from (reg + 1) vs

-- The values for a client of the team, -1 for each if there is none.
pub values_of : ℕ → (Member → List ℕ) → Option Member → List ℕ
values_of k values none = replicate k u32_max
values_of k values (some m) = values m

-- The functions that tell of one client or of four share this: `keep` notes a register.
unfoldable pub per_client : ℕ → (Member → List ℕ) → (ℕ → ℕ → Team → Team) → Team → List ℕ → Called
per_client k values keep t s =
    let tell : ℕ → ℕ → List Effect =
      λ cl reg. sync_from reg (values_of k values (get_or t.clients cl none)) in
    if not (arg s 1 == 1)
    then fails bad_arg_count t
    else if arg s 3 == u32_max
    then (if not (arg s 2 == 4)
        then fails bad_ret_count t
        else if ltb 255 (arg s 4) || ltb 255 (arg s 5) || ltb 255 (arg s 6) || ltb 255 (arg s 7)
        then fails invalid_register t
        else answers (keep 3 (arg s 7) (keep 2 (arg s 6) (keep 1 (arg s 5) (keep 0 (arg s 4) t))))
            (tell 0 (arg s 4) ++ (tell 1 (arg s 5) ++ (tell 2 (arg s 6) ++ tell 3 (arg s 7)))))
    else if ltb (arg s 3) 4
    then (if not (arg s 2 == 1)
        then fails bad_ret_count t
        else if ltb 255 (arg s 4)
        then fails invalid_register t
        else answers (keep (arg s 3) (arg s 4) t) (tell (arg s 3) (arg s 4)))
    else fails invalid_arg t

abbrev forget : ℕ → ℕ → Team → Team
forget cl reg t = t

unfoldable pub get_section_id : Team → List ℕ → Called
get_section_id = per_client 1 (λ m. m.section ∷ []) forget

unfoldable pub get_char_class : Team → List ℕ → Called
get_char_class = per_client 1 (λ m. m.ch_class ∷ []) forget

-- ATTR: the entry of a class, -1 for a class that there is not.
abbrev attr : List ℕ → ℕ → ℕ
attr table ch_class = if ltb ch_class 12 then get_or table ch_class 0 else u32_max

abbrev genders : List ℕ
genders = 0 ∷ 1 ∷ 0 ∷ 0 ∷ 0 ∷ 1 ∷ 1 ∷ 0 ∷ 1 ∷ 1 ∷ 0 ∷ 1 ∷ []

abbrev races : List ℕ
races = 0 ∷ 1 ∷ 2 ∷ 0 ∷ 2 ∷ 2 ∷ 0 ∷ 1 ∷ 1 ∷ 2 ∷ 0 ∷ 0 ∷ []

abbrev jobs : List ℕ
jobs = 0 ∷ 0 ∷ 0 ∷ 1 ∷ 1 ∷ 1 ∷ 2 ∷ 2 ∷ 2 ∷ 0 ∷ 2 ∷ 1 ∷ []

unfoldable pub get_char_gender : Team → List ℕ → Called
get_char_gender = per_client 1 (λ m. attr genders m.ch_class ∷ []) forget

unfoldable pub get_char_race : Team → List ℕ → Called
get_char_race = per_client 1 (λ m. attr races m.ch_class ∷ []) forget

unfoldable pub get_char_job : Team → List ℕ → Called
get_char_job = per_client 1 (λ m. attr jobs m.ch_class ∷ []) forget

unfoldable pub get_client_floor : Team → List ℕ → Called
get_client_floor = per_client 1 (λ m. m.cur_area ∷ []) forget

unfoldable pub get_client_position : Team → List ℕ → Called
get_client_position = per_client 3 (λ m. m.x ∷ m.y ∷ m.z ∷ []) forget

unfoldable pub get_level : Team → List ℕ → Called
get_level = per_client 1 (λ m. (m.level + 1) % u32 ∷ []) forget

-- `l->qpos_regs[cl][c->client_id] = reg`, a byte.
pub subscribe : ℕ → ℕ → ℕ → Team → Team
subscribe me cl reg t = record t {
  qpos_regs = set t.qpos_regs cl (set (get_or t.qpos_regs cl []) me (reg % u8));
}

unfoldable pub get_pos_updates : ℕ → Team → List ℕ → Called
get_pos_updates me = per_client 4 (λ m. m.x ∷ m.y ∷ m.z ∷ m.cur_area ∷ []) (subscribe me)

-- The functions of one result share this.
unfoldable pub one_value : ℕ → Team → List ℕ → Called
one_value value t s =
    if not (arg s 1 == 0)
    then fails bad_arg_count t
    else if not (arg s 2 == 1)
    then fails bad_ret_count t
    else if ltb 255 (arg s 3)
    then fails invalid_register t
    else answers t (sync (arg s 3) value ∷ [])

unfoldable pub get_client_count_updates : ℕ → Team → List ℕ → Called
get_client_count_updates me t s =
    let noted = record t { qcount_reg = set t.qcount_reg me (arg s 3) } in
    if not (arg s 1 == 0)
    then fails bad_arg_count t
    else if not (arg s 2 == 1)
    then fails bad_ret_count t
    else if ltb 255 (arg s 3)
    then fails invalid_register t
    else answers noted (sync (arg s 3) t.num_clients ∷ [])

-- `rnd` is what the generator gives.
unfoldable pub get_random_integer : ℕ → Team → List ℕ → Called
get_random_integer rnd t s =
    let lo = arg s 3 in
    let hi = arg s 4 in
    if not (arg s 1 == 2)
    then fails bad_arg_count t
    else if not (arg s 2 == 1)
    then fails bad_ret_count t
    else if ltb 255 (arg s 5)
    then fails invalid_register t
    else if leb hi lo
    then fails invalid_arg t
    else answers t (sync (arg s 5) ((rnd % (hi - lo + 1) + lo) % u32) ∷ [])

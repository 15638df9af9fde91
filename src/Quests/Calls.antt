-- ===== src/Quests/Calls.antt =====
-- src/quest_functions.c: the functions that ask the shipgate for flags or the censor for a word, the
-- ship's name, and `quest_function_dispatch` over all of them.
pub mod Pushed
pub mod Stale
mod Examples
use ship_server.Base.{
  ℕ, zero, suc, ◌+◌, ◌-◌, ◌*◌, ◌%◌, ◌/◌, Bool, true, false, not, ◌&&◌, ◌||◌, List, [], ◌∷◌, ◌++◌,
  Option, none, some, ltb, leb, ◌==◌, if◌then◌else◌, get_elem?, get_or, take, u8,
}
use ship_server.Quests.Functions.{
  Team, Effect, sync, request, Called, bad_arg_count, bad_ret_count, invalid_arg, invalid_register,
  invalid_func, shipgate_err, not_yet, long_flag, delete_flag, arg, fails, answers, sync_from,
  get_section_id, get_char_class, get_char_gender, get_char_race, get_char_job, get_client_floor,
  get_client_position, get_level, get_pos_updates, one_value, get_client_count_updates,
  get_random_integer,
}

-- What the functions take from outside: the time, a random number, the caller's place in the team,
-- the clients of ship and block, the ship's name, whether the shipgate cannot be asked, what the
-- censor and a script answer.
pub record Env : Type 0 where
  pub now : ℕ
  pub rnd : ℕ
  pub me : ℕ
  pub ship_clients : ℕ
  pub block_clients : ℕ
  pub name : List ℕ
  pub refuses : Effect → Bool
  pub censor : List ℕ → ℕ
  pub script : Team → List ℕ → Called

-- The request, after which the stack is locked until the shipgate replies.
pub ask : (Effect → Bool) → Effect → Team → Called
ask refuses r t =
    if refuses r
    then fails shipgate_err t
    else record { code = not_yet; locks = true; team = t; effects = r ∷ [] }

pub get_flag : ℕ → Env → Team → List ℕ → Called
get_flag ctl env t s =
    if not (arg s 1 == 1)
    then fails bad_arg_count t
    else if not (arg s 2 == 1)
    then fails bad_ret_count t
    else if ltb 255 (arg s 4)
    then fails invalid_register t
    else ask env.refuses (request false (arg s 3) 0 ctl) t

pub get_quest_sflag : Env → Team → List ℕ → Called
get_quest_sflag = get_flag 0

pub get_quest_lflag : Env → Team → List ℕ → Called
get_quest_lflag = get_flag long_flag

pub set_quest_sflag : Env → Team → List ℕ → Called
set_quest_sflag env t s =
    if not (arg s 1 == 2)
    then fails bad_arg_count t
    else if not (arg s 2 == 1)
    then fails bad_ret_count t
    else if ltb 0xFFFF (arg s 4)
    then fails invalid_arg t
    else if ltb 255 (arg s 5)
    then fails invalid_register t
    else ask env.refuses (request true (arg s 3) (arg s 4) 0) t

pub set_quest_lflag : Env → Team → List ℕ → Called
set_quest_lflag env t s =
    if not (arg s 1 == 2)
    then fails bad_arg_count t
    else if not (arg s 2 == 1)
    then fails bad_ret_count t
    else if ltb 255 (arg s 5)
    then fails invalid_register t
    else ask env.refuses (request true (arg s 3) (arg s 4) long_flag) t

pub del_flag : ℕ → Env → Team → List ℕ → Called
del_flag ctl env t s =
    if not (arg s 1 == 1)
    then fails bad_arg_count t
    else if not (arg s 2 == 1)
    then fails bad_ret_count t
    else if ltb 255 (arg s 3)
    then fails invalid_arg t
    else if ltb 255 (arg s 5)
    then fails invalid_register t
    else ask env.refuses (request true (arg s 3) (arg s 4) ctl) t

pub del_quest_sflag : Env → Team → List ℕ → Called
del_quest_sflag = del_flag delete_flag

pub del_quest_lflag : Env → Team → List ℕ → Called
del_quest_lflag = del_flag (long_flag + delete_flag)

-- `n` words of the stack from `i` on.
unfoldable pub words : List ℕ → ℕ → ℕ → List ℕ
words s i zero = []
words s i (suc n) = arg s i ∷ words s (i + 1) n

abbrev cons_char : ℕ → Option (List ℕ) → Option (List ℕ)
cons_char ch none = none
cons_char ch (some str) = some (ch ∷ str)

-- The string of ASCII words, or of the words 0 to 26 for the end and the letters; `none` for a word
-- that is neither.
pub ascii : List ℕ → Option (List ℕ)
ascii [] = some []
ascii (w ∷ ws) = let rest = ascii ws in if ltb 127 w then none else cons_char w rest

pub letters : List ℕ → Option (List ℕ)
letters [] = some []
letters (w ∷ ws) =
    let rest = letters ws in
    if ltb 26 w then none else if w == 0 then some [] else cons_char (w + 64) rest

censored : (List ℕ → ℕ) → Team → ℕ → Option (List ℕ) → Called
censored censor t reg none = fails invalid_arg t
censored censor t reg (some str) = answers t (sync reg (censor str) ∷ [])

pub word_censor_check : (List ℕ → Option (List ℕ)) → Env → Team → List ℕ → Called
word_censor_check read env t s =
    let n = arg s 1 in
    if ltb n 1 || ltb 24 n
    then fails bad_arg_count t
    else if not (arg s 2 == 1)
    then fails bad_ret_count t
    else if ltb 255 (arg s (n + 3))
    then fails invalid_register t
    else censored env.censor t (arg s (n + 3)) (read (words s 3 n))

-- `tmpname[i]`
abbrev name_byte : Env → ℕ → ℕ
name_byte env i = get_or (take 12 env.name) i 0

abbrev four_bytes : Env → ℕ → ℕ
four_bytes env i =
    name_byte env i
    + 256 * name_byte env (i + 1)
    + 65536 * name_byte env (i + 2)
    + 16777216 * name_byte env (i + 3)

abbrev two_bytes : Env → ℕ → ℕ
two_bytes env i = name_byte env i + 65536 * name_byte env (i + 1)

pub name_in : ℕ → List ℕ → Team → List ℕ → Called
name_in last values t s =
    if not (arg s 1 == 0)
    then fails bad_arg_count t
    else if not (arg s 2 == 1)
    then fails bad_ret_count t
    else if ltb last (arg s 3)
    then fails invalid_register t
    else answers t (sync_from (arg s 3) values)

pub get_ship_name : Env → Team → List ℕ → Called
get_ship_name env = name_in 253 (four_bytes env 0 ∷ four_bytes env 4 ∷ four_bytes env 8 ∷ [])

pub get_ship_name_utf16 : Env → Team → List ℕ → Called
get_ship_name_utf16 env = name_in 250 (
    two_bytes env 0
    ∷ two_bytes env 2
    ∷ two_bytes env 4
    ∷ two_bytes env 6
    ∷ two_bytes env 8
    ∷ two_bytes env 10
    ∷ [])

-- QUEST_FUNC_MAX and QUEST_SCRIPT_START
abbrev func_max : ℕ
func_max = 26

abbrev pub script_start : ℕ
script_start = 0x80000000

-- The functions in the order of their numbers, before and after the two that delete flags.
unfoldable pub first_functions : Env → List (Team → List ℕ → Called)
first_functions env =
    get_section_id
    ∷ one_value env.now
    ∷ (λ t. one_value t.num_clients t)
    ∷ get_char_class
    ∷ get_char_gender
    ∷ get_char_race
    ∷ get_char_job
    ∷ get_client_floor
    ∷ get_client_position
    ∷ get_random_integer env.rnd
    ∷ one_value env.ship_clients
    ∷ one_value env.block_clients
    ∷ get_quest_sflag env
    ∷ set_quest_sflag env
    ∷ get_quest_lflag env
    ∷ set_quest_lflag env
    ∷ []

pub last_functions : Env → List (Team → List ℕ → Called)
last_functions env =
    word_censor_check ascii env
    ∷ word_censor_check letters env
    ∷ (λ t. one_value t.rand_seed t)
    ∷ get_pos_updates env.me
    ∷ get_level
    ∷ get_ship_name env
    ∷ get_ship_name_utf16 env
    ∷ one_value func_max
    ∷ get_client_count_updates env.me
    ∷ []

unfoldable pub functions : Env → List (Team → List ℕ → Called)
functions env =
    first_functions env ++ (del_quest_sflag env ∷ del_quest_lflag env ∷ last_functions env)

unfoldable pub call : Option (Team → List ℕ → Called) → Team → List ℕ → Called
call none t s = fails invalid_func t
call (some function) t s = function t s

unfoldable pub quest_function_dispatch : Env → Team → List ℕ → Called
quest_function_dispatch env t s =
    if ltb script_start (arg s 0)
    then env.script t s
    else call (get_elem? (functions env) (arg s 0)) t s

-- ===== src/Quests/Registers/Examples.antt =====
-- A quest's call for a section id, word by word, and the theorems on the stack.
use ship_server.Base.{ℕ, ◌≢◌, refl, true, false, List, [], ◌∷◌, replicate, arith}
use ship_server.Quests.Sample.{team, server}
use ship_server.Quests.Functions.{arg, not_yet, get_section_id, per_client}
use ship_server.Quests.Calls.{quest_function_dispatch, functions, first_functions, call}
use ship_server.Quests.Registers.{Asker, Quest, handle_sync_reg, quest_flag_reply}
use ship_server.Quests.Registers.Bounded.{IsBounded, handle_sync_reg-IsBounded}
use ship_server.Quests.Registers.Protocol.{feed, IsAnswered, feed-call}

abbrev asker : Asker
asker = record { stack = replicate 32 9; top = 0; locked = false; team = team }

abbrev quest : Quest
quest = record {
  has_short = false;
  has_data = true;
  has_sync = false;
  short_reg = 0;
  data_reg = 100;
  ctl_reg = 101;
  syncregs = [];
}

-- The section id of client 2, in register 50.
abbrev section_call : List ℕ
section_call = 0 ∷ 1 ∷ 1 ∷ 2 ∷ 50 ∷ []

not_16 : arg section_call 0 ≢ 16
not_16 = λ q. absurd (omega arith)

not_17 : arg section_call 0 ≢ 17
not_17 = λ q. absurd (omega arith)

is_ready : (quest_function_dispatch server team section_call).code ≢ not_yet
unfolding quest_function_dispatch functions first_functions call get_section_id per_client
is_ready = λ q. absurd (omega arith)

feed-call_example :
    IsAnswered 100
      (quest_function_dispatch server team section_call)
      (feed server 100 section_call asker)
feed-call_example =
    feed-call server 100 section_call asker refl (omega arith) refl refl refl (omega arith) not_16
      not_17 is_ready

asker-IsBounded : IsBounded asker
asker-IsBounded = (omega arith, refl)

handle_sync_reg-IsBounded_example :
    IsBounded (handle_sync_reg server false quest asker [] 100 5).asker
    × IsBounded (quest_flag_reply quest asker true false 5).1
handle_sync_reg-IsBounded_example =
    handle_sync_reg-IsBounded server false quest asker [] 100 5 true false asker-IsBounded

-- ===== src/Quests.antt =====
-- src/quest_functions.c and the register handler of src/subcmd.c: what a quest asks of the server.
pub mod Functions
pub mod Calls
pub mod Registers
pub mod Sample

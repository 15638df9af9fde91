-- ===== src/Lib.antt =====
-- A model of the core of ship_server, a ship server of Phantasy Star Online: what it does to
-- inventories and banks, to its lists of bans, to its lobbies and teams, to the bytes that clients
-- send, to experience and levels, and to the calls of quests. Paths are from the
-- root of the repository.
--
-- The parts. A ship (src/ship.c) runs blocks (src/block.c), each with a thread, a list of clients
-- and a list of lobbies. A client's packets reach handlers in src/block.c and src/subcmd.c, which
-- call src/lobby.c to move clients between lobbies and to queue packets while a player bursts, and
-- src/items.c to change inventories and banks. src/bans.c keeps the ship's bans, which logins ask.
--
-- The files:
--   Base and its children: tests, lists over the native numbers, words, flags, return codes.
--   Items: `item_t` and stacks. Items/Inventory: `item_remove_from_inv` and `item_add_to_inv` of
--     src/items.c; Spec is the list view that Refine relates them to, Distinct and Valid the ids,
--     Units what the items add up to, Roundtrip one after the other.
--   Items/Bank: `item_deposit_to_bank`, `item_take_from_bank` and `cleanup_bb_bank` of
--     src/items.c; Units, Deposits and Ids prove.
--   Bans: the lists of src/bans.c, with `ban_guildcard`, `ban_ip`, the lifts, `ban_sweep` and the
--     questions; Guildcards, Addresses and Sweep prove.
--   Lobby: the records of src/lobby.h and src/clients.h. Lobby/Slots: `lobby_add_client_locked`,
--     `lobby_remove_client_locked`, the elections and the challenge level of src/lobby.c;
--     Candidates, Election, Count, Join, Leave and Leaderless prove. Lobby/Move:
--     `lobby_add_to_any`, `lobby_change_lobby`, `lobby_remove_player`; Enter, Seats,
--     Swap, Change and Gone prove. Lobby/Queue: the packets that wait for a burst; Order and Resend
--     prove. Lobby/Floor: the items of a Blue Burst team; Laws proves. Lobby/Legit: the legit
--     checks. Lobby/Send: `lobby_send_pkt_*` of src/lobby.c and `subcmd_send_lobby_*` of
--     src/subcmd.c and src/subcmd-dcnte.c; Reach proves.
--   Clients/Receive: `client_process_pkt` of src/clients.c; Keeps is the rule for its loop, Fuel
--     says what fuel is enough, Chunks relates one call to several, Stream the packets sent to
--     those handled, Bounds the loop's end, its buffer and its crash. Clients/Levels:
--     `client_give_exp`, `client_give_level` and `client_give_level_v2`; Ups and Gifts prove.
--   Subcmd: the handler `handle_bb_bank_action` of src/subcmd.c; Meseta, Valid, Units and Deposits
--     prove. Subcmd/Enemies: `handle_bb_mhit` and `handle_bb_req_exp`; Bits has the bits of a hit,
--     Awards and Claims follow any sequence of calls, Overrun has the test of the number.
--     Subcmd/Floor: `handle_bb_drop_item`, `handle_bb_drop_pos`, `handle_bb_drop_stack` and
--     `handle_bb_pick_up`; Pick and Drop prove. Subcmd/Wear: `handle_bb_equip`,
--     `handle_bb_unequip`, `handle_bb_sort_inv` and `handle_bb_medic`; Sort and Flags prove.
--   Quests/Functions and Quests/Calls: the functions of src/quest_functions.c and their dispatch;
--     Pushed and Stale tell which words of the stack they look at. Quests/Registers:
--     `handle_sync_reg` of src/subcmd.c, by which a quest calls them, and `quest_flag_reply`;
--     Protocol follows a call word by word, Bounded has the stack's size.
--   Examples modules hold tests and the theorems at concrete data; the Sample modules
--     are their data.
--
-- State. An array is a list and a count of entries in use, a pointer to a client or a lobby is a
-- number, with the records it points to in a function, NULL is `none`. An operation takes the
-- state and returns it with the C function's return code; a list entry that the code would free
-- twice is a result of its own, and what a read of freed memory gives is an argument. Time, success of an allocation or of a file write, and what a
-- handler or sender outside the model answers are arguments. What the code sends or hands to a
-- script is a list of messages in order.
--
-- Bounds. Bytes and words wrap where the code's do: stacks at 2^8, identifiers at 2^32. Arrays
-- have the sizes of the source: 30 items in an inventory, 200 in a bank, 12 slots in a lobby. Most
-- loops are structural recursion on a list or a count. The loop that receives packets has fuel, one
-- more than the bytes at hand, and the loop of `client_give_exp` has 200; both are shown to be
-- enough.
--
-- Not modelled: sockets, encryption, threads and locks (the model's calls are the code's critical
-- sections), the formatting of packets (src/ship_packets.c), files and XML, Lua scripts, the
-- shipgate (src/shipgate.c), quest files, maps and drop tables, chat commands, the other handlers of
-- src/subcmd.c, and the rest of src/clients.c.
pub mod Base
pub mod Items
pub mod Bans
pub mod Lobby
pub mod Clients
pub mod Quests
pub mod Subcmd

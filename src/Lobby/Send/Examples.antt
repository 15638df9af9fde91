-- ===== src/Lobby/Send/Examples.antt =====
-- The senders at a lobby of four: one of the network trial edition, and one who ignores the sender.
use ship_server.Base.{
  ℕ, ◌≡◌, refl, true, List, [], ◌∷◌, map, Option, none, some, replicate, ◌==◌, find_index,
  if◌then◌else◌,
}
use ship_server.Lobby.Send.{
  Peer, client_has_ignored, is_nte, is_ignored, is_sender, send_one, to_others, by_sender,
  lobby_send_pkt_dcnte, subcmd_send_lobby_dc, subcmd_send_lobby_bb,
}
use ship_server.Lobby.Send.Sent.{dc_form, dc_to_nte}
use ship_server.Lobby.Send.Reach.{members, keep, receiver, wants}

abbrev peer : ℕ → ℕ → ℕ → ℕ → Peer
peer version flags gcn ignored = record {
  version = version;
  flags = flags;
  guildcard = gcn;
  ignore_list = ignored ∷ replicate 9 0;
  blacklist = replicate 30 0;
}

abbrev peers : ℕ → Peer
peers r =
    if r == 10
    then peer 1 0 42 0
    else if r == 11
    then peer 0 0x10000 43 0
    else if r == 12
    then peer 3 0 44 42
    else peer 2 0 45 0

abbrev seats : List (Option ℕ)
seats = some 10 ∷ some 11 ∷ none ∷ some 12 ∷ some 13 ∷ replicate 7 none

abbrev pkt : List ℕ
pkt = 0x60 ∷ []

-- Client 12 ignores the sender, client 11 gets a translation.
test_send :
    subcmd_send_lobby_dc peers 12 seats (some 10) pkt true
    ≡ some (dc_to_nte 11 pkt ∷ dc_form 13 pkt ∷ [])
unfolding subcmd_send_lobby_dc to_others send_one is_ignored is_sender is_nte client_has_ignored
    find_index
test_send = refl

abbrev first : List ℕ
first = 1 ∷ []

abbrev second : List ℕ
second = 2 ∷ []

-- A sender of version 2 makes `lobby_send_pkt_dcnte` send h2 to client 11 too.
test_by_sender :
    lobby_send_pkt_dcnte peers 12 seats (some 10) first second true
    ≡ some (dc_form 11 second ∷ dc_form 13 second ∷ [])
unfolding lobby_send_pkt_dcnte to_others send_one is_ignored is_sender is_nte client_has_ignored
    find_index by_sender
test_by_sender = refl

-- These are the clients who should be sent it.
test_wants : keep (wants peers 10 true) (members 12 seats) ≡ 11 ∷ 13 ∷ []
unfolding keep wants members client_has_ignored find_index
test_wants = refl

test_receiver : map receiver (dc_to_nte 11 pkt ∷ dc_form 13 pkt ∷ []) ≡ 11 ∷ 13 ∷ []
unfolding receiver
test_receiver = refl

-- Nobody is the sender where that is NULL, and its guildcard is read.
test_null : subcmd_send_lobby_bb peers 12 seats none pkt true ≡ none
unfolding subcmd_send_lobby_bb to_others send_one is_ignored is_sender
test_null = refl

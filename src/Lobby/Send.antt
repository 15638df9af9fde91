-- ===== src/Lobby/Send.antt =====
-- The packets that go to everyone in a lobby: `lobby_send_pkt_*` of src/lobby.c, `subcmd_send_lobby_*`
-- of src/subcmd.c and src/subcmd-dcnte.c, and the lists of src/clients.c of the clients that
-- someone does not want to hear. All of them return 0; what is sent is a list in order, or `none`
-- where the code reads a sender that is NULL. Numbers are in the host's byte order.
pub mod Reach
mod Examples
use ship_server.Base.{
  ℕ, zero, suc, Bool, true, false, ◌&&◌, not, List, [], ◌∷◌, Option, none, some, ltb, ◌==◌,
  if◌then◌else◌, has_flag, find_index,
}
use ship_server.Lobby.{dcv1, pc, ep3, gc}

-- What the senders use of a client.
pub record Peer : Type 0 where
  pub version : ℕ
  pub flags : ℕ
  pub guildcard : ℕ
  pub ignore_list : List ℕ
  pub blacklist : List ℕ

-- The form in which a packet goes to a client: by send_pkt_dc or send_pkt_bb, or by one of the
-- translations between the network trial edition and the other versions, which may drop it, or as
-- the hit of a monster with its flags swapped.
pub data Sent (P : Type 0) : Type 0 where
  dc_form bb_form nte_to_dc dc_to_nte bb_to_nte swapped : ℕ → P → Sent P

pub client_has_ignored : Peer → ℕ → Bool
client_has_ignored c gcn = ltb (find_index (λ g. g == gcn) 10 c.ignore_list) 10

client_has_blacklisted : Peer → ℕ → Bool
client_has_blacklisted c gcn =
    if ltb c.version pc then false else ltb (find_index (λ g. g == gcn) 30 c.blacklist) 30

-- CLIENT_FLAG_IS_NTE on a client of version 1.
pub is_nte : Peer → Bool
is_nte c = c.version == dcv1 && has_flag c.flags 0x10000

-- `igcheck && client_has_ignored(l->clients[i], c->guildcard)`
pub is_ignored : (ℕ → Peer) → Option ℕ → Bool → ℕ → Option Bool
is_ignored peers c false r = some false
is_ignored peers none true r = none
is_ignored peers (some s) true r = some (client_has_ignored (peers r) (peers s).guildcard)

-- `l->clients[i] == c`
pub is_sender : Option ℕ → ℕ → Bool
is_sender none r = false
is_sender (some s) r = s == r

module _ {P : Type 0} where
  pub send_one : Option Bool → Option (Sent P) → Option (List (Sent P)) → Option (List (Sent P))
  send_one none o rest = none
  send_one (some true) o rest = rest
  send_one (some false) none rest = none
  send_one (some false) (some o) none = none
  send_one (some false) (some o) (some os) = some (o ∷ os)

  -- The loop over the first n slots.
  pub to_others :
      (ℕ → Option Bool)
      → (ℕ → Option (Sent P))
      → Option ℕ
      → ℕ
      → List (Option ℕ)
      → Option (List (Sent P))
  to_others ign send c zero slots = some []
  to_others ign send c (suc n) [] = some []
  to_others ign send c (suc n) (none ∷ slots) = to_others ign send c n slots
  to_others ign send c (suc n) (some r ∷ slots) =
      let rest = to_others ign send c n slots in
      if is_sender c r then rest else send_one (ign r) (send r) rest

module _ {P : Type 0} (peers : ℕ → Peer) (max_clients : ℕ) (clients : List (Option ℕ))
    (c : Option ℕ) where
  -- `h` for the network trial edition, `h2` for the others: the test is on the sender.
  by_sender : P → P → Option ℕ → ℕ → Option (Sent P)
  by_sender h h2 none r = none
  by_sender h h2 (some s) r = some (dc_form r (if is_nte (peers s) then h else h2))

  lobby_send_pkt_dcnte : P → P → Bool → Option (List (Sent P))
  lobby_send_pkt_dcnte h h2 igcheck =
      to_others (is_ignored peers c igcheck) (by_sender h h2 c) c max_clients clients

  lobby_send_pkt_dc : P → Bool → Option (List (Sent P))
  lobby_send_pkt_dc h igcheck =
      to_others (is_ignored peers c igcheck) (λ r. some (dc_form r h)) c max_clients clients

  lobby_send_pkt_bb : P → Bool → Option (List (Sent P))
  lobby_send_pkt_bb h igcheck =
      to_others (is_ignored peers c igcheck) (λ r. some (bb_form r h)) c max_clients clients

  -- The test is on the lobby's version.
  lobby_send_pkt_ep3 : ℕ → P → Option (List (Sent P))
  lobby_send_pkt_ep3 version h =
      to_others (λ r. some (not (version == ep3))) (λ r. some (dc_form r h)) c max_clients clients

  pub subcmd_send_lobby_dcnte : P → Bool → Option (List (Sent P))
  subcmd_send_lobby_dcnte pkt igcheck =
      to_others (is_ignored peers c igcheck)
        (λ r. some (if is_nte (peers r) then dc_form r pkt else nte_to_dc r pkt)) c max_clients
        clients

  pub subcmd_send_lobby_dc : P → Bool → Option (List (Sent P))
  subcmd_send_lobby_dc pkt igcheck =
      to_others (is_ignored peers c igcheck)
        (λ r. some (if not (is_nte (peers r)) then dc_form r pkt else dc_to_nte r pkt)) c
        max_clients clients

  pub subcmd_send_lobby_bb : P → Bool → Option (List (Sent P))
  subcmd_send_lobby_bb pkt igcheck =
      to_others (is_ignored peers c igcheck)
        (λ r. some (if not (is_nte (peers r)) then bb_form r pkt else bb_to_nte r pkt)) c
        max_clients clients

  -- send_mhit_gc swaps the flags of the packet.
  subcmd_send_lobby_mhit : P → Option (List (Sent P))
  subcmd_send_lobby_mhit pkt =
      to_others (λ r. some false)
        (λ r. some (if (peers r).version == gc then swapped r pkt else dc_form r pkt)) c max_clients
        clients

-- ===== src/Lobby/Queue/Examples.antt =====
-- The theorems on the packet queue at two packets.
use ship_server.Base.{ℤ, ℕ, ◌≡◌, refl, Bool, true, false, List, [], ◌∷◌, ◌==◌, pos, All}
use ship_server.Lobby.{Packet, Lobby}
use ship_server.Lobby.Flag
use ship_server.Lobby.Sample.{team}
use ship_server.Lobby.Queue.{command0, command2, is_known, fails, lobby_handle_done_burst}
use ship_server.Lobby.Queue.Order.{
  due, with_values, IsDone, enqueue_all, lobby_handle_done_burst-fifo,
}

abbrev packet : ℕ → ℕ → Packet
packet src type = record { src = src; pkt_type = type; bytes = src ∷ [] }

abbrev bursting_team : List Packet → Lobby
bursting_team q = record team { flags = Flag.bursting; pkt_queue = q }

abbrev first_packet : Packet
first_packet = packet 10 command0

abbrev second_packet : Packet
second_packet = packet 11 command2

-- A handler that never fails, and one that fails on packets of sender 11.
abbrev works : Packet → Bool
works p = false

abbrev fails_on_11 : Packet → Bool
fails_on_11 p = p.src == 11

both_known : All (λ p. is_known p ≡ true) (first_packet ∷ second_packet ∷ [])
both_known = (refl, (refl, tt))

both_work : All (λ p. fails works works p ≡ false) (first_packet ∷ second_packet ∷ [])
unfolding fails
both_work = (refl, (refl, tt))

-- Registers 7 and 9 have values; sending 9 fails.
abbrev synced_team : Lobby
synced_team = record (bursting_team []) {
  q_flags = Flag.q_sync_regs;
  syncregs = 7 ∷ 8 ∷ 9 ∷ 10 ∷ [];
  regvals = 1 ∷ 0 ∷ 5 ∷ 6 ∷ [];
}

abbrev fails_on_9 : ℕ → ℕ → Bool
fails_on_9 r v = r == 9

test_due : due synced_team true ≡ (7, 1) ∷ (9, 5) ∷ (10, 6) ∷ []
unfolding with_values
test_due = refl

lobby_handle_done_burst-fifo_example :
    let l' = enqueue_all synced_team (first_packet ∷ second_packet ∷ []) in
    IsDone fails_on_9
      (first_packet ∷ second_packet ∷ [])
      (due l' true)
      (lobby_handle_done_burst works works fails_on_9 l' true)
lobby_handle_done_burst-fifo_example =
    lobby_handle_done_burst-fifo fails_on_9 works works synced_team
      (first_packet ∷ second_packet ∷ []) true refl refl both_known both_work

first_works : fails works fails_on_11 first_packet ≡ false
unfolding fails
first_works = refl

second_fails : fails works fails_on_11 second_packet ≡ true
unfolding fails
second_fails = refl

-- Sending succeeds.
abbrev sent_well : Packet → ℤ
sent_well p = pos 0

-- ===== src/Lobby/Queue.antt =====
-- src/lobby.c: the packets that wait while a player bursts. The handlers of src/subcmd.c and the
-- senders are functions that say whether they fail, and are taken to leave the lobby's queues and
-- registers alone; what they handled or sent is a list.
pub mod Order
pub mod Resend
mod Examples
use ship_server.Base.{
  ℕ, zero, ◌+◌, Bool, true, false, ◌&&◌, ◌||◌, not, List, [], ◌∷◌, ◌++◌, Option, none, some, ◌==◌,
  if◌then◌else◌, ℤ, pos, neg, has_flag, is_zero,
}
use ship_server.Lobby.{Packet, Lobby}
use ship_server.Lobby.Flag

-- GAME_COMMAND0_TYPE, GAME_COMMAND2_TYPE, GAME_COMMANDD_TYPE
abbrev pub command0 : ℕ
command0 = 0x60

abbrev pub command2 : ℕ
command2 = 0x62

abbrev pub command_d : ℕ
command_d = 0x6D

-- The types that may be queued.
abbrev pub is_known : Packet → Bool
is_known p = p.pkt_type == command0 || p.pkt_type == command2 || p.pkt_type == command_d

-- `alloc` says whether both allocations succeed, `to_burst` is q.
pub lobby_enqueue_pkt_ex : Bool → Lobby → Packet → Bool → ℤ × Lobby
lobby_enqueue_pkt_ex alloc l p to_burst =
    if not (has_flag l.flags Flag.bursting)
    then (neg 1, l)
    else if not (is_known p)
    then (neg 2, l)
    else if not alloc
    then (neg 3, l)
    else if to_burst
    then (pos 0, record l { burst_queue = l.burst_queue ++ (p ∷ []) })
    else (pos 0, record l { pkt_queue = l.pkt_queue ++ (p ∷ []) })

pub lobby_enqueue_pkt : Bool → Lobby → Packet → ℤ × Lobby
unfolding lobby_enqueue_pkt_ex
lobby_enqueue_pkt alloc l p = lobby_enqueue_pkt_ex alloc l p false

pub lobby_enqueue_burst : Bool → Lobby → Packet → ℤ × Lobby
unfolding lobby_enqueue_pkt_ex
lobby_enqueue_burst alloc l p = lobby_enqueue_pkt_ex alloc l p true

-- Whether the switch of the loop fails: `bcast` and `one` are subcmd_handle_bcast and
-- subcmd_handle_one, which are true where the C function is not 0.
pub fails : (Packet → Bool) → (Packet → Bool) → Packet → Bool
fails bcast one p =
    if p.pkt_type == command0
    then bcast p
    else if p.pkt_type == command2 || p.pkt_type == command_d
    then one p
    else true

-- The loop: whether it failed, and the packets that were handed on. After a failure the rest is
-- only freed.
pub drain : (Packet → Bool) → Bool → List Packet → Bool × List Packet
drain failing failed [] = (failed, [])
drain failing failed (p ∷ q) =
    let (end, rest) = drain failing (failed || failing p) q in
    (end, if failed || not (is_known p) then rest else p ∷ rest)

-- The loop over the synchronised registers: whether one failed, and what was sent.
sync_regs : (ℕ → ℕ → Bool) → List ℕ → List ℕ → Bool × List (ℕ × ℕ)
sync_regs send_fails [] vals = (false, [])
sync_regs send_fails (r ∷ rs) [] = (false, [])
sync_regs send_fails (r ∷ rs) (v ∷ vs) =
    let rest = sync_regs send_fails rs vs in
    if v == 0
    then rest
    else if send_fails r v
    then (true, (r, v) ∷ [])
    else (rest.0, (r, v) ∷ rest.1)

-- What `lobby_handle_done_burst` does: its return value, the packets handled, the registers sent,
-- and the lobby with its queue empty. `syncs` says whether it is given a client.
pub record Burst : Type 0 where
  pub rv : ℤ
  pub handled : List Packet
  pub synced : List (ℕ × ℕ)
  pub lobby : Lobby

unfoldable pub lobby_handle_done_burst :
    (Packet → Bool) → (Packet → Bool) → (ℕ → ℕ → Bool) → Lobby → Bool → Burst
unfolding fails drain sync_regs
lobby_handle_done_burst bcast one send_fails l syncs =
    let (failed, handled) = drain (fails bcast one) false l.pkt_queue in
    let (bad, synced) =
      (if syncs && has_flag l.q_flags Flag.q_sync_regs
        then sync_regs send_fails l.syncregs l.regvals
        else (false, [])) in
    record {
      rv = if failed || bad then neg 1 else pos 0;
      handled = handled;
      synced = synced;
      lobby = record l { pkt_queue = [] };
    }

-- `lobby_resend_burst`: `send` is send_pkt_dc to the client that has arrived.
pub resend : (Packet → ℤ) → ℤ → List Packet → ℤ × List Packet
resend send rv [] = (rv, [])
resend send rv (p ∷ q) =
    let rv' = (if p.pkt_type == command2 || p.pkt_type == command_d then send p else neg 1) in
    let (end, rest) = resend send (if is_zero rv then rv' else rv) q in
    (
      end,
      if is_zero rv && (p.pkt_type == command2 || p.pkt_type == command_d) then p ∷ rest else rest,
    )

pub lobby_resend_burst : (Packet → ℤ) → Lobby → ℤ × List Packet × Lobby
unfolding resend
lobby_resend_burst send l =
    let (rv, sent) = resend send (pos 0) l.burst_queue in (rv, sent, record l { burst_queue = [] })

-- ===== src/Lobby/Queue/Resend.antt =====
-- Packets for a player that bursts come out of the burst queue as they went in.
use ship_server.Base.{
  ◌≡◌, refl, sym, ap, ◌∙◌, Bool, true, ◌||◌, List, [], ◌∷◌, ◌++◌, ◌==◌, ℤ, pos, has_flag,
  append-nil, append_assoc, All, arith,
}
use ship_server.Lobby.{Packet, Lobby}
use ship_server.Lobby.Flag
use ship_server.Lobby.Queue.{
  command2, command_d, lobby_enqueue_burst, lobby_enqueue_pkt_ex, resend, lobby_resend_burst,
}

-- The types that are sent to one client.
abbrev is_direct : Packet → Bool
is_direct p = p.pkt_type == command2 || p.pkt_type == command_d

enqueue_bursts : Lobby → List Packet → Lobby
enqueue_bursts l [] = l
enqueue_bursts l (p ∷ ps) = enqueue_bursts (lobby_enqueue_burst true l p).1 ps

enqueue_one :
    (l : Lobby) (p : Packet)
    → has_flag l.flags Flag.bursting ≡ true
    → is_direct p ≡ true
    → (lobby_enqueue_burst true l p).1 ≡ record l { burst_queue = l.burst_queue ++ (p ∷ []) }
unfolding lobby_enqueue_burst lobby_enqueue_pkt_ex
enqueue_one l p b k = rw b (ground arith)

enqueue_bursts-queue :
    (l : Lobby) (ps : List Packet)
    → has_flag l.flags Flag.bursting ≡ true
    → All (λ p. is_direct p ≡ true) ps
    → (enqueue_bursts l ps).burst_queue ≡ l.burst_queue ++ ps
unfolding enqueue_bursts
enqueue_bursts-queue l [] b k = sym (append-nil l.burst_queue)
enqueue_bursts-queue l (p ∷ ps) b k =
    ap (λ (x : Lobby). (enqueue_bursts x ps).burst_queue) (enqueue_one l p b k.0)
    ∙ enqueue_bursts-queue (record l { burst_queue = l.burst_queue ++ (p ∷ []) }) ps b k.1
    ∙ append_assoc l.burst_queue (p ∷ []) ps

resend-ok :
    (send : Packet → ℤ) (q : List Packet)
    → All (λ p. is_direct p ≡ true) q
    → All (λ p. send p ≡ pos 0) q
    → resend send (pos 0) q ≡ (pos 0, q)
unfolding resend
resend-ok send [] k h = refl
resend-ok send (p ∷ q) k h = rw (k.0, h.0) (rw (resend-ok send q k.1 h.1) refl)

-- The packets of the types for one client that `lobby_enqueue_burst` keeps while that client
-- bursts, if none waited before, are sent once each and in order by `lobby_resend_burst`, if no
-- sending fails; the queue is then empty and the answer 0.
lobby_resend_burst-fifo :
    (send : Packet → ℤ) (l : Lobby) (ps : List Packet)
    → l.burst_queue ≡ []
    → has_flag l.flags Flag.bursting ≡ true
    → All (λ p. is_direct p ≡ true) ps
    → All (λ p. send p ≡ pos 0) ps
    → let (rv, sent, l') = lobby_resend_burst send (enqueue_bursts l ps) in
      (rv ≡ pos 0) × (sent ≡ ps) × (l'.burst_queue ≡ [])
unfolding lobby_resend_burst
lobby_resend_burst-fifo send l ps empty b k h =
    rw (enqueue_bursts-queue l ps b k, empty, resend-ok send ps k h) (refl, refl, refl)

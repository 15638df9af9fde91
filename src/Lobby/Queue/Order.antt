-- ===== src/Lobby/Queue/Order.antt =====
-- Packets come out of the queue as they went in.
use ship_server.Base.{
  ℕ, ◌≡◌, ◌⊎◌, inl, inr, refl, sym, ap, ◌∙◌, Bool, true, false, ◌&&◌, List, [], ◌∷◌, ◌++◌, ◌==◌,
  if◌then◌else◌, pos, neg, has_flag, append-nil, append_assoc, All, Bool-cases,
}
use ship_server.Lobby.{Packet, Lobby}
use ship_server.Lobby.Flag
use ship_server.Lobby.Queue.{
  is_known, lobby_enqueue_pkt, fails, drain, sync_regs, Burst, lobby_handle_done_burst,
}

-- Queueing several packets, one after another.
pub enqueue_all : Lobby → List Packet → Lobby
enqueue_all l [] = l
enqueue_all l (p ∷ ps) = enqueue_all (lobby_enqueue_pkt true l p).1 ps

enqueue_one :
    (l : Lobby) (p : Packet)
    → has_flag l.flags Flag.bursting ≡ true
    → is_known p ≡ true
    → (lobby_enqueue_pkt true l p).1 ≡ record l { pkt_queue = l.pkt_queue ++ (p ∷ []) }
unfolding lobby_enqueue_pkt
enqueue_one l p b k = rw (b, k) refl

enqueue_all-queue :
    (l : Lobby) (ps : List Packet)
    → has_flag l.flags Flag.bursting ≡ true
    → All (λ p. is_known p ≡ true) ps
    → (enqueue_all l ps).pkt_queue ≡ l.pkt_queue ++ ps
unfolding enqueue_all
enqueue_all-queue l [] b k = sym (append-nil l.pkt_queue)
enqueue_all-queue l (p ∷ ps) b k =
    ap (λ (x : Lobby). (enqueue_all x ps).pkt_queue) (enqueue_one l p b k.0)
    ∙ enqueue_all-queue (record l { pkt_queue = l.pkt_queue ++ (p ∷ []) }) ps b k.1
    ∙ append_assoc l.pkt_queue (p ∷ []) ps

drain-ok :
    (bcast one : Packet → Bool) (q : List Packet)
    → All (λ p. is_known p ≡ true) q
    → All (λ p. fails bcast one p ≡ false) q
    → drain (fails bcast one) false q ≡ (false, q)
unfolding drain
drain-ok bcast one [] k h = refl
drain-ok bcast one (p ∷ q) k h = rw (h.0, k.0) (rw (drain-ok bcast one q k.1 h.1) refl)

-- The registers that a client who has burst is due: those with a value, in the order of the lobby's
-- list, in a lobby that synchronises registers.
unfoldable pub with_values : List ℕ → List ℕ → List (ℕ × ℕ)
with_values [] vals = []
with_values (r ∷ rs) [] = []
with_values (r ∷ rs) (v ∷ vs) =
    let rest = with_values rs vs in if v == 0 then rest else (r, v) ∷ rest

abbrev pub due : Lobby → Bool → List (ℕ × ℕ)
due l syncs =
    if syncs && has_flag l.q_flags Flag.q_sync_regs then with_values l.syncregs l.regvals else []

module _ (send_fails : ℕ → ℕ → Bool) where
  -- All pairs are sent, or those up to the first whose sending fails.
  abbrev Synced : Bool → List (ℕ × ℕ) → List (ℕ × ℕ) → Type 0
  Synced bad all sent =
      ((bad ≡ false) × (sent ≡ all) × All (λ x. send_fails x.0 x.1 ≡ false) all)
      ⊎ ((done : List (ℕ × ℕ)) × (x : ℕ × ℕ) × (left : List (ℕ × ℕ)) × (bad ≡ true)
          × (all ≡ done ++ (x ∷ left))
          × (sent ≡ done ++ (x ∷ []))
          × (send_fails x.0 x.1 ≡ true)
          × All (λ y. send_fails y.0 y.1 ≡ false) done)

  Synced-cons :
      (bad : Bool) (all sent : List (ℕ × ℕ)) (x : ℕ × ℕ)
      → send_fails x.0 x.1 ≡ false
      → Synced bad all sent
      → Synced bad (x ∷ all) (x ∷ sent)
  Synced-cons bad all sent x e (inl (b, q, h)) = inl (b, ap (λ t. x ∷ t) q, (e, h))
  Synced-cons bad all sent x e (inr (done, y, left, b, q, q', f, h)) =
      inr (x ∷ done, y, left, b, ap (λ t. x ∷ t) q, ap (λ t. x ∷ t) q', f, (e, h))

  -- A round of the loop, after the rounds on the later registers.
  abbrev sync_step : Bool → ℕ × ℕ → Bool × List (ℕ × ℕ) → Bool × List (ℕ × ℕ)
  sync_step failed x rest = if failed then (true, x ∷ []) else (rest.0, x ∷ rest.1)

  sync_step-Synced :
      (failed : Bool) (rest : Bool × List (ℕ × ℕ)) (all : List (ℕ × ℕ)) (x : ℕ × ℕ)
      → send_fails x.0 x.1 ≡ failed
      → Synced rest.0 all rest.1
      → Synced (sync_step failed x rest).0 (x ∷ all) (sync_step failed x rest).1
  sync_step-Synced true rest all x e h = inr ([], x, all, refl, refl, refl, e, tt)
  sync_step-Synced false rest all x e h = Synced-cons rest.0 all rest.1 x e h

  sync_regs-Synced :
      (regs vals : List ℕ)
      → Synced
          (sync_regs send_fails regs vals).0
          (with_values regs vals)
          (sync_regs send_fails regs vals).1
  unfolding sync_regs with_values
  sync_regs-Synced [] vals = inl (refl, refl, tt)
  sync_regs-Synced (r ∷ rs) [] = inl (refl, refl, tt)
  sync_regs-Synced (r ∷ rs) (v ∷ vs) =
      let ih = sync_regs-Synced rs vs in
      elim (Bool-cases (v == 0)) [
        | inl e ↦ rw e ih
        | inr e ↦ rw e (
            sync_step-Synced (send_fails r v) (sync_regs send_fails rs vs) (with_values rs vs)
              (r, v) refl ih)
      ]

  due-Synced :
      (t : Bool) (regs vals : List ℕ)
      → let out : Bool × List (ℕ × ℕ) =
          (if t then sync_regs send_fails regs vals else (false, [])) in
        Synced out.0 (if t then with_values regs vals else []) out.1
  due-Synced true regs vals = sync_regs-Synced regs vals
  due-Synced false regs vals = inl (refl, refl, tt)

  -- What is left when a burst is done: the packets handled, the registers sent, the answer.
  abbrev pub IsDone : List Packet → List (ℕ × ℕ) → Burst → Type 0
  IsDone ps pairs b =
      (b.handled ≡ ps)
      × (b.lobby.pkt_queue ≡ [])
      × ((bad : Bool) × (b.rv ≡ (if bad then neg 1 else pos 0)) × Synced bad pairs b.synced)

  -- The packets that are queued while a player bursts, if the queue was empty, are handled once
  -- each and in the order of the calls when the burst is done, if no handler fails; the queue is
  -- then empty. After them the client, where the call is given one and the lobby synchronises
  -- registers, is sent each register that has a value, in order and up to the first whose sending
  -- fails. The answer is -1 if one fails and 0 else. Handlers do not change the queue.
  pub lobby_handle_done_burst-fifo :
      (bcast one : Packet → Bool) (l : Lobby) (ps : List Packet) (syncs : Bool)
      → l.pkt_queue ≡ []
      → has_flag l.flags Flag.bursting ≡ true
      → All (λ p. is_known p ≡ true) ps
      → All (λ p. fails bcast one p ≡ false) ps
      → let l' = enqueue_all l ps in
        IsDone ps (due l' syncs) (lobby_handle_done_burst bcast one send_fails l' syncs)
  unfolding lobby_handle_done_burst
  lobby_handle_done_burst-fifo bcast one l ps syncs empty b k h =
      let l' = enqueue_all l ps in
      let t = syncs && has_flag l'.q_flags Flag.q_sync_regs in
      let queue : l'.pkt_queue ≡ ps = enqueue_all-queue l ps b k ∙ ap (λ q. q ++ ps) empty in
      rw (queue, drain-ok bcast one ps k h)
        (refl, refl, (_, refl, due-Synced t l'.syncregs l'.regvals))

drain-failed : (failing : Packet → Bool) (q : List Packet) → drain failing true q ≡ (true, [])
unfolding drain
drain-failed failing [] = refl
drain-failed failing (p ∷ q) = rw (drain-failed failing q) refl

drain-stops :
    (bcast one : Packet → Bool) (q r : List Packet) (p : Packet)
    → All (λ x. is_known x ≡ true) q
    → All (λ x. fails bcast one x ≡ false) q
    → is_known p ≡ true
    → fails bcast one p ≡ true
    → drain (fails bcast one) false (q ++ (p ∷ r)) ≡ (true, q ++ (p ∷ []))
unfolding drain
drain-stops bcast one [] r p k h kp f = rw (f, kp, drain-failed (fails bcast one) r) refl
drain-stops bcast one (x ∷ q) r p k h kp f =
    rw (h.0, k.0) (rw (drain-stops bcast one q r p k.1 h.1 kp f) refl)

-- When the handler of a queued packet fails, `lobby_handle_done_burst` answers -1: the packets up to
-- that one were handled in order, the later ones are dropped, and the queue is empty.
lobby_handle_done_burst-failure :
    (bcast one : Packet → Bool) (send_fails : ℕ → ℕ → Bool) (l : Lobby) (q r : List Packet)
    (p : Packet) (syncs : Bool)
    → l.pkt_queue ≡ q ++ (p ∷ r)
    → All (λ x. is_known x ≡ true) q
    → All (λ x. fails bcast one x ≡ false) q
    → is_known p ≡ true
    → fails bcast one p ≡ true
    → let b = lobby_handle_done_burst bcast one send_fails l syncs in
      (b.rv ≡ neg 1) × (b.handled ≡ q ++ (p ∷ [])) × (b.lobby.pkt_queue ≡ [])
unfolding lobby_handle_done_burst
lobby_handle_done_burst-failure bcast one send_fails l q r p syncs e k h kp f =
    rw (e, drain-stops bcast one q r p k h kp f) (refl, refl, refl)

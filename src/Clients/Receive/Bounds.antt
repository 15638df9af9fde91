-- ===== src/Clients/Receive/Bounds.antt =====
-- `client_process_pkt` of src/clients.c: the loop ends, the bytes that wait leave room for more,
-- and the length that crashes it.
use ship_server.Base.{
  ℕ, zero, suc, ◌+◌, ◌-◌, ◌≡◌, ◌≢◌, ◌≤◌, ◌<◌, inl, inr, refl, Bool, true, false, List, [], ◌∷◌,
  ◌++◌, Option, none, some, length, take, get_or, All, ltb, ℤ, pos, negsuc, u16, arith, Bool-cases,
}
use ship_server.Clients.Receive.{
  Conn, le16, packet_length, rounded, Pass, Loop, Result, read_header, take_packet, check_length,
  pass, after, loop, keep_rest, client_process_pkt,
}
use ship_server.Clients.Receive.Keeps.{IsHeader, PassKeeps, LoopKeeps, loop-LoopKeeps}
use ship_server.Clients.Receive.Fuel.{Progress, pass-Progress}
use ship_server.Clients.Receive.Pass.{faulted, refused, waits, handled}
use ship_server.Clients.Receive.Loop.{out_of_fuel, crashed, booted, left}
use ship_server.Clients.Receive.Result.{no_fuel, fault, returned}

abbrev pub AreBytes : List ℕ → Type 0
AreBytes = All (λ b. b < 256)

All-get_or : (bytes : List ℕ) (i : ℕ) → AreBytes bytes → get_or bytes i 0 < 256
All-get_or [] i h = omega arith
All-get_or (x ∷ xs) zero h = h.0
All-get_or (x ∷ xs) (suc i) h = All-get_or xs i h.1

le16-lt : (bytes : List ℕ) (i : ℕ) → AreBytes bytes → le16 bytes i < u16
le16-lt bytes i h = omega (arith, All-get_or bytes i h, All-get_or bytes (i + 1) h)

packet_length-lt :
    (version : ℕ) (pkt : List ℕ) (len : ℕ)
    → AreBytes pkt
    → packet_length version pkt ≡ some len
    → len < u16
unfolding packet_length
packet_length-lt version pkt len h e = ground (arith, le16-lt pkt 0 h, le16-lt pkt 2 h)

rounded-lt : (hsz len : ℕ) → IsHeader hsz → len < u16 → rounded hsz len < u16
unfolding rounded
rounded-lt hsz len (inl e) lt = rw e (ground arith)
rounded-lt hsz len (inr e) lt = rw e (ground arith)

rounded_wraps : (hsz len : ℕ) → IsHeader hsz → u16 - hsz < len → len < u16 → rounded hsz len ≡ 0
unfolding rounded
rounded_wraps hsz len (inl e) lt lt' = rw e (ground arith)
rounded_wraps hsz len (inr e) lt lt' = rw e (ground arith)

module _ {K H : Type 0} (crypt : K → List ℕ → List ℕ × K)
    (process : Bool → H → List ℕ → ℤ × H) where
  abbrev HasEnded : Loop K H → Type 0
  HasEnded out_of_fuel = ⊥
  HasEnded crashed = Unit
  HasEnded (booted c h) = Unit
  HasEnded (left rv c h rest) = Unit

  after-HasEnded :
      {hsz len : ℕ} (h : H) (buf : List ℕ) (again : Conn K → H → List ℕ → Loop K H) (p : Pass K H)
      → Progress crypt process hsz len p
      → ((c : Conn K) (h' : H) (rest : List ℕ)
          → c.hdr_size ≡ hsz
          → length rest < len
          → HasEnded (again c h' rest))
      → HasEnded (after crypt process h buf again p)
  unfolding after
  after-HasEnded h buf again faulted s ih = tt
  after-HasEnded h buf again (refused c) s ih = tt
  after-HasEnded h buf again (waits c) s ih = tt
  after-HasEnded h buf again (handled (pos zero) c h' rest) s ih = ih c h' rest s.0 s.1
  after-HasEnded h buf again (handled (pos (suc n)) c h' rest) s ih = tt
  after-HasEnded h buf again (handled (negsuc n) c h' rest) s ih = tt

  loop-HasEnded :
      (fuel now : ℕ) (c : Conn K) (h : H) (buf : List ℕ)
      → IsHeader c.hdr_size
      → length buf < fuel
      → HasEnded (loop crypt process fuel now c h buf)
  unfolding loop
  loop-HasEnded zero now c h buf size lt = elim lt [ ]
  loop-HasEnded (suc fuel) now c h buf size lt = elim (Bool-cases (ltb (length buf) c.hdr_size)) [
    | inl e ↦ rw e tt
    | inr e ↦ rw e (
        after-HasEnded h buf (loop crypt process fuel now) (pass crypt process now c h buf)
          (pass-Progress crypt process now c h buf size)
          (λ c' h' rest same lt'. loop-HasEnded fuel now c' h' rest (rw same size) (omega arith)))
  ]

  keep_rest-ends : (r : Loop K H) → HasEnded r → keep_rest crypt process r ≢ no_fuel
  unfolding keep_rest
  keep_rest-ends out_of_fuel e = absurd e
  keep_rest-ends crashed e = λ q. cc
  keep_rest-ends (booted c h) e = λ q. cc
  keep_rest-ends (left (pos zero) c h rest) e = λ q. cc
  keep_rest-ends (left (pos (suc n)) c h rest) e = λ q. cc
  keep_rest-ends (left (negsuc n) c h rest) e = λ q. cc

  -- The loop of `client_process_pkt` ends on every input: for both sizes of a header, whatever the
  -- client has buffered and sends and whatever the handlers answer, the fuel of one more than the
  -- bytes at hand is enough.
  pub client_process_pkt-ends :
      (now : ℕ) (c : Conn K) (h : H) (got : List ℕ)
      → IsHeader c.hdr_size
      → client_process_pkt crypt process now c h got ≢ no_fuel
  unfolding client_process_pkt
  client_process_pkt-ends now c h [] size = λ q. cc
  client_process_pkt-ends now c h (x ∷ got) size =
      let buf = c.recvbuf ++ (x ∷ got) in
      let c' = record c { recvbuf = [] } in
      keep_rest-ends (loop crypt process (suc (length buf)) now c' h buf)
        (loop-HasEnded (suc (length buf)) now c' h buf size (omega arith))

  abbrev HasBytes : Conn K → Type 0
  HasBytes c = IsHeader c.hdr_size × AreBytes c.pkt

  abbrev HasRoom : Conn K → List ℕ → Type 0
  HasRoom c buf = AreBytes c.pkt × (length buf < u16)

  check_length-HasRoom :
      (now : ℕ) (c : Conn K) (h : H) (buf : List ℕ) (field : Option ℕ)
      → HasBytes c
      → ((len : ℕ) → field ≡ some len → len < u16)
      → PassKeeps HasBytes HasRoom buf (check_length crypt process now c h buf field)
  unfolding check_length take_packet
  check_length-HasRoom now c h buf none k lt = k
  check_length-HasRoom now c h buf (some len) k lt = elim (Bool-cases (ltb len c.hdr_size)) [
    | inl e1 ↦ rw e1 k
    | inr e1 ↦ rw e1 (elim (Bool-cases (ltb (length buf) (rounded c.hdr_size len))) [
      | inl e2 ↦ rw e2 (k.1, ground (arith, rounded-lt c.hdr_size len k.0 (lt len refl)))
      | inr e2 ↦ rw e2 (elim (Bool-cases (ltb (rounded c.hdr_size len) c.hdr_size)) [
        | inl e3 ↦ rw e3 tt
        | inr e3 ↦ rw e3 k
      ])
    ])
  ]

  module _ (bytes : (k : K) (bs : List ℕ) → AreBytes (crypt k bs).0) where
    read_header-HasBytes :
        (c : Conn K) (buf : List ℕ) → HasBytes c → HasBytes (read_header crypt process c buf)
    unfolding read_header
    read_header-HasBytes c buf k = (
      k.0,
      elim (Bool-cases c.hdr_read) [
        | inl e ↦ rw e k.1
        | inr e ↦ rw e (bytes c.key (take c.hdr_size buf))
      ],
    )

    pass-HasRoom :
        (now : ℕ) (c : Conn K) (h : H) (buf : List ℕ)
        → HasBytes c
        → PassKeeps HasBytes HasRoom buf (pass crypt process now c h buf)
    unfolding pass
    pass-HasRoom now c h buf k =
        let c' = read_header crypt process c buf in
        let k' = read_header-HasBytes c buf k in
        check_length-HasRoom now c' h buf (packet_length c'.version c'.pkt) k'
          (λ len e. packet_length-lt c'.version c'.pkt len k'.1 e)

    -- What a call that returns 0 leaves: a header of bytes, and fewer than 65536 bytes that wait.
    abbrev pub LeavesRoom : Result K H → Type 0
    LeavesRoom no_fuel = Unit
    LeavesRoom fault = Unit
    LeavesRoom (returned (pos zero) c h) = HasRoom c c.recvbuf
    LeavesRoom (returned (pos (suc n)) c h) = Unit
    LeavesRoom (returned (negsuc n) c h) = Unit

    keep_rest-LeavesRoom :
        (r : Loop K H) → LoopKeeps HasBytes HasRoom r → LeavesRoom (keep_rest crypt process r)
    unfolding keep_rest
    keep_rest-LeavesRoom out_of_fuel k = tt
    keep_rest-LeavesRoom crashed k = tt
    keep_rest-LeavesRoom (booted c h) k = tt
    keep_rest-LeavesRoom (left (pos zero) c h rest) k = k
    keep_rest-LeavesRoom (left (pos (suc n)) c h rest) k = tt
    keep_rest-LeavesRoom (left (negsuc n) c h rest) k = tt

    -- When decryption yields bytes and the client's header is of bytes, a call that returns 0 leaves
    -- fewer than 65536 bytes waiting, whatever was sent: they fit the receive buffer, with room for
    -- the next `recv`, and the header that was kept is again of bytes.
    pub client_process_pkt-LeavesRoom :
        (now : ℕ) (c : Conn K) (h : H) (got : List ℕ)
        → HasBytes c
        → LeavesRoom (client_process_pkt crypt process now c h got)
    unfolding client_process_pkt
    client_process_pkt-LeavesRoom now c h [] k = tt
    client_process_pkt-LeavesRoom now c h (x ∷ got) k =
        let buf = c.recvbuf ++ (x ∷ got) in
        let c' = record c { recvbuf = [] } in
        keep_rest-LeavesRoom (loop crypt process (suc (length buf)) now c' h buf) (
          loop-LoopKeeps crypt process HasBytes HasRoom (suc (length buf)) now c' h buf
            (λ c h buf k. pass-HasRoom now c h buf k) (λ c buf k lt. (k.1, short c buf k.0 lt)) k)
      where
        short :
            (c : Conn K) (buf : List ℕ)
            → IsHeader c.hdr_size
            → length buf < c.hdr_size
            → length buf < u16
        short c buf (inl e) lt = omega arith
        short c buf (inr e) lt = omega arith

  check_length-faulted :
      (now : ℕ) (c : Conn K) (h : H) (buf : List ℕ) (len : ℕ)
      → IsHeader c.hdr_size
      → u16 - c.hdr_size < len
      → len < u16
      → check_length crypt process now c h buf (some len) ≡ faulted
  unfolding check_length
  check_length-faulted now c h buf len size lt lt' =
      rw (rounded_wraps c.hdr_size len size lt lt') (ground arith)

  -- A packet whose length field is within a header's size of 65536 makes the server decrypt a
  -- negative number of bytes: the length, rounded up in sixteen bits, is 0, and the size of the
  -- header is taken from it. The bytes after the header do not matter.
  pub client_process_pkt-faults :
      (now len x : ℕ) (c : Conn K) (h : H) (got : List ℕ)
      → IsHeader c.hdr_size
      → c.hdr_read ≡ false
      → c.recvbuf ≡ []
      → c.hdr_size ≤ length (x ∷ got)
      → packet_length c.version (crypt c.key (take c.hdr_size (x ∷ got))).0 ≡ some len
      → u16 - c.hdr_size < len
      → len < u16
      → client_process_pkt crypt process now c h (x ∷ got) ≡ fault
  unfolding client_process_pkt loop pass read_header after keep_rest
  client_process_pkt-faults now len x c h got size unread empty enough field lt lt' =
      let header = crypt c.key (take c.hdr_size (x ∷ got)) in
      let c' = record c { key = header.1; pkt = header.0; hdr_read = true; recvbuf = [] } in
      let long : ltb (length (x ∷ got)) c.hdr_size ≡ false = ground arith in
      rw empty (
        rw unread
          (rw field (rw (check_length-faulted now c' h (x ∷ got) len size lt lt') (rw long refl))))

-- ===== src/Clients/Receive/Chunks.antt =====
-- `client_process_pkt` of src/clients.c: what it does to a stream of bytes does not depend on how
-- the network cuts the stream.
use ship_server.Base.{
  ℕ, zero, suc, ◌-◌, ◌≡◌, ◌≤◌, ◌<◌, inl, inr, refl, ap, sym, ◌∙◌, Bool, true, false, List, [], ◌∷◌,
  ◌++◌, Option, none, some, length, drop, ltb, ℤ, pos, negsuc, arith, Bool-cases, length-append,
  length-drop, take-append, drop-append, append_assoc,
}
use ship_server.Clients.Receive.{
  Conn, packet_length, rounded, Pass, Loop, Result, read_header, take_packet, check_length, pass,
  after, loop, keep_rest, client_process_pkt,
}
use ship_server.Clients.Receive.Fuel.{Progress, pass-Progress, run, loop-run}
use ship_server.Clients.Receive.Keeps.{IsHeader, PassKeeps, LoopKeeps, loop-LoopKeeps}
use ship_server.Clients.Receive.Pass.{faulted, refused, waits, handled}
use ship_server.Clients.Receive.Loop.{out_of_fuel, crashed, booted, left}
use ship_server.Clients.Receive.Result.{no_fuel, fault, returned}

module _ {K H : Type 0} (crypt : K → List ℕ → List ℕ × K)
    (process : Bool → H → List ℕ → ℤ × H) where
  -- A pass over more bytes, from the pass over the first of them.
  abbrev later : ℕ → H → List ℕ → List ℕ → Pass K H → Pass K H
  later now h all more faulted = faulted
  later now h all more (refused c) = refused c
  later now h all more (waits c) = pass crypt process now c h all
  later now h all more (handled rv c h' rest) = handled rv c h' (rest ++ more)

  read_header-append :
      (c : Conn K) (xs ys : List ℕ)
      → c.hdr_size ≤ length xs
      → read_header crypt process c (xs ++ ys) ≡ read_header crypt process c xs
  unfolding read_header
  read_header-append c xs ys le = rw (take-append c.hdr_size xs ys le) refl

  read_header_idem :
      (c : Conn K) (xs ys : List ℕ)
      → read_header crypt process (read_header crypt process c xs) ys
        ≡ read_header crypt process c xs
  unfolding read_header
  read_header_idem c xs ys = refl

  take_packet-append :
      (now : ℕ) (c : Conn K) (h : H) (xs ys : List ℕ) (size : ℕ)
      → c.hdr_size ≤ size
      → size ≤ length xs
      → take_packet crypt process now c h (xs ++ ys) size
        ≡ later now h (xs ++ ys) ys (take_packet crypt process now c h xs size)
  unfolding take_packet
  take_packet-append now c h xs ys size le le' = rw (drop-append c.hdr_size xs ys (omega arith)) (
      rw
        (take-append (size - c.hdr_size) (drop c.hdr_size xs) ys
          (omega (arith, length-drop c.hdr_size xs (omega arith))))
        (rw (drop-append size xs ys le') refl))

  check_length-waits :
      (now : ℕ) (c : Conn K) (h : H) (xs : List ℕ) (len : ℕ)
      → ltb len c.hdr_size ≡ false
      → ltb (length xs) (rounded c.hdr_size len) ≡ true
      → check_length crypt process now c h xs (some len) ≡ waits c
  unfolding check_length
  check_length-waits now c h xs len e1 e2 = rw e1 (rw e2 refl)

  check_length-append :
      (now : ℕ) (c : Conn K) (h : H) (xs ys : List ℕ) (field : Option ℕ)
      → check_length crypt process now c h (xs ++ ys) field ≡ pass crypt process now c h (xs ++ ys)
      → check_length crypt process now c h (xs ++ ys) field
        ≡ later now h (xs ++ ys) ys (check_length crypt process now c h xs field)
  unfolding check_length
  check_length-append now c h xs ys none e = refl
  check_length-append now c h xs ys (some len) e = elim (Bool-cases (ltb len c.hdr_size)) [
    | inl e1 ↦ rw e1 refl
    | inr e1 ↦ elim (Bool-cases (ltb (length xs) (rounded c.hdr_size len))) [
      | inl e2 ↦ e ∙ sym (ap (later now h (xs ++ ys) ys) (check_length-waits now c h xs len e1 e2))
      | inr e2 ↦
          let e' : ltb (length (xs ++ ys)) (rounded c.hdr_size len) ≡ false =
            ground (arith, length-append xs ys) in
          elim (Bool-cases (ltb (rounded c.hdr_size len) c.hdr_size)) [
            | inl e3 ↦ rw e1 (rw e2 (rw e' (rw e3 refl)))
            | inr e3 ↦ rw e1 (
                rw e2 (
                  rw e' (
                    rw e3 (
                      take_packet-append now c h xs ys (rounded c.hdr_size len) (ground arith)
                        (ground arith)))))
          ]
    ]
  ]

  pass-append :
      (now : ℕ) (c : Conn K) (h : H) (xs ys : List ℕ)
      → c.hdr_size ≤ length xs
      → pass crypt process now c h (xs ++ ys)
        ≡ later now h (xs ++ ys) ys (pass crypt process now c h xs)
  unfolding pass
  pass-append now c h xs ys le =
      let c' = read_header crypt process c xs in
      let check : Conn K → Pass K H =
        λ d. check_length crypt process now d h (xs ++ ys) (packet_length d.version d.pkt) in
      ap check (read_header-append c xs ys le)
      ∙ check_length-append now c' h xs ys (packet_length c'.version c'.pkt)
          (sym (ap check (read_header_idem c xs (xs ++ ys))))

  -- What more bytes make of the loop.
  resume : ℕ → List ℕ → Loop K H → Loop K H
  resume now more out_of_fuel = out_of_fuel
  resume now more crashed = crashed
  resume now more (booted c h) = booted c h
  resume now more (left (pos zero) c h rest) = run crypt process now c h (rest ++ more)
  resume now more (left (pos (suc n)) c h rest) = left (pos (suc n)) c h (rest ++ more)
  resume now more (left (negsuc n) c h rest) = left (negsuc n) c h (rest ++ more)

  run-short :
      (now : ℕ) (c : Conn K) (h : H) (buf : List ℕ)
      → ltb (length buf) c.hdr_size ≡ true
      → run crypt process now c h buf ≡ left (pos 0) c h buf
  unfolding loop
  run-short now c h buf e = rw e refl

  run-long :
      (now : ℕ) (c : Conn K) (h : H) (buf : List ℕ)
      → ltb (length buf) c.hdr_size ≡ false
      → run crypt process now c h buf
        ≡ after crypt process h buf
            (loop crypt process (length buf) now)
            (pass crypt process now c h buf)
  unfolding loop
  run-long now c h buf e = rw e refl

  after-later :
      (n hsz now : ℕ) (h : H) (a b : List ℕ) (p : Pass K H)
      → IsHeader hsz
      → hsz ≤ length a
      → Progress crypt process hsz (length a) p
      → ((c : Conn K) (h' : H) (rest : List ℕ)
          → length rest < length a
          → c.hdr_size ≡ hsz
          → run crypt process now c h' (rest ++ b) ≡ resume now b (run crypt process now c h' rest))
      → after crypt process h
          (a ++ b)
          (loop crypt process (length (a ++ b)) now)
          (later now h (a ++ b) b p)
        ≡ resume now b (after crypt process h a (loop crypt process (length a) now) p)
  unfolding after resume
  after-later n hsz now h a b faulted size le s ih = refl
  after-later n hsz now h a b (refused c) size le s ih = refl
  after-later n hsz now h a b (waits c) size le s ih =
      sym (run-long now c h (a ++ b) (ground (arith, length-append a b)))
  after-later n hsz now h a b (handled (pos zero) c h' rest) size le s ih =
      loop-run crypt process (length (a ++ b)) now c h' (rest ++ b) (rw s.0 size)
        (omega (arith, length-append a b, length-append rest b))
      ∙ ih c h' rest s.1 s.0
      ∙ ap (resume now b) (sym (loop-run crypt process (length a) now c h' rest (rw s.0 size) s.1))
  after-later n hsz now h a b (handled (pos (suc m)) c h' rest) size le s ih = refl
  after-later n hsz now h a b (handled (negsuc m) c h' rest) size le s ih = refl

  run-append :
      (n now : ℕ) (c : Conn K) (h : H) (a b : List ℕ)
      → length a < n
      → IsHeader c.hdr_size
      → run crypt process now c h (a ++ b) ≡ resume now b (run crypt process now c h a)
  unfolding resume
  run-append zero now c h a b lt size = elim lt [ ]
  run-append (suc n) now c h a b lt size = elim (Bool-cases (ltb (length a) c.hdr_size)) [
    | inl e ↦ sym (ap (resume now b) (run-short now c h a e))
    | inr e ↦
        run-long now c h (a ++ b) (ground (arith, length-append a b))
        ∙ ap (after crypt process h (a ++ b) (loop crypt process (length (a ++ b)) now))
            (pass-append now c h a b (ground arith))
        ∙ after-later n c.hdr_size now h a b (pass crypt process now c h a) size (ground arith)
            (pass-Progress crypt process now c h a size)
            (λ c' h' rest lt' same. run-append n now c' h' rest b (omega arith) (rw same size))
        ∙ sym (ap (resume now b) (run-long now c h a e))
  ]

  -- Receiving `more` after a first call, when that call returned 0.
  pub then_receive : ℕ → List ℕ → Result K H → Result K H
  then_receive now more no_fuel = no_fuel
  then_receive now more fault = fault
  then_receive now more (returned (pos zero) c h) = client_process_pkt crypt process now c h more
  then_receive now more (returned (pos (suc n)) c h) = returned (pos (suc n)) c h
  then_receive now more (returned (negsuc n) c h) = returned (negsuc n) c h

  -- Nothing is buffered while the loop runs.
  abbrev IsEmptied : Conn K → Type 0
  IsEmptied c = c.recvbuf ≡ []

  check_length-IsEmptied :
      (now : ℕ) (c : Conn K) (h : H) (buf : List ℕ) (field : Option ℕ)
      → IsEmptied c
      → PassKeeps IsEmptied
          (λ c buf. IsEmptied c)
          buf
          (check_length crypt process now c h buf field)
  unfolding check_length take_packet
  check_length-IsEmptied now c h buf none e = e
  check_length-IsEmptied now c h buf (some len) e = elim (Bool-cases (ltb len c.hdr_size)) [
    | inl e1 ↦ rw e1 e
    | inr e1 ↦ rw e1 (elim (Bool-cases (ltb (length buf) (rounded c.hdr_size len))) [
      | inl e2 ↦ rw e2 e
      | inr e2 ↦ rw e2 (elim (Bool-cases (ltb (rounded c.hdr_size len) c.hdr_size)) [
        | inl e3 ↦ rw e3 tt
        | inr e3 ↦ rw e3 e
      ])
    ])
  ]

  run-IsEmptied :
      (now : ℕ) (c : Conn K) (h : H) (buf : List ℕ)
      → IsEmptied c
      → LoopKeeps IsEmptied (λ c buf. IsEmptied c) (run crypt process now c h buf)
  unfolding pass read_header
  run-IsEmptied now c h buf e =
      loop-LoopKeeps crypt process IsEmptied (λ c buf. IsEmptied c) (suc (length buf)) now c h buf
        (λ c h buf e. check_length-IsEmptied now (read_header crypt process c buf) h buf _ e)
        (λ c buf e lt. e) e

  keep_rest-resume :
      (now : ℕ) (x : ℕ) (more : List ℕ) (r : Loop K H)
      → LoopKeeps IsEmptied (λ c buf. IsEmptied c) r
      → keep_rest crypt process (resume now (x ∷ more) r)
        ≡ then_receive now (x ∷ more) (keep_rest crypt process r)
  unfolding keep_rest resume then_receive client_process_pkt
  keep_rest-resume now x more out_of_fuel e = refl
  keep_rest-resume now x more crashed e = refl
  keep_rest-resume now x more (booted c h) e = refl
  keep_rest-resume now x more (left (pos zero) c h rest) e =
      let again : List ℕ → Result K H = λ b.
        keep_rest crypt process
          (run crypt process now (record c { recvbuf = b }) h (rest ++ (x ∷ more))) in
      ap again e
  keep_rest-resume now x more (left (pos (suc n)) c h rest) e = refl
  keep_rest-resume now x more (left (negsuc n) c h rest) e = refl

  -- Receiving a stream in two parts is receiving it at once: the same packets reach the handlers,
  -- the same code is returned and the same client is left, wherever the network cuts the stream. If
  -- the first call does not return 0, its result is the result of the whole.
  pub client_process_pkt-append :
      (now x y : ℕ) (xs ys : List ℕ) (c : Conn K) (h : H)
      → IsHeader c.hdr_size
      → client_process_pkt crypt process now c h ((x ∷ xs) ++ (y ∷ ys))
        ≡ then_receive now (y ∷ ys) (client_process_pkt crypt process now c h (x ∷ xs))
  unfolding client_process_pkt
  client_process_pkt-append now x y xs ys c h size =
      let c' = record c { recvbuf = [] } in
      let a = c.recvbuf ++ (x ∷ xs) in
      ap (λ (b : List ℕ). keep_rest crypt process (run crypt process now c' h b))
        (sym (append_assoc c.recvbuf (x ∷ xs) (y ∷ ys)))
      ∙ ap (keep_rest crypt process)
          (run-append (suc (length a)) now c' h a (y ∷ ys) (omega arith) size)
      ∙ keep_rest-resume now y ys (run crypt process now c' h a) (run-IsEmptied now c' h a refl)

-- ===== src/Clients/Receive/Stream.antt =====
-- `client_process_pkt` of src/clients.c against what a client sends: packets, each encrypted
-- after the other.
use ship_server.Base.{
  ℕ, zero, suc, ◌-◌, ◌%◌, ◌≡◌, ◌≤◌, ◌<◌, inl, inr, refl, ap, sym, ◌∙◌, Bool, true, false, List, [],
  ◌∷◌, ◌++◌, Option, none, some, length, take, drop, All, ltb, if◌then◌else◌, ℤ, pos, negsuc, arith,
  length-append, length-take, length-drop, take-drop, take-append_all, drop-append_all,
  append_assoc,
}
use ship_server.Clients.Receive.{
  Conn, packet_length, rounded, Loop, Result, read_header, take_packet, check_length, pass, after,
  loop, keep_rest, client_process_pkt,
}
use ship_server.Clients.Receive.Keeps.{IsHeader}
use ship_server.Clients.Receive.Pass.{handled}
use ship_server.Clients.Receive.Loop.{out_of_fuel, crashed, booted, left}
use ship_server.Clients.Receive.Result.{no_fuel, fault, returned}

-- What the code relies on of a cipher, over bytes in whole headers: decryption undoes encryption
-- and leaves the same key, encryption goes on where it stopped and keeps the number of bytes.
pub record IsCipher {K : Type 0} (hsz : ℕ) (crypt encrypt : K → List ℕ → List ℕ × K) : Type 0 where
  pub undoes :
      (k : K) (bs : List ℕ)
      → length bs % hsz ≡ 0
      → crypt k (encrypt k bs).0 ≡ (bs, (encrypt k bs).1)
  pub goes_on :
      (k : K) (xs bs : List ℕ)
      → length xs % hsz ≡ 0
      → length bs % hsz ≡ 0
      → encrypt k (xs ++ bs)
        ≡ ((encrypt k xs).0 ++ (encrypt (encrypt k xs).1 bs).0, (encrypt (encrypt k xs).1 bs).1)
  pub keeps_length :
      (k : K) (bs : List ℕ) → length bs % hsz ≡ 0 → length (encrypt k bs).0 ≡ length bs

-- A packet of whole headers whose length field says how long it is, up to rounding.
abbrev IsPacket : ℕ → ℕ → List ℕ → Type 0
IsPacket version hsz p =
    (length p % hsz ≡ 0)
    × (hsz ≤ length p)
    × ((len : ℕ) × (packet_length version (take hsz p) ≡ some len)
        × (hsz ≤ len)
        × (rounded hsz len ≡ length p))

module _ {K : Type 0} (encrypt : K → List ℕ → List ℕ × K) where
  -- The bytes of packets, encrypted one after the other.
  pub wire : K → List (List ℕ) → List ℕ
  wire k [] = []
  wire k (p ∷ ps) = (encrypt k p).0 ++ wire (encrypt k p).1 ps

module _ {H : Type 0} where
  -- The packets are handled in order up to the first that fails.
  abbrev and_then : (H → ℤ × H) → ℤ × H → ℤ × H
  and_then again (pos zero, h) = again h
  and_then again (pos (suc n), h) = (pos (suc n), h)
  and_then again (negsuc n, h) = (negsuc n, h)

  pub serve : (H → List ℕ → ℤ × H) → H → List (List ℕ) → ℤ × H
  serve handle h [] = (pos 0, h)
  serve handle h (p ∷ ps) = and_then (λ h'. serve handle h' ps) (handle h p)

  module _ {K : Type 0} where
    -- The return code and what the handlers made of their state.
    abbrev pub answer : Result K H → Option (ℤ × H)
    answer no_fuel = none
    answer fault = none
    answer (returned rv c h) = some (rv, h)

module _ {K H : Type 0} (crypt encrypt : K → List ℕ → List ℕ × K)
    (process : Bool → H → List ℕ → ℤ × H) where
  -- The client after a packet.
  abbrev next_conn : ℕ → Conn K → List ℕ → Conn K
  next_conn now c p = record c {
    key = (encrypt c.key p).1;
    pkt = take c.hdr_size p;
    hdr_read = false;
    last_message = now;
    log = if c.logging then c.log ++ (p ∷ []) else c.log;
  }

  take_packet-encrypted :
      (now : ℕ) (c : Conn K) (h : H) (p e1 e2 w : List ℕ) (k2 : K) (size : ℕ)
      → crypt c.key e2 ≡ (drop c.hdr_size p, k2)
      → length e1 ≡ c.hdr_size
      → length (e1 ++ e2) ≡ size
      → c.pkt ≡ take c.hdr_size p
      → take_packet crypt process now c h (e1 ++ (e2 ++ w)) size
        ≡ handled
            (process c.type_ship h p).0
            (record c {
              key = k2;
              hdr_read = false;
              last_message = now;
              log = if c.logging then c.log ++ (p ∷ []) else c.log;
            })
            (process c.type_ship h p).1
            w
  unfolding take_packet
  take_packet-encrypted now c h p e1 e2 w k2 size dec len1 len2 header =
      let whole : drop size (e1 ++ (e2 ++ w)) ≡ w =
        rw (← append_assoc e1 e2 w) (drop-append_all size (e1 ++ e2) w len2) in
      rw (drop-append_all c.hdr_size e1 (e2 ++ w) len1) (
        rw (take-append_all (size - c.hdr_size) e2 w (omega (arith, length-append e1 e2)))
          (rw dec (rw header (rw (take-drop c.hdr_size p) (rw whole refl)))))

  pass-encrypted_parts :
      (now : ℕ) (c : Conn K) (h : H) (p e1 e2 w : List ℕ) (k1 k2 : K) (len : ℕ)
      → c.hdr_read ≡ false
      → crypt c.key e1 ≡ (take c.hdr_size p, k1)
      → crypt k1 e2 ≡ (drop c.hdr_size p, k2)
      → length e1 ≡ c.hdr_size
      → packet_length c.version (take c.hdr_size p) ≡ some len
      → c.hdr_size ≤ len
      → rounded c.hdr_size len ≡ length (e1 ++ e2)
      → pass crypt process now c h (e1 ++ (e2 ++ w))
        ≡ handled
            (process c.type_ship h p).0
            (record c {
              key = k2;
              pkt = take c.hdr_size p;
              hdr_read = false;
              last_message = now;
              log = if c.logging then c.log ++ (p ∷ []) else c.log;
            })
            (process c.type_ship h p).1
            w
  unfolding pass read_header check_length
  pass-encrypted_parts now c h p e1 e2 w k1 k2 len unread dec1 dec2 len1 field le size =
      let c' : Conn K = record c { key = k1; pkt = take c.hdr_size p; hdr_read = true } in
      let t1 : ltb len c.hdr_size ≡ false = ground arith in
      let t2 : ltb (length (e1 ++ (e2 ++ w))) (length (e1 ++ e2)) ≡ false =
        ground (arith, length-append e1 (e2 ++ w), length-append e1 e2, length-append e2 w) in
      let t3 : ltb (length (e1 ++ e2)) c.hdr_size ≡ false = ground (arith, length-append e1 e2) in
      rw unread (
        rw (take-append_all c.hdr_size e1 (e2 ++ w) len1) (
          rw dec1 (
            rw field (
              rw size (
                rw t1 (
                  rw t2 (
                    rw t3 (
                      take_packet-encrypted now c' h p e1 e2 w k2 (length (e1 ++ e2)) dec2 len1 refl
                        refl))))))))

mod_drop : (hsz n : ℕ) → IsHeader hsz → n % hsz ≡ 0 → hsz ≤ n → (n - hsz) % hsz ≡ 0
mod_drop hsz n (inl q) e le = let e' : n % 4 ≡ 0 = rw (← q) e in rw q (omega arith)
mod_drop hsz n (inr q) e le = let e' : n % 8 ≡ 0 = rw (← q) e in rw q (omega arith)

mod_self : (hsz : ℕ) → IsHeader hsz → hsz % hsz ≡ 0
mod_self hsz (inl q) = rw q refl
mod_self hsz (inr q) = rw q refl

module _ {K H : Type 0} (crypt encrypt : K → List ℕ → List ℕ × K)
    (process : Bool → H → List ℕ → ℤ × H) where
  pass-encrypted :
      (now : ℕ) (c : Conn K) (h : H) (p w : List ℕ)
      → IsCipher c.hdr_size crypt encrypt
      → IsHeader c.hdr_size
      → c.hdr_read ≡ false
      → IsPacket c.version c.hdr_size p
      → pass crypt process now c h ((encrypt c.key p).0 ++ w)
        ≡ handled
            (process c.type_ship h p).0
            (next_conn crypt encrypt process now c p)
            (process c.type_ship h p).1
            w
  pass-encrypted now c h p w cipher size unread (whole, long, (len, field, le, fits)) =
      let hsz = c.hdr_size in
      let hd = take hsz p in
      let tl = drop hsz p in
      let len_hd : length hd ≡ hsz = omega (arith, length-take hsz p) in
      let len_tl : length tl ≡ length p - hsz = omega (arith, length-drop hsz p long) in
      let mod_hd : length hd % hsz ≡ 0 = rw len_hd (mod_self hsz size) in
      let mod_tl : length tl % hsz ≡ 0 = rw len_tl (mod_drop hsz (length p) size whole long) in
      let one = encrypt c.key hd in
      let two = encrypt one.1 tl in
      let split : encrypt c.key p ≡ (one.0 ++ two.0, two.1) =
        ap (encrypt c.key) (sym (take-drop hsz p)) ∙ cipher.goes_on c.key hd tl mod_hd mod_tl in
      let len1 : length one.0 ≡ hsz = cipher.keeps_length c.key hd mod_hd ∙ len_hd in
      let len2 : length two.0 ≡ length p - hsz = cipher.keeps_length one.1 tl mod_tl ∙ len_tl in
      let fits' : rounded hsz len ≡ length (one.0 ++ two.0) =
        fits ∙ omega (arith, length-append one.0 two.0) in
      rw split (
        rw (append_assoc one.0 two.0 w) (
          pass-encrypted_parts crypt encrypt process now c h p one.0 two.0 w one.1 two.1 len unread
            (cipher.undoes c.key hd mod_hd) (cipher.undoes one.1 tl mod_tl) len1 field le fits'))

  -- The code and the handlers' state, where the loop has ended.
  abbrev ending : Loop K H → Option (ℤ × H)
  ending out_of_fuel = none
  ending crashed = none
  ending (booted c h) = none
  ending (left rv c h rest) = some (rv, h)

  after-serve :
      (again : Conn K → H → List ℕ → Loop K H) (then_serve : H → ℤ × H) (h : H) (buf : List ℕ)
      (c : Conn K) (w : List ℕ) (r : ℤ × H)
      → ((h' : H) → ending (again c h' w) ≡ some (then_serve h'))
      → ending (after crypt process h buf again (handled r.0 c r.1 w))
        ≡ some (and_then then_serve r)
  unfolding after
  after-serve again then_serve h buf c w (pos zero, h') ih = ih h'
  after-serve again then_serve h buf c w (pos (suc n), h') ih = refl
  after-serve again then_serve h buf c w (negsuc n, h') ih = refl

  loop-wire :
      (ps : List (List ℕ)) (fuel now : ℕ) (c : Conn K) (h : H)
      → IsCipher c.hdr_size crypt encrypt
      → IsHeader c.hdr_size
      → c.hdr_read ≡ false
      → All (IsPacket c.version c.hdr_size) ps
      → length (wire encrypt c.key ps) < fuel
      → ending (loop crypt process fuel now c h (wire encrypt c.key ps))
        ≡ some (serve (process c.type_ship) h ps)
  unfolding loop wire serve
  loop-wire [] zero now c h cipher size unread ok lt = elim lt [ ]
  loop-wire [] (suc fuel) now c h cipher size unread ok lt =
      let short : ltb 0 c.hdr_size ≡ true = ground arith in rw short refl
  loop-wire (p ∷ ps) zero now c h cipher size unread ok lt = elim lt [ ]
  loop-wire (p ∷ ps) (suc fuel) now c h cipher size unread ok lt =
      let e = encrypt c.key p in
      let w = wire encrypt e.1 ps in
      let len : length e.0 ≡ length p = cipher.keeps_length c.key p ok.0.0 in
      let long : ltb (length (e.0 ++ w)) c.hdr_size ≡ false = ground (arith, length-append e.0 w) in
      let c' = next_conn crypt encrypt process now c p in
      rw long (
        rw (pass-encrypted now c h p w cipher size unread ok.0) (
          after-serve (loop crypt process fuel now) (λ h'. serve (process c.type_ship) h' ps) h
            (e.0 ++ w) c' w (process c.type_ship h p)
            (λ h'.
              loop-wire ps fuel now c' h' cipher size refl ok.1
                (omega (arith, length-append e.0 w)))))

  keep_rest-ending :
      (r : Loop K H) (x : ℤ × H) → ending r ≡ some x → answer (keep_rest crypt process r) ≡ some x
  unfolding keep_rest
  keep_rest-ending out_of_fuel x e = cc
  keep_rest-ending crashed x e = cc
  keep_rest-ending (booted c h) x e = cc
  keep_rest-ending (left (pos zero) c h rest) x e = e
  keep_rest-ending (left (pos (suc n)) c h rest) x e = e
  keep_rest-ending (left (negsuc n) c h rest) x e = e

  client_process_pkt-loop :
      (now : ℕ) (c : Conn K) (h : H) (got : List ℕ)
      → 0 < length got
      → c.recvbuf ≡ []
      → client_process_pkt crypt process now c h got
        ≡ keep_rest crypt process
            (loop crypt process (suc (length got)) now (record c { recvbuf = [] }) h got)
  unfolding client_process_pkt
  client_process_pkt-loop now c h [] lt empty = elim lt [ ]
  client_process_pkt-loop now c h (x ∷ got) lt empty = rw empty refl

  -- Packets that a client encrypts one after the other and sends reach the handlers decrypted, whole
  -- and in order, up to the first that a handler fails on: the call returns what the handlers, run
  -- on the packets themselves, return, and leaves them the same state. The cipher's two directions
  -- undo each other, each packet is of whole headers with a length field that fits, no bytes are
  -- buffered, and at least one packet is sent.
  pub client_process_pkt-wire :
      (now : ℕ) (c : Conn K) (h : H) (p : List ℕ) (ps : List (List ℕ))
      → IsCipher c.hdr_size crypt encrypt
      → IsHeader c.hdr_size
      → c.hdr_read ≡ false
      → c.recvbuf ≡ []
      → All (IsPacket c.version c.hdr_size) (p ∷ ps)
      → answer (client_process_pkt crypt process now c h (wire encrypt c.key (p ∷ ps)))
        ≡ some (serve (process c.type_ship) h (p ∷ ps))
  unfolding wire
  client_process_pkt-wire now c h p ps cipher size unread empty ok =
      let got = wire encrypt c.key (p ∷ ps) in
      let len : length (encrypt c.key p).0 ≡ length p = cipher.keeps_length c.key p ok.0.0 in
      let some_bytes : 0 < length got =
        ground (arith, length-append (encrypt c.key p).0 (wire encrypt (encrypt c.key p).1 ps)) in
      let c' = record c { recvbuf = [] } in
      ap answer (client_process_pkt-loop now c h got some_bytes empty)
      ∙ keep_rest-ending (loop crypt process (suc (length got)) now c' h got)
          (serve (process c.type_ship) h (p ∷ ps))
          (loop-wire (p ∷ ps) (suc (length got)) now c' h cipher size unread ok (omega arith))

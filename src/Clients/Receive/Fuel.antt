-- ===== src/Clients/Receive/Fuel.antt =====
-- The loop of `client_process_pkt` of src/clients.c takes bytes away in each pass, so that any fuel
-- above their number serves.
use ship_server.Base.{
  ℕ, zero, suc, ◌≡◌, ◌<◌, inl, inr, refl, ap, Bool, false, List, Option, none, some, length, drop,
  ltb, if◌then◌else◌, ℤ, pos, negsuc, arith, Bool-cases, length-drop,
}
use ship_server.Clients.Receive.{
  Conn, rounded, Pass, Loop, read_header, take_packet, check_length, pass, after, loop,
}
use ship_server.Clients.Receive.Keeps.{IsHeader}
use ship_server.Clients.Receive.Pass.{faulted, refused, waits, handled}
use ship_server.Clients.Receive.Loop.{left}

module _ {K H : Type 0} (crypt : K → List ℕ → List ℕ × K)
    (process : Bool → H → List ℕ → ℤ × H) where
  -- A pass keeps the size of a header, and a packet that is handled takes bytes away.
  abbrev pub Progress : ℕ → ℕ → Pass K H → Type 0
  Progress hsz len faulted = Unit
  Progress hsz len (refused c) = Unit
  Progress hsz len (waits c) = c.hdr_size ≡ hsz
  Progress hsz len (handled rv c h rest) = (c.hdr_size ≡ hsz) × (length rest < len)

  check_length-Progress :
      (now : ℕ) (c : Conn K) (h : H) (buf : List ℕ) (field : Option ℕ)
      → IsHeader c.hdr_size
      → Progress c.hdr_size (length buf) (check_length crypt process now c h buf field)
  unfolding check_length take_packet
  check_length-Progress now c h buf none size = tt
  check_length-Progress now c h buf (some len) size = elim (Bool-cases (ltb len c.hdr_size)) [
    | inl e ↦ rw e tt
    | inr e ↦ rw e (elim (Bool-cases (ltb (length buf) (rounded c.hdr_size len))) [
      | inl e2 ↦ rw e2 refl
      | inr e2 ↦ rw e2 (elim (Bool-cases (ltb (rounded c.hdr_size len) c.hdr_size)) [
        | inl e3 ↦ rw e3 tt
        | inr e3 ↦ rw e3 (refl, shorter e2 e3)
      ])
    ])
  ]
    where
      shorter :
          ltb (length buf) (rounded c.hdr_size len) ≡ false
          → ltb (rounded c.hdr_size len) c.hdr_size ≡ false
          → length (drop (rounded c.hdr_size len) buf) < length buf
      shorter e2 e3 = ground (arith, length-drop (rounded c.hdr_size len) buf)

  pub pass-Progress :
      (now : ℕ) (c : Conn K) (h : H) (buf : List ℕ)
      → IsHeader c.hdr_size
      → Progress c.hdr_size (length buf) (pass crypt process now c h buf)
  unfolding pass read_header
  pass-Progress now c h buf size =
      check_length-Progress now (read_header crypt process c buf) h buf _ size

  after-cong :
      {hsz len : ℕ} (h : H) (buf : List ℕ) (f g : Conn K → H → List ℕ → Loop K H) (p : Pass K H)
      → Progress hsz len p
      → ((c : Conn K) (h' : H) (rest : List ℕ)
          → c.hdr_size ≡ hsz
          → length rest < len
          → f c h' rest ≡ g c h' rest)
      → after crypt process h buf f p ≡ after crypt process h buf g p
  unfolding after
  after-cong h buf f g faulted s e = refl
  after-cong h buf f g (refused c) s e = refl
  after-cong h buf f g (waits c) s e = refl
  after-cong h buf f g (handled (pos zero) c h' rest) s e = e c h' rest s.0 s.1
  after-cong h buf f g (handled (pos (suc n)) c h' rest) s e = refl
  after-cong h buf f g (handled (negsuc n) c h' rest) s e = refl

  loop-fuel :
      (n m now : ℕ) (c : Conn K) (h : H) (buf : List ℕ)
      → IsHeader c.hdr_size
      → length buf < n
      → length buf < m
      → loop crypt process n now c h buf ≡ loop crypt process m now c h buf
  unfolding loop
  loop-fuel zero m now c h buf size le le' = elim le [ ]
  loop-fuel (suc n) zero now c h buf size le le' = elim le' [ ]
  loop-fuel (suc n) (suc m) now c h buf size le le' =
      ap (λ t. if ltb (length buf) c.hdr_size then left (pos 0) c h buf else t)
        (after-cong h buf _ _ (pass crypt process now c h buf) (pass-Progress now c h buf size)
          (λ c' h' rest e lt. loop-fuel n m now c' h' rest (rw e size) (omega arith) (omega arith)))

  -- The loop with the fuel that `client_process_pkt` gives it.
  abbrev pub run : ℕ → Conn K → H → List ℕ → Loop K H
  run now c h buf = loop crypt process (suc (length buf)) now c h buf

  pub loop-run :
      (n now : ℕ) (c : Conn K) (h : H) (buf : List ℕ)
      → IsHeader c.hdr_size
      → length buf < n
      → loop crypt process n now c h buf ≡ run now c h buf
  loop-run n now c h buf size le = loop-fuel n (suc (length buf)) now c h buf size le (omega arith)

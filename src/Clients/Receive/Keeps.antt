-- ===== src/Clients/Receive/Keeps.antt =====
-- `client_process_pkt` of src/clients.c: what each pass keeps, the loop keeps.
use ship_server.Base.{
  ℕ, zero, suc, ◌≡◌, ◌<◌, ◌⊎◌, inl, inr, Bool, List, length, ltb, ℤ, pos, negsuc, arith, Bool-cases,
}
use ship_server.Clients.Receive.{Conn, Pass, Loop, pass, after, loop}
use ship_server.Clients.Receive.Pass.{faulted, refused, waits, handled}
use ship_server.Clients.Receive.Loop.{out_of_fuel, crashed, booted, left}

-- The sizes of a header: 8 for Blue Burst, 4 for the others.
abbrev pub IsHeader : ℕ → Type 0
IsHeader hsz = (hsz ≡ 4) ⊎ (hsz ≡ 8)

-- `I` holds of the client after a pass, and `E` of the client and the bytes that wait.
module _ {K H : Type 0} (I : Conn K → Type 0) (E : Conn K → List ℕ → Type 0) where
  abbrev pub PassKeeps : List ℕ → Pass K H → Type 0
  PassKeeps buf faulted = Unit
  PassKeeps buf (refused c) = I c
  PassKeeps buf (waits c) = E c buf
  PassKeeps buf (handled rv c h rest) = I c

  abbrev pub LoopKeeps : Loop K H → Type 0
  LoopKeeps out_of_fuel = Unit
  LoopKeeps crashed = Unit
  LoopKeeps (booted c h) = I c
  LoopKeeps (left (pos zero) c h rest) = E c rest
  LoopKeeps (left (pos (suc n)) c h rest) = I c
  LoopKeeps (left (negsuc n) c h rest) = I c

module _ {K H : Type 0} (crypt : K → List ℕ → List ℕ × K) (process : Bool → H → List ℕ → ℤ × H)
    (I : Conn K → Type 0) (E : Conn K → List ℕ → Type 0) where
  after-LoopKeeps :
      (h : H) (buf : List ℕ) (again : Conn K → H → List ℕ → Loop K H) (p : Pass K H)
      → PassKeeps I E buf p
      → ((c : Conn K) (h' : H) (rest : List ℕ) → I c → LoopKeeps I E (again c h' rest))
      → LoopKeeps I E (after crypt process h buf again p)
  unfolding after
  after-LoopKeeps h buf again faulted k ih = tt
  after-LoopKeeps h buf again (refused c) k ih = k
  after-LoopKeeps h buf again (waits c) k ih = k
  after-LoopKeeps h buf again (handled (pos zero) c h' rest) k ih = ih c h' rest k
  after-LoopKeeps h buf again (handled (pos (suc n)) c h' rest) k ih = k
  after-LoopKeeps h buf again (handled (negsuc n) c h' rest) k ih = k

  pub loop-LoopKeeps :
      (fuel now : ℕ) (c : Conn K) (h : H) (buf : List ℕ)
      → ((c : Conn K) (h : H) (buf : List ℕ)
          → I c
          → PassKeeps I E buf (pass crypt process now c h buf))
      → ((c : Conn K) (buf : List ℕ) → I c → length buf < c.hdr_size → E c buf)
      → I c
      → LoopKeeps I E (loop crypt process fuel now c h buf)
  unfolding loop
  loop-LoopKeeps zero now c h buf keeps short i = tt
  loop-LoopKeeps (suc fuel) now c h buf keeps short i =
      elim (Bool-cases (ltb (length buf) c.hdr_size)) [
        | inl e ↦ rw e (short c buf i (ground arith))
        | inr e ↦ rw e (
            after-LoopKeeps h buf (loop crypt process fuel now) (pass crypt process now c h buf)
              (keeps c h buf i)
              (λ c' h' rest i'. loop-LoopKeeps fuel now c' h' rest keeps short i'))
      ]

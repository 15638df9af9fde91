-- ===== src/Clients/Receive/Examples.antt =====
-- Runs of `client_process_pkt` and of the theorems on it, with a cipher that adds a running number.
use ship_server.Base.{
  ℕ, zero, suc, ◌+◌, ◌-◌, ◌%◌, ◌≡◌, ◌≢◌, inl, refl, ap, Bool, true, false, List, [], ◌∷◌, ◌++◌,
  some, length, ℤ, pos, neg, arith,
}
use ship_server.Clients.Receive.{
  Conn, packet_length, rounded, client_process_pkt, loop, pass, read_header, check_length,
  take_packet, after, keep_rest,
}
use ship_server.Clients.Receive.Result.{no_fuel, fault}
use ship_server.Clients.Receive.Chunks.{client_process_pkt-append, then_receive}
use ship_server.Clients.Receive.Bounds.{
  AreBytes, client_process_pkt-ends, client_process_pkt-LeavesRoom, client_process_pkt-faults,
  LeavesRoom,
}
use ship_server.Clients.Receive.Stream.{IsCipher, wire, serve, answer, client_process_pkt-wire}

-- The key is a number that each byte is moved up by, and that each byte raises.
unfoldable encrypt : ℕ → List ℕ → List ℕ × ℕ
encrypt k [] = ([], k)
encrypt k (x ∷ xs) = let rest = encrypt (suc k) xs in ((x + k) ∷ rest.0, rest.1)

unfoldable crypt : ℕ → List ℕ → List ℕ × ℕ
crypt k [] = ([], k)
crypt k (x ∷ xs) = let rest = crypt (suc k) xs in ((x - k) ∷ rest.0, rest.1)

-- A handler that collects the packets and fails on those of type 0.
unfoldable collect : Bool → List (List ℕ) → List ℕ → ℤ × List (List ℕ)
collect ship seen [] = (neg 1, seen)
collect ship seen (zero ∷ p) = (neg 1, seen)
collect ship seen (suc t ∷ p) = (pos 0, seen ++ ((suc t ∷ p) ∷ []))

crypt-encrypt : (k : ℕ) (bs : List ℕ) → crypt k (encrypt k bs).0 ≡ (bs, (encrypt k bs).1)
unfolding crypt encrypt
crypt-encrypt k [] = refl
crypt-encrypt k (x ∷ xs) =
    let e : x + k - k ≡ x = omega arith in rw e (rw (crypt-encrypt (suc k) xs) refl)

encrypt-append :
    (k : ℕ) (xs ys : List ℕ)
    → encrypt k (xs ++ ys)
      ≡ ((encrypt k xs).0 ++ (encrypt (encrypt k xs).1 ys).0, (encrypt (encrypt k xs).1 ys).1)
unfolding encrypt
encrypt-append k [] ys = refl
encrypt-append k (x ∷ xs) ys = rw (encrypt-append (suc k) xs ys) refl

length-encrypt : (k : ℕ) (xs : List ℕ) → length (encrypt k xs).0 ≡ length xs
unfolding encrypt
length-encrypt k [] = refl
length-encrypt k (x ∷ xs) = ap suc (length-encrypt (suc k) xs)

adds : IsCipher 4 crypt encrypt
adds = record {
  undoes = λ k bs h. crypt-encrypt k bs;
  goes_on = λ k xs bs h h'. encrypt-append k xs bs;
  keeps_length = λ k bs h. length-encrypt k bs;
}

abbrev chat : List ℕ
chat = 6 ∷ 0 ∷ 8 ∷ 0 ∷ 65 ∷ 66 ∷ 67 ∷ 0 ∷ []

-- Its length field, 6, is rounded up to 8.
abbrev ping : List ℕ
ping = 29 ∷ 0 ∷ 6 ∷ 0 ∷ 1 ∷ 2 ∷ 3 ∷ 4 ∷ []

abbrev conn : Conn ℕ
conn = record {
  key = 5;
  pkt = [];
  version = 0;
  hdr_size = 4;
  type_ship = false;
  hdr_read = false;
  recvbuf = [];
  last_message = 0;
  logging = true;
  log = [];
}

one_packet :
    answer
      (client_process_pkt crypt collect 9 conn [] (11 ∷ 6 ∷ 15 ∷ 8 ∷ 74 ∷ 76 ∷ 78 ∷ 12 ∷ 9 ∷ []))
    ≡ some (pos 0, chat ∷ [])
unfolding client_process_pkt crypt collect loop pass read_header check_length take_packet after
    keep_rest packet_length rounded
one_packet = refl

client_process_pkt-wire_example :
    answer (client_process_pkt crypt collect 9 conn [] (wire encrypt 5 (chat ∷ ping ∷ [])))
    ≡ some (serve (collect false) [] (chat ∷ ping ∷ []))
unfolding packet_length rounded
client_process_pkt-wire_example =
    client_process_pkt-wire crypt encrypt collect 9 conn [] chat (ping ∷ []) adds (inl refl) refl
      refl
      (
        (refl, omega arith, (8, refl, omega arith, refl)),
        ((refl, omega arith, (6, refl, omega arith, refl)), tt),
      )

client_process_pkt-append_example :
    client_process_pkt crypt collect 9 conn [] ((11 ∷ 6 ∷ 15 ∷ []) ++ (8 ∷ 74 ∷ []))
    ≡ then_receive crypt collect 9
        (8 ∷ 74 ∷ [])
        (client_process_pkt crypt collect 9 conn [] (11 ∷ 6 ∷ 15 ∷ []))
client_process_pkt-append_example =
    client_process_pkt-append crypt collect 9 11 8 (6 ∷ 15 ∷ []) (74 ∷ []) conn [] (inl refl)

client_process_pkt-ends_example :
    client_process_pkt crypt collect 9 conn [] (11 ∷ 6 ∷ 15 ∷ 8 ∷ 74 ∷ []) ≢ no_fuel
client_process_pkt-ends_example =
    client_process_pkt-ends crypt collect 9 conn [] (11 ∷ 6 ∷ 15 ∷ 8 ∷ 74 ∷ []) (inl refl)

-- A header of type 1 with the length 65533.
client_process_pkt-faults_example :
    client_process_pkt crypt collect 9 conn [] (6 ∷ 6 ∷ 260 ∷ 263 ∷ []) ≡ fault
unfolding packet_length crypt
client_process_pkt-faults_example =
    client_process_pkt-faults crypt collect 9 65533 6 conn [] (6 ∷ 260 ∷ 263 ∷ []) (inl refl) refl
      refl (omega arith) refl (omega arith) (omega arith)

-- A cipher that leaves the bytes alone.
unfoldable bytes_of : ℕ → List ℕ → List ℕ × ℕ
bytes_of k [] = ([], k)
bytes_of k (x ∷ xs) = ((x % 256) ∷ (bytes_of k xs).0, (bytes_of k xs).1)

bytes_of-AreBytes : (k : ℕ) (bs : List ℕ) → AreBytes (bytes_of k bs).0
unfolding bytes_of
bytes_of-AreBytes k [] = tt
bytes_of-AreBytes k (x ∷ xs) = (omega arith, bytes_of-AreBytes k xs)

client_process_pkt-LeavesRoom_example :
    LeavesRoom bytes_of collect bytes_of-AreBytes
      (client_process_pkt bytes_of collect 9 conn [] (6 ∷ 0 ∷ 8 ∷ 0 ∷ 65 ∷ []))
client_process_pkt-LeavesRoom_example =
    client_process_pkt-LeavesRoom bytes_of collect bytes_of-AreBytes 9 conn []
      (6 ∷ 0 ∷ 8 ∷ 0 ∷ 65 ∷ []) (inl refl, tt)

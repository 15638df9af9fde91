-- ===== src/Clients/Receive.antt =====
-- src/clients.c: `client_process_pkt`, which cuts the bytes that a client sent into packets,
-- decrypts them and hands them to the handlers. The cipher and the handlers are parameters;
-- allocations succeed, the buffer that the code frees is empty, and the handlers change a state of
-- their own but nothing of the connection.
pub mod Keeps
pub mod Fuel
pub mod Chunks
pub mod Bounds
pub mod Stream
mod Examples
use ship_server.Base.{
  ℕ, zero, suc, ◌+◌, ◌-◌, ◌*◌, ◌%◌, Bool, true, false, not, ◌&&◌, List, [], ◌∷◌, ◌++◌, Option, none,
  some, length, take, drop, get_or, ltb, leb, ◌==◌, if◌then◌else◌, ℤ, pos, negsuc, neg, u16,
}

-- What the loop uses of a client. `hdr_read` is CLIENT_FLAG_HDR_READ, `type_ship` is
-- CLIENT_FLAG_TYPE_SHIP, `key` is `ckey`, `recvbuf` holds the `recvbuf_cur` bytes that wait.
pub record Conn (K : Type 0) : Type 0 where
  pub key : K
  pub pkt : List ℕ
  pub version : ℕ
  pub hdr_size : ℕ
  pub type_ship : Bool
  pub hdr_read : Bool
  pub recvbuf : List ℕ
  pub last_message : ℕ
  pub logging : Bool
  pub log : List (List ℕ)

-- The length field at a place of the header, little endian.
abbrev pub le16 : List ℕ → ℕ → ℕ
le16 bytes i = get_or bytes i 0 + 256 * get_or bytes (i + 1) 0

-- The switch on the version: after the type and the flags on the Dreamcast, the GameCube and the
-- Xbox, first on the PC and for Blue Burst; `none` for a version that there is not.
pub packet_length : ℕ → List ℕ → Option ℕ
packet_length version pkt =
    if ltb version 2
    then some (le16 pkt 2)
    else if version == 2
    then some (le16 pkt 0)
    else if ltb version 5
    then some (le16 pkt 2)
    else if version == 5
    then some (le16 pkt 0)
    else if version == 6
    then some (le16 pkt 2)
    else none

-- The length rounded up to whole headers, in a uint16_t.
pub rounded : ℕ → ℕ → ℕ
rounded hsz len = if len % hsz == 0 then len else (len - len % hsz + hsz) % u16

-- One pass of the loop. `faulted` is the call that decrypts a negative number of bytes.
pub data Pass (K H : Type 0) : Type 0 where
  faulted : Pass K H
  refused : Conn K → Pass K H
  waits : Conn K → Pass K H
  handled : ℤ → Conn K → H → List ℕ → Pass K H

-- How the loop ends: `left` with the last answer and the bytes that remain.
pub data Loop (K H : Type 0) : Type 0 where
  out_of_fuel : Loop K H
  crashed : Loop K H
  booted : Conn K → H → Loop K H
  left : ℤ → Conn K → H → List ℕ → Loop K H

pub data Result (K H : Type 0) : Type 0 where
  no_fuel : Result K H
  fault : Result K H
  returned : ℤ → Conn K → H → Result K H

module _ {K H : Type 0} (crypt : K → List ℕ → List ℕ × K)
    (process : Bool → H → List ℕ → ℤ × H) where
  pub read_header : Conn K → List ℕ → Conn K
  read_header c buf =
      let header = crypt c.key (take c.hdr_size buf) in
      record c {
        key = if c.hdr_read then c.key else header.1;
        pkt = if c.hdr_read then c.pkt else header.0;
        hdr_read = true;
      }

  -- The body is decrypted, and the packet logged and handed to the ship's or the block's handler.
  pub take_packet : ℕ → Conn K → H → List ℕ → ℕ → Pass K H
  take_packet now c h buf size =
      let body = crypt c.key (take (size - c.hdr_size) (drop c.hdr_size buf)) in
      let packet = c.pkt ++ body.0 in
      let answer = process c.type_ship h packet in
      handled answer.0
        (record c {
          key = body.1;
          hdr_read = false;
          last_message = now;
          log = if c.logging then c.log ++ (packet ∷ []) else c.log;
        })
        answer.1 (drop size buf)

  pub check_length : ℕ → Conn K → H → List ℕ → Option ℕ → Pass K H
  check_length now c h buf none = refused c
  check_length now c h buf (some len) =
      let size = rounded c.hdr_size len in
      if ltb len c.hdr_size
      then refused c
      else if ltb (length buf) size
      then waits c
      else if ltb size c.hdr_size
      then faulted
      else take_packet now c h buf size

  pub pass : ℕ → Conn K → H → List ℕ → Pass K H
  pass now c h buf =
      let c' = read_header c buf in check_length now c' h buf (packet_length c'.version c'.pkt)

  -- What follows a pass: `again` is the rest of the loop.
  pub after : H → List ℕ → (Conn K → H → List ℕ → Loop K H) → Pass K H → Loop K H
  after h buf again faulted = crashed
  after h buf again (refused c) = booted c h
  after h buf again (waits c) = left (pos 0) c h buf
  after h buf again (handled (pos zero) c h' rest) = again c h' rest
  after h buf again (handled (pos (suc n)) c h' rest) = left (pos (suc n)) c h' rest
  after h buf again (handled (negsuc n) c h' rest) = left (negsuc n) c h' rest

  pub loop : ℕ → ℕ → Conn K → H → List ℕ → Loop K H
  loop zero now c h buf = out_of_fuel
  loop (suc fuel) now c h buf =
      if ltb (length buf) c.hdr_size
      then left (pos 0) c h buf
      else after h buf (loop fuel now) (pass now c h buf)

  -- The bytes that remain are kept unless a handler failed.
  pub keep_rest : Loop K H → Result K H
  keep_rest out_of_fuel = no_fuel
  keep_rest crashed = fault
  keep_rest (booted c h) = returned (neg 1) c h
  keep_rest (left (pos zero) c h rest) = returned (pos 0) (record c { recvbuf = rest }) h
  keep_rest (left (pos (suc n)) c h rest) = returned (pos (suc n)) c h
  keep_rest (left (negsuc n) c h rest) = returned (negsuc n) c h

  -- `got` is what `recv` gave, empty when it failed or the client hung up.
  pub client_process_pkt : ℕ → Conn K → H → List ℕ → Result K H
  client_process_pkt now c h [] = returned (neg 1) c h
  client_process_pkt now c h (x ∷ got) =
      let buf = c.recvbuf ++ (x ∷ got) in
      keep_rest (loop (suc (length buf)) now (record c { recvbuf = [] }) h buf)

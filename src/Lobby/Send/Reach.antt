-- ===== src/Lobby/Send/Reach.antt =====
-- Who in a lobby is sent a packet, and in which form: the senders of src/subcmd.c and
-- src/subcmd-dcnte.c.
use ship_server.Base.{
  ℕ, zero, suc, ◌≡◌, Bool, ◌&&◌, not, List, [], ◌∷◌, map, Option, none, some, All, ◌==◌,
  if◌then◌else◌,
}
use ship_server.Lobby.Send.{Peer, Sent, is_nte, client_has_ignored}
use ship_server.Lobby.Send.Sent.{dc_form, bb_form, nte_to_dc, dc_to_nte, bb_to_nte, swapped}

-- The clients in the first n slots.
unfoldable pub members : ℕ → List (Option ℕ) → List ℕ
members zero slots = []
members (suc n) [] = []
members (suc n) (none ∷ slots) = members n slots
members (suc n) (some r ∷ slots) = r ∷ members n slots

unfoldable pub keep : (ℕ → Bool) → List ℕ → List ℕ
keep test [] = []
keep test (r ∷ rs) = let rest = keep test rs in if test r then r ∷ rest else rest

module _ {P : Type 0} where
  -- Whom a packet goes to.
  unfoldable pub receiver : Sent P → ℕ
  receiver (dc_form r p) = r
  receiver (bb_form r p) = r
  receiver (nte_to_dc r p) = r
  receiver (dc_to_nte r p) = r
  receiver (bb_to_nte r p) = r
  receiver (swapped r p) = r

  -- The packets go to the clients that a test takes, in the order of the slots, each in its form.
  abbrev pub Reaches :
      (ℕ → Bool) → (Sent P → Type 0) → ℕ → List (Option ℕ) → Option (List (Sent P)) → Type 0
  Reaches test Fits n slots out =
      (os : List (Sent P)) × (out ≡ some os)
      × (map receiver os ≡ keep test (members n slots))
      × All Fits os

-- Who should be sent what s sends: the others, less those who ignore s where that is asked.
unfoldable pub wants : (ℕ → Peer) → ℕ → Bool → ℕ → Bool
wants peers s igcheck r =
    not (s == r) && not (igcheck && client_has_ignored (peers r) (peers s).guildcard)

module _ {P : Type 0} (peers : ℕ → Peer) (pkt : P) where
  -- A packet of the sender's edition goes as it is to the clients of that edition, and to the others
  -- by way of a translation; `nte` says whether it is the network trial edition.
  abbrev pub IsSuited : Bool → (ℕ → P → Sent P) → (ℕ → P → Sent P) → Sent P → Type 0
  IsSuited nte plain translated o =
      (is_nte (peers (receiver o)) ≡ nte → o ≡ plain (receiver o) pkt)
      × (is_nte (peers (receiver o)) ≡ not nte → o ≡ translated (receiver o) pkt)

  module _ (plain translated : ℕ → P → Sent P) (to : (r : ℕ) → receiver (plain r pkt) ≡ r)
      (to' : (r : ℕ) → receiver (translated r pkt) ≡ r) where
    from_nte : ℕ → Sent P
    from_nte r = if is_nte (peers r) then plain r pkt else translated r pkt

    from_others : ℕ → Sent P
    from_others r = if not (is_nte (peers r)) then plain r pkt else translated r pkt

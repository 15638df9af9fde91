-- ===== src/Lobby/Legit.antt =====
-- src/lobby.c: `lobby_check_player_legit` and `lobby_check_client_legit`. The check of one item
-- is the library's; the client's mutex is whether it is held.
mod Examples
use ship_server.Base.{
  ℕ, ◌≡◌, ◌↔◌, ◌⊎◌, inl, inr, All, Bool-cases, refl, Bool, true, false, ◌&&◌, ◌||◌, not, List, [],
  ◌∷◌, ◌==◌, if◌then◌else◌, has_flag, arith, take,
}
use ship_server.Items.{Item}
use ship_server.Lobby.{Lobby, Client, dcv1, dcv2, pc, gc, xbox}
use ship_server.Lobby.Flag

-- ITEM_VERSION_* of the library.
pub record ItemVersions : Type 0 where
  pub v1 : ℕ
  pub v2 : ℕ
  pub gc : ℕ
  pub xbox : ℕ

module _ (versions : ItemVersions) (check_item : Item → ℕ → Bool) where
  -- The loop over the inventory: `rv` becomes 0 at an item that fails, and stays 0.
  check_items : List Item → ℕ → Bool
  check_items [] v = true
  check_items (it ∷ l) v = let rest = check_items l v in if check_item it v then rest else false

  -- `has_limits` is whether the lobby has a list of limits; `items` those of the inventory in use.
  lobby_check_player_legit : Bool → Lobby → List Item → ℕ → Bool
  unfolding check_items
  lobby_check_player_legit has_limits l items v =
      if not has_limits || not (has_flag l.flags Flag.legit_mode) then true else check_items items v

  -- The answer, and whether the client's mutex is held afterwards.
  lobby_check_client_legit : Bool → Lobby → Client → List Item → Bool × Bool
  unfolding lobby_check_player_legit
  lobby_check_client_legit has_limits l c items =
      let check : ℕ → Bool × Bool = λ v. (lobby_check_player_legit has_limits l items v, false) in
      if c.version == dcv1
      then check versions.v1
      else if c.version == dcv2 || c.version == pc
      then check versions.v2
      else if c.version == gc
      then check versions.gc
      else if c.version == xbox
      then check versions.xbox
      else (true, true)

  -- `lobby_check_client_legit` gives the client's mutex back exactly for the versions that it
  -- knows: after a check of an Episode 3 or Blue Burst client the mutex stays held.
  lobby_check_client_legit-unlocks :
      (has_limits : Bool) (l : Lobby) (c : Client) (items : List Item)
      → (lobby_check_client_legit has_limits l c items).1
        ≡ not (
            c.version == dcv1
            || c.version == dcv2
            || c.version == pc
            || c.version == gc
            || c.version == xbox)
  unfolding lobby_check_client_legit
  lobby_check_client_legit-unlocks has_limits l c items = ground arith

  check_items-All :
      (l : List Item) (v : ℕ) → (check_items l v ≡ true) ↔ All (λ it. check_item it v ≡ true) l
  unfolding check_items
  check_items-All [] v = (λ e. tt, λ h. refl)
  check_items-All (it ∷ l) v = (
    λ e. ground (arith, (check_items-All l v).0),
    λ h. ground (arith, (check_items-All l v).1 h.1),
  )

  -- A player is legit in a lobby exactly when the lobby has no list of limits, is not in legit
  -- mode, or every item of the inventory passes the list's check for the version.
  lobby_check_player_legit_lem :
      (has_limits : Bool) (l : Lobby) (items : List Item) (v : ℕ)
      → (lobby_check_player_legit has_limits l items v ≡ true) ↔ (
          (has_limits ≡ false)
          ⊎ (has_flag l.flags Flag.legit_mode ≡ false)
          ⊎ All (λ it. check_item it v ≡ true) items)
  unfolding lobby_check_player_legit
  lobby_check_player_legit_lem has_limits l items v = (
    λ e. elim (Bool-cases has_limits) [
      | inr n ↦ inl n
      | inl y ↦ elim (Bool-cases (has_flag l.flags Flag.legit_mode)) [
        | inr n ↦ inr (inl n)
        | inl f ↦ inr (inr ((check_items-All items v).0 (rw (y, f) at e)))
      ]
    ],
    λ h. elim h [
      | inl n ↦ rw n refl
      | inr r ↦ elim r [
        | inl n ↦ ground arith
        | inr a ↦ ground (arith, (check_items-All items v).1 a)
      ]
    ],
  )

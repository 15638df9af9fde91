-- ===== src/Bans/Guildcards.antt =====
-- Guildcard bans: adding, lifting and asking, against each other.
use ship_server.Base.{
  ℕ, ◌+◌, ◌≡◌, ◌≢◌, ◌↔◌, refl, ◌∙◌, Bool, true, false, ◌&&◌, ◌||◌, List, [], ◌∷◌, ◌++◌, Option,
  none, some, arith, ◌==◌, if◌then◌else◌, ℤ, pos, neg, ltb_ℤ, ltb_ℤ_trans,
}
use ship_server.Bans.{
  GuildcardBan, BanLists, Lifted, Freed, next_freed, has_expired, is_active, lift_code,
  lift_guildcards, ban_guildcard, ban_lift_guildcard_ban, find_guildcard, is_guildcard_banned,
  stored,
}

-- Some ban of the guildcard is on the list.
pub has_ban : ℕ → List GuildcardBan → Bool
has_ban g [] = false
has_ban g (i ∷ l) = i.banned_gc == g || has_ban g l

-- Some ban of the guildcard, once freed, reads as one that has run out.
unfoldable pub stale_match : Freed → ℕ → ℤ → List GuildcardBan → Bool
stale_match freed g now [] = false
stale_match freed g now (i ∷ l) =
    (i.banned_gc == g && has_expired now (freed 0)) || stale_match (next_freed freed) g now l

-- What a lift leaves: the bans of others that have not run out.
remaining : ℕ → ℤ → List GuildcardBan → List GuildcardBan
remaining g now [] = []
remaining g now (i ∷ l) =
    let rest = remaining g now l in
    if i.banned_gc == g || has_expired now i.end_time then rest else i ∷ rest

-- How many bans a lift removes, and how many bans the guildcard has.
removals : ℕ → ℤ → List GuildcardBan → ℕ
removals g now [] = 0
removals g now (i ∷ l) =
    (if i.banned_gc == g || has_expired now i.end_time then 1 else 0) + removals g now l

matches : ℕ → List GuildcardBan → ℕ
matches g [] = 0
matches g (i ∷ l) = (if i.banned_gc == g then 1 else 0) + matches g l

abbrev lifted_of : Freed → ℕ → ℤ → List GuildcardBan → Lifted GuildcardBan
lifted_of freed g now l =
    if stale_match freed g now l
    then none
    else some (remaining g now l, removals g now l, matches g l)

lift_guildcards-eq-lifted_of :
    (freed : Freed) (g : ℕ) (now : ℤ) (l : List GuildcardBan)
    → lift_guildcards freed g now l ≡ lifted_of freed g now l
unfolding lift_guildcards stale_match remaining removals matches
lift_guildcards-eq-lifted_of freed g now [] = refl
lift_guildcards-eq-lifted_of freed g now (i ∷ l) =
    ground (arith, lift_guildcards-eq-lifted_of (next_freed freed) g now l)

-- The freed memory of every entry reads as e.
abbrev pub all_freed : ℤ → Freed
all_freed e n = e

stale_match-all_freed :
    (g : ℕ) (now e : ℤ) (l : List GuildcardBan)
    → stale_match (all_freed e) g now l ≡ (has_ban g l && has_expired now e)
unfolding stale_match has_ban
stale_match-all_freed g now e [] = refl
stale_match-all_freed g now e (i ∷ l) = ground (arith, stale_match-all_freed g now e l)

faults-stale_match :
    (freed : Freed) (s : BanLists) (saved : Bool) (now : ℤ) (g : ℕ)
    → (ban_lift_guildcard_ban freed s saved now g ≡ none)
      ↔ (stale_match freed g now s.guildcard_bans ≡ true)
unfolding ban_lift_guildcard_ban
faults-stale_match freed s saved now g = (
  λ e. ground (arith, lift_guildcards-eq-lifted_of freed g now s.guildcard_bans),
  λ e. ground (arith, lift_guildcards-eq-lifted_of freed g now s.guildcard_bans),
)

-- `ban_lift_guildcard_ban` reads the end of every ban that it lifts after the ban is freed, and
-- removes and frees the entry a second time exactly when such a read gives a time that has run out.
-- So for any guildcard that has a ban, whatever the end of the ban was, this is up to the freed
-- memory: it happens if that reads as any time that has run out, and does not if it reads as -1.
-- For a guildcard without a ban it does not happen.
pub ban_lift_guildcard_ban-faults :
    (freed : Freed) (s : BanLists) (saved : Bool) (now e : ℤ) (g : ℕ)
    → has_expired now e ≡ true
    → ((ban_lift_guildcard_ban freed s saved now g ≡ none)
        ↔ (stale_match freed g now s.guildcard_bans ≡ true))
      × ((ban_lift_guildcard_ban (all_freed e) s saved now g ≡ none)
          ↔ (has_ban g s.guildcard_bans ≡ true))
      × (ban_lift_guildcard_ban (all_freed (neg 1)) s saved now g ≢ none)
ban_lift_guildcard_ban-faults freed s saved now e g h =
    let all = faults-stale_match (all_freed e) s saved now g in
    (
      faults-stale_match freed s saved now g,
      (
        λ q. ground (arith, all.0 q, stale_match-all_freed g now e s.guildcard_bans),
        λ b. all.1 (stale_match-all_freed g now e s.guildcard_bans ∙ rw (b, h) refl),
      ),
      λ q. ground (
        arith,
        (faults-stale_match (all_freed (neg 1)) s saved now g).0 q,
        stale_match-all_freed g now (neg 1) s.guildcard_bans,
      ),
    )

find-remaining_self :
    (g : ℕ) (now later : ℤ) (l : List GuildcardBan)
    → find_guildcard later g (remaining g now l) ≡ none
unfolding find_guildcard remaining
find-remaining_self g now later [] = refl
find-remaining_self g now later (i ∷ l) = ground (arith, find-remaining_self g now later l)

-- A ban that has run out is not active later.
pub expired-not-active :
    (now later end_time : ℤ)
    → ltb_ℤ later now ≡ false
    → has_expired now end_time ≡ true
    → is_active later end_time ≡ false
expired-not-active now later end_time h e = ground (arith, ltb_ℤ_trans end_time now later)

find-remaining_other :
    (g other : ℕ) (now later : ℤ) (l : List GuildcardBan)
    → other ≢ g
    → ltb_ℤ later now ≡ false
    → find_guildcard later other (remaining g now l) ≡ find_guildcard later other l
unfolding find_guildcard remaining
find-remaining_other g other now later [] ne h = refl
find-remaining_other g other now later (i ∷ l) ne h =
    ground
      (arith, find-remaining_other g other now later l, expired-not-active now later i.end_time)

-- `ban_lift_guildcard_ban` ends in lists in which, from now on, that guildcard is not banned and
-- every other guildcard is banned as before; the address bans are as they were. The code reads the
-- end of each ban that it lifts after the ban is freed, which C leaves undefined: that holds when
-- none of these reads gives a time that has run out, and whatever else they give.
pub ban_lift_guildcard_ban_lem :
    (freed : Freed) (s : BanLists) (saved : Bool) (now later : ℤ) (g other : ℕ)
    → stale_match freed g now s.guildcard_bans ≡ false
    → ltb_ℤ later now ≡ false
    → (code : ℤ) × (s' : BanLists) × (ban_lift_guildcard_ban freed s saved now g ≡ some (code, s'))
      × (is_guildcard_banned s' later other
          ≡ (if other == g then none else is_guildcard_banned s later other))
      × (s'.ip_bans ≡ s.ip_bans)
unfolding ban_lift_guildcard_ban is_guildcard_banned
ban_lift_guildcard_ban_lem freed s saved now later g other h k = (
  lift_code saved (removals g now l) (matches g l),
  record s { guildcard_bans = remaining g now l },
  ground (arith, lift_guildcards-eq-lifted_of freed g now l),
  ground (arith, find-remaining_self g now later l, find-remaining_other g other now later l),
  refl,
)
  where
    open s use {guildcard_bans as l}

found-counts :
    (g : ℕ) (now later : ℤ) (l : List GuildcardBan)
    → find_guildcard later g l ≢ none
    → (matches g l ≢ 0) × (removals g now l ≢ 0)
unfolding find_guildcard matches removals
found-counts g now later [] h = absurd (h refl)
found-counts g now later (i ∷ l) h = ground (arith, found-counts g now later l)

-- Lifting the ban of a guildcard that is banned answers 0, or -2 if the file is not written,
-- when no ban of the guildcard, once freed, reads as one that has run out.
ban_lift_guildcard_ban-code :
    (freed : Freed) (s : BanLists) (saved : Bool) (now : ℤ) (g : ℕ)
    → stale_match freed g now s.guildcard_bans ≡ false
    → is_guildcard_banned s now g ≢ none
    → (s' : BanLists) × (ban_lift_guildcard_ban freed s saved now g
        ≡ some (if saved then pos 0 else neg 2, s'))
unfolding ban_lift_guildcard_ban is_guildcard_banned
ban_lift_guildcard_ban-code freed s saved now g h b = (
  record s { guildcard_bans = remaining g now l },
  ground (arith, lift_guildcards-eq-lifted_of freed g now l, found-counts g now now l b),
)
  where
    open s use {guildcard_bans as l}

find-append :
    (g : ℕ) (at : ℤ) (l : List GuildcardBan) (i : GuildcardBan)
    → find_guildcard at g (l ++ (i ∷ []))
      ≡ elim (find_guildcard at g l) [ some a ↦ some a | none ↦ find_guildcard at g (i ∷ []) ]
unfolding find_guildcard
find-append g at [] i = refl
find-append g at (x ∷ l) i = ground (arith, find-append g at l i)

-- After `ban_guildcard`, also when the file could not be written, a guildcard is banned as before,
-- or else by the new ban: if it is its guildcard, at every time up to the ban's end, or for ever
-- with end -1.
ban_guildcard-bans :
    (s : BanLists) (saved : Bool) (now end_time at : ℤ) (by g other : ℕ) (reason : Option (List ℕ))
    → let (code, s') = ban_guildcard s (true, true) saved now end_time by g reason in
      (code ≡ (if saved then pos 0 else neg 2))
      × (is_guildcard_banned s' at other ≡ elim (is_guildcard_banned s at other) [
        | some a ↦ some a
        | none ↦
            if g == other && is_active at end_time then some (stored reason, end_time) else none
      ])
unfolding ban_guildcard is_guildcard_banned find_guildcard
ban_guildcard-bans s saved now end_time at by g other reason =
    (refl, find-append other at s.guildcard_bans ban)
  where
    ban : GuildcardBan
    ban = record {
      reason = stored reason;
      start_time = now;
      end_time = end_time;
      set_by = by;
      banned_gc = g;
    }

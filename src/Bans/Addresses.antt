-- ===== src/Bans/Addresses.antt =====
-- Address bans: adding, lifting and asking, for both families.
use Prim.Native.Nat.{bit_and}
use ship_server.Base.{
  ℕ, ◌+◌, ◌≡◌, ◌≢◌, ◌⊎◌, inl, inr, ◌∙◌, Bool-cases, refl, Bool, true, false, ◌&&◌, ◌||◌, not, List,
  [], ◌∷◌, ◌++◌, Option, none, some, arith, ◌==◌, if◌then◌else◌, ℤ, pos, neg, All,
}
use ship_server.Bans.{
  IpBan, SockAddr, BanLists, Answer, Freed, next_freed, has_expired, is_active, stored, quad4,
  eq_ip6, lift_code, lifts_ip, lift_ips, ban_ip, ban_lift_ip_ban, is_ip4_banned, is_ip6_banned,
  is_ip_banned,
}

-- The addresses that a ban covers: those of its family that agree with it under its mask.
pub covers : IpBan → SockAddr → Bool
covers i ip =
    if ip.is_inet
    then not i.ipv6 && bit_and ip.s_addr i.netmask.w0 == bit_and i.ip_addr.w0 i.netmask.w0
    else i.ipv6 && eq_ip6 ip.s6_addr i.ip_addr i.netmask

-- The oldest active ban that covers the address.
unfoldable pub first_cover : ℤ → SockAddr → List IpBan → Answer
first_cover at ip [] = none
first_cover at ip (i ∷ l) =
    if is_active at i.end_time && covers i ip
    then some (i.reason, i.end_time)
    else first_cover at ip l

is_ip_banned-first_cover :
    (at : ℤ) (ip : SockAddr) (l : List IpBan)
    → (if ip.is_inet then is_ip4_banned at ip.s_addr l else is_ip6_banned at ip.s6_addr l)
      ≡ first_cover at ip l
unfolding is_ip4_banned is_ip6_banned first_cover covers
is_ip_banned-first_cover at ip [] = ground arith
is_ip_banned-first_cover at ip (i ∷ l) = ground (arith, is_ip_banned-first_cover at ip l)

-- `is_ip_banned` answers with the oldest active ban whose family is the address's and that agrees
-- with it under the ban's own mask.
pub is_ip_banned_lem :
    (s : BanLists) (at : ℤ) (ip : SockAddr) → is_ip_banned s at ip ≡ first_cover at ip s.ip_bans
unfolding is_ip_banned
is_ip_banned_lem s at ip = is_ip_banned-first_cover at ip s.ip_bans

-- The entry that `ban_ip` makes.
abbrev new_ban : ℤ → ℤ → ℕ → SockAddr → SockAddr → Option (List ℕ) → IpBan
new_ban now end_time by ip netmask reason = record {
  ipv6 = not ip.is_inet;
  reason = stored reason;
  start_time = now;
  end_time = end_time;
  set_by = by;
  ip_addr = if ip.is_inet then quad4 ip.s_addr else ip.s6_addr;
  netmask = if ip.is_inet then quad4 netmask.s_addr else netmask.s6_addr;
}

first_cover-append :
    (at : ℤ) (ip : SockAddr) (l : List IpBan) (i : IpBan)
    → first_cover at ip (l ++ (i ∷ []))
      ≡ elim (first_cover at ip l) [ some a ↦ some a | none ↦ first_cover at ip (i ∷ []) ]
unfolding first_cover
first_cover-append at ip [] i = refl
first_cover-append at ip (x ∷ l) i = ground (arith, first_cover-append at ip l i)

-- After `ban_ip` an address is banned as before, or else by the new ban while it is active: for an
-- IPv4 ban the IPv4 addresses that agree with it under the 32-bit mask, for an IPv6 ban the IPv6
-- addresses that agree with it under the four mask words.
pub ban_ip-bans :
    (s : BanLists) (saved : Bool) (now end_time at : ℤ) (by : ℕ) (ip netmask asked : SockAddr)
    (reason : Option (List ℕ))
    → let (code, s') = ban_ip s (true, true) saved now end_time by ip netmask reason in
      (code ≡ (if saved then pos 0 else neg 2))
      × (is_ip_banned s' at asked ≡ elim (is_ip_banned s at asked) [
        | some a ↦ some a
        | none ↦
            if is_active at end_time
              && (if ip.is_inet
                  then asked.is_inet
                    && bit_and asked.s_addr netmask.s_addr == bit_and ip.s_addr netmask.s_addr
                  else not asked.is_inet && eq_ip6 asked.s6_addr ip.s6_addr netmask.s6_addr)
            then some (stored reason, end_time)
            else none
      ])
unfolding ban_ip first_cover covers
ban_ip-bans s saved now end_time at by ip netmask asked reason = (
  refl,
  ground (
    arith,
    is_ip_banned_lem s at asked,
    is_ip_banned_lem (ban_ip s (true, true) saved now end_time by ip netmask reason).1 at asked,
    first_cover-append at asked s.ip_bans (new_ban now end_time by ip netmask reason),
  ),
)

-- Some ban that the lift of this address matches reads, once freed, as one that has run out.
unfoldable stale_match : Freed → SockAddr → ℤ → List IpBan → Bool
stale_match freed ip now [] = false
stale_match freed ip now (i ∷ l) =
    (lifts_ip ip i && has_expired now (freed 0)) || stale_match (next_freed freed) ip now l

remaining : SockAddr → ℤ → List IpBan → List IpBan
remaining ip now [] = []
remaining ip now (i ∷ l) =
    let rest = remaining ip now l in
    if lifts_ip ip i || has_expired now i.end_time then rest else i ∷ rest

removals : SockAddr → ℤ → List IpBan → ℕ
removals ip now [] = 0
removals ip now (i ∷ l) =
    (if lifts_ip ip i || has_expired now i.end_time then 1 else 0) + removals ip now l

matches : SockAddr → List IpBan → ℕ
matches ip [] = 0
matches ip (i ∷ l) = (if lifts_ip ip i then 1 else 0) + matches ip l

lift_ips_lem :
    (freed : Freed) (ip : SockAddr) (now : ℤ) (l : List IpBan)
    → lift_ips freed ip now l ≡ (
        if stale_match freed ip now l
        then none
        else some (remaining ip now l, removals ip now l, matches ip l))
unfolding lift_ips stale_match remaining removals matches
lift_ips_lem freed ip now [] = refl
lift_ips_lem freed ip now (i ∷ l) = ground (arith, lift_ips_lem (next_freed freed) ip now l)

first_cover-remaining :
    (ip : SockAddr) (now later : ℤ) (l : List IpBan)
    → ip.is_inet ≡ false
    → first_cover later ip (remaining ip now l) ≡ none
unfolding first_cover covers remaining lifts_ip
first_cover-remaining ip now later [] h = refl
first_cover-remaining ip now later (i ∷ l) h = ground (arith, first_cover-remaining ip now later l)

-- `ban_lift_ip_ban` frees an entry twice exactly when one that it matches reads, once freed, as run
-- out. Otherwise, if the reads of freed entries do no harm, it ends, and an IPv6 address is then not banned at any time.
ban_lift_ip_ban_v6 :
    (freed : Freed) (s : BanLists) (saved : Bool) (now later : ℤ) (ip : SockAddr)
    → ip.is_inet ≡ false
    → ((ban_lift_ip_ban freed s saved now ip ≡ none) × (stale_match freed ip now s.ip_bans ≡ true))
      ⊎ ((code : ℤ) × (s' : BanLists) × (ban_lift_ip_ban freed s saved now ip ≡ some (code, s'))
          × (stale_match freed ip now s.ip_bans ≡ false)
          × (is_ip_banned s' later ip ≡ none))
unfolding ban_lift_ip_ban
ban_lift_ip_ban_v6 freed s saved now later ip h = elim (Bool-cases (stale_match freed ip now l)) [
  | inl e ↦ inl (ground (arith, lift_ips_lem freed ip now l), e)
  | inr e ↦ inr (
    lift_code saved (removals ip now l) (matches ip l),
    s',
    ground (arith, lift_ips_lem freed ip now l),
    e,
    is_ip_banned_lem s' later ip ∙ first_cover-remaining ip now later l h,
  )
]
  where
    open s use {ip_bans as l}

    s' : BanLists
    s' = record s { ip_bans = remaining ip now l }

-- An IPv4 ban of another base address, not yet run out.
abbrev pub OtherBase : ℤ → ℕ → IpBan → Type 0
OtherBase now a i = (i.ipv6 ≡ false) × (i.ip_addr.w0 ≢ a) × (has_expired now i.end_time ≡ false)

lift_ips-unmatched :
    (freed : Freed) (ip : SockAddr) (now : ℤ) (l : List IpBan)
    → All (OtherBase now ip.s_addr) l
    → lift_ips freed ip now l ≡ some (l, 0, 0)
unfolding lift_ips lifts_ip
lift_ips-unmatched freed ip now [] h = refl
lift_ips-unmatched freed ip now (i ∷ l) h =
    ground (arith, lift_ips-unmatched (next_freed freed) ip now l h.1)

-- `ban_lift_ip_ban` looks at no mask of an IPv4 ban: an address that is banned only by bans of
-- other base addresses, as one of a banned network is, stays banned, and the answer is -1.
ban_lift_ip_ban-keeps_networks :
    (freed : Freed) (s : BanLists) (saved : Bool) (now : ℤ) (ip : SockAddr)
    → is_ip_banned s now ip ≢ none
    → All (OtherBase now ip.s_addr) s.ip_bans
    → (s' : BanLists) × (ban_lift_ip_ban freed s saved now ip ≡ some (neg 1, s'))
      × (is_ip_banned s' now ip ≢ none)
unfolding ban_lift_ip_ban
ban_lift_ip_ban-keeps_networks freed s saved now ip b h =
    (s, ground (arith, lift_ips-unmatched freed ip now s.ip_bans h), b)

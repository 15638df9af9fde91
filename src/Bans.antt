-- ===== src/Bans.antt =====
-- src/bans.c: the lists of guildcard and address bans, the calls that add, lift, sweep and ask.
-- `now` is time(NULL) at the call, `saved` whether write_bans_list succeeds, `alloc` whether the
-- two calls of malloc do. Reasons are byte strings.
pub mod Guildcards
pub mod Addresses
pub mod Sweep
mod Examples
use Prim.Native.Nat.{bit_and}
use ship_server.Base.{
  ℕ, suc, ◌+◌, Bool, true, false, ◌&&◌, ◌||◌, not, List, [], ◌∷◌, ◌++◌, Option, none, some, ltb,
  ◌==◌, if◌then◌else◌, ℤ, pos, negsuc, neg, ltb_ℤ,
}

-- `guildcard_ban_t`
pub record GuildcardBan : Type 0 where
  pub reason : List ℕ
  pub start_time : ℤ
  pub end_time : ℤ
  pub set_by : ℕ
  pub banned_gc : ℕ

-- Four 32-bit words of an address or a mask.
pub record Quad : Type 0 where
  pub w0 : ℕ
  pub w1 : ℕ
  pub w2 : ℕ
  pub w3 : ℕ

-- `ip_ban_t`
pub record IpBan : Type 0 where
  pub ipv6 : Bool
  pub reason : List ℕ
  pub start_time : ℤ
  pub end_time : ℤ
  pub set_by : ℕ
  pub ip_addr : Quad
  pub netmask : Quad

-- `struct sockaddr_storage`: whether ss_family is AF_INET, and the bytes that a cast to
-- sockaddr_in or to sockaddr_in6 reads as the address. The two do not overlap.
pub record SockAddr : Type 0 where
  pub is_inet : Bool
  pub s_addr : ℕ
  pub s6_addr : Quad

-- The two lists of `ship_t`, oldest ban first.
pub record BanLists : Type 0 where
  pub guildcard_bans : List GuildcardBan
  pub ip_bans : List IpBan

-- `end_time == (time_t)-1`
abbrev is_forever : ℤ → Bool
is_forever (pos n) = false
is_forever (negsuc n) = n == 0

-- `end_time != (time_t)-1 && end_time < now`
abbrev pub has_expired : ℤ → ℤ → Bool
has_expired now end_time = not (is_forever end_time) && ltb_ℤ end_time now

-- `end_time >= now || end_time == (time_t)-1`
abbrev pub is_active : ℤ → ℤ → Bool
is_active now end_time = not (ltb_ℤ end_time now) || is_forever end_time

-- A missing reason is stored as the empty string.
abbrev pub stored : Option (List ℕ) → List ℕ
stored none = []
stored (some r) = r

pub eq_ip6 : Quad → Quad → Quad → Bool
eq_ip6 ip1 ip2 netmask =
    bit_and ip1.w0 netmask.w0 == bit_and ip2.w0 netmask.w0
    && bit_and ip1.w1 netmask.w1 == bit_and ip2.w1 netmask.w1
    && bit_and ip1.w2 netmask.w2 == bit_and ip2.w2 netmask.w2
    && bit_and ip1.w3 netmask.w3 == bit_and ip2.w3 netmask.w3

ban_gc_int : BanLists → Bool × Bool → ℤ → ℤ → ℕ → ℕ → Option (List ℕ) → ℤ × BanLists
ban_gc_int s alloc end_time start_time set_by guildcard reason =
    let ban : GuildcardBan = record {
      reason = stored reason;
      start_time = start_time;
      end_time = end_time;
      set_by = set_by;
      banned_gc = guildcard;
    } in
    if alloc.0 && alloc.1
    then (pos 0, record s { guildcard_bans = s.guildcard_bans ++ (ban ∷ []) })
    else (neg 1, s)

-- The words that an AF_INET address and mask fill: the first, with the others zero.
abbrev pub quad4 : ℕ → Quad
quad4 a = record { w0 = a; w1 = 0; w2 = 0; w3 = 0 }

ban_ip_int :
    BanLists → Bool × Bool → ℤ → ℤ → ℕ → SockAddr → SockAddr → Option (List ℕ) → ℤ × BanLists
ban_ip_int s alloc end_time start_time set_by ip netmask reason =
    let ban : IpBan = record {
      ipv6 = not ip.is_inet;
      reason = stored reason;
      start_time = start_time;
      end_time = end_time;
      set_by = set_by;
      ip_addr = if ip.is_inet then quad4 ip.s_addr else ip.s6_addr;
      netmask = if ip.is_inet then quad4 netmask.s_addr else netmask.s6_addr;
    } in
    if alloc.0 && alloc.1
    then (pos 0, record s { ip_bans = s.ip_bans ++ (ban ∷ []) })
    else (neg 1, s)

-- What a caller of an insertion returns: -1 if it failed, -2 if the file was not written.
abbrev after_insert : Bool → ℤ × BanLists → ℤ × BanLists
after_insert saved (pos _, s) = (if saved then pos 0 else neg 2, s)
after_insert saved (negsuc _, s) = (neg 1, s)

pub ban_guildcard : BanLists → Bool × Bool → Bool → ℤ → ℤ → ℕ → ℕ → Option (List ℕ) → ℤ × BanLists
unfolding ban_gc_int
ban_guildcard s alloc saved now end_time set_by guildcard reason =
    after_insert saved (ban_gc_int s alloc end_time now set_by guildcard reason)

pub ban_ip :
    BanLists → Bool × Bool → Bool → ℤ → ℤ → ℕ → SockAddr → SockAddr → Option (List ℕ) → ℤ × BanLists
unfolding ban_ip_int
ban_ip s alloc saved now end_time set_by ip netmask reason =
    after_insert saved (ban_ip_int s alloc end_time now set_by ip netmask reason)

-- What the lifting loops leave: the list, num_lifted and num_matching. `none` is a second
-- TAILQ_REMOVE and free of an entry that the same round has freed.
abbrev pub Lifted : Type 0 → Type 0
Lifted A = Option (List A × ℕ × ℕ)

-- One round of the loop on entry `i`, after the rounds on the later entries. The second test of the
-- round reads end_time of the entry even when the first has freed it, which C leaves undefined:
-- `stale_freed` says whether that read of freed memory makes the test hold.
abbrev lift_one : {A : Type 0} → Bool → Bool → Bool → A → Lifted A → Lifted A
lift_one matches stale_freed stale i none = none
lift_one matches stale_freed stale i (some (l, lifted, matching)) =
    if matches
    then (if stale_freed then none else some (l, lifted + 1, matching + 1))
    else if stale
    then some (l, lifted + 1, matching)
    else some (i ∷ l, lifted, matching)

-- What the freed memory of the n-th entry holds in the place of end_time: any function of n.
abbrev pub Freed : Type 0
Freed = ℕ → ℤ

abbrev pub next_freed : Freed → Freed
next_freed freed n = freed (suc n)

pub lift_guildcards : Freed → ℕ → ℤ → List GuildcardBan → Lifted GuildcardBan
lift_guildcards freed guildcard now [] = some ([], 0, 0)
lift_guildcards freed guildcard now (i ∷ l) =
    lift_one (i.banned_gc == guildcard) (has_expired now (freed 0)) (has_expired now i.end_time) i
      (lift_guildcards (next_freed freed) guildcard now l)

-- The match that `ban_lift_ip_ban` makes: the entry's kind decides how the address is read.
pub lifts_ip : SockAddr → IpBan → Bool
unfolding eq_ip6
lifts_ip ip i = if i.ipv6 then eq_ip6 ip.s6_addr i.ip_addr i.netmask else i.ip_addr.w0 == ip.s_addr

pub lift_ips : Freed → SockAddr → ℤ → List IpBan → Lifted IpBan
lift_ips freed ip now [] = some ([], 0, 0)
lift_ips freed ip now (i ∷ l) =
    lift_one (lifts_ip ip i) (has_expired now (freed 0)) (has_expired now i.end_time) i
      (lift_ips (next_freed freed) ip now l)

-- The return code, from whether the file was written and the two counts.
abbrev pub lift_code : Bool → ℕ → ℕ → ℤ
lift_code saved lifted matching =
    if lifted == 0 then neg 1 else if saved then (if matching == 0 then neg 1 else pos 0) else neg 2

pub ban_lift_guildcard_ban : Freed → BanLists → Bool → ℤ → ℕ → Option (ℤ × BanLists)
unfolding lift_guildcards
ban_lift_guildcard_ban freed s saved now guildcard =
    elim (lift_guildcards freed guildcard now s.guildcard_bans) [
      | none ↦ none
      | some (l, lifted, matching) ↦
          some (lift_code saved lifted matching, record s { guildcard_bans = l })
    ]

pub ban_lift_ip_ban : Freed → BanLists → Bool → ℤ → SockAddr → Option (ℤ × BanLists)
unfolding lift_ips
ban_lift_ip_ban freed s saved now ip = elim (lift_ips freed ip now s.ip_bans) [
  | none ↦ none
  | some (l, lifted, matching) ↦ some (lift_code saved lifted matching, record s { ip_bans = l })
]

-- The loops of `ban_sweep`: what stays, and how many were removed.
pub sweep_list : {A : Type 0} → (A → ℤ) → ℤ → List A → List A × ℕ
sweep_list end_of now [] = ([], 0)
sweep_list end_of now (i ∷ l) =
    let (kept, lifted) = sweep_list end_of now l in
    if has_expired now (end_of i) then (kept, lifted + 1) else (i ∷ kept, lifted)

pub ban_sweep : BanLists → Bool → ℤ → ℤ × BanLists
unfolding sweep_list
ban_sweep s saved now =
    let (gcs, n) = sweep_list (λ (i : GuildcardBan). i.end_time) now s.guildcard_bans in
    let (ips, m) = sweep_list (λ (j : IpBan). j.end_time) now s.ip_bans in
    let s' = record s { guildcard_bans = gcs; ip_bans = ips } in
    (if n + m == 0 then pos 0 else if saved then pos 0 else neg 1, s')

-- Whether someone is banned, with the reason and the end of the ban that was found first.
abbrev pub Answer : Type 0
Answer = Option (List ℕ × ℤ)

pub find_guildcard : ℤ → ℕ → List GuildcardBan → Answer
find_guildcard now guildcard [] = none
find_guildcard now guildcard (i ∷ l) =
    if i.banned_gc == guildcard && is_active now i.end_time
    then some (i.reason, i.end_time)
    else find_guildcard now guildcard l

pub is_guildcard_banned : BanLists → ℤ → ℕ → Answer
is_guildcard_banned s now guildcard = find_guildcard now guildcard s.guildcard_bans

pub is_ip4_banned : ℤ → ℕ → List IpBan → Answer
is_ip4_banned now s_addr [] = none
is_ip4_banned now s_addr (i ∷ l) =
    let rest = is_ip4_banned now s_addr l in
    if i.ipv6
    then rest
    else if is_active now i.end_time
        && bit_and s_addr i.netmask.w0 == bit_and i.ip_addr.w0 i.netmask.w0
    then some (i.reason, i.end_time)
    else rest

pub is_ip6_banned : ℤ → Quad → List IpBan → Answer
unfolding eq_ip6
is_ip6_banned now s6_addr [] = none
is_ip6_banned now s6_addr (i ∷ l) =
    let rest = is_ip6_banned now s6_addr l in
    if not i.ipv6
    then rest
    else if is_active now i.end_time && eq_ip6 s6_addr i.ip_addr i.netmask
    then some (i.reason, i.end_time)
    else rest

pub is_ip_banned : BanLists → ℤ → SockAddr → Answer
unfolding is_ip4_banned is_ip6_banned
is_ip_banned s now ip =
    if ip.is_inet
    then is_ip4_banned now ip.s_addr s.ip_bans
    else is_ip6_banned now ip.s6_addr s.ip_bans

-- ===== src/Bans/Examples.antt =====
-- The theorems on bans at a list of two guildcard bans and a banned IPv4 network.
use Prim.Native.Nat.{bit_and}
use ship_server.Base.{
  ℕ, ◌≡◌, ◌≢◌, ◌↔◌, refl, true, false, not, ◌&&◌, [], ◌∷◌, none, some, ◌==◌, if◌then◌else◌, ℤ, pos,
  neg, All, arith,
}
use ship_server.Bans.{
  GuildcardBan, IpBan, SockAddr, BanLists, Freed, stored, is_active, eq_ip6, quad4, ban_ip,
  ban_lift_guildcard_ban, ban_sweep, is_guildcard_banned, is_ip_banned, find_guildcard,
}
use ship_server.Bans.Guildcards.{
  has_ban, stale_match, all_freed, ban_lift_guildcard_ban-faults, ban_lift_guildcard_ban_lem,
}
use ship_server.Bans.Addresses.{ban_ip-bans, OtherBase}
use ship_server.Bans.Sweep.{ban_sweep-keeps_answers}

abbrev ban_of : ℕ → ℤ → GuildcardBan
ban_of g end = record {
  reason = 65 ∷ [];
  start_time = pos 10;
  end_time = end;
  set_by = 1;
  banned_gc = g;
}

-- 10.0.0.0/8, as a little-endian host reads the words.
abbrev network : IpBan
network = record {
  ipv6 = false;
  reason = [];
  start_time = pos 10;
  end_time = neg 1;
  set_by = 1;
  ip_addr = quad4 10;
  netmask = quad4 255;
}

-- Guildcard 5 is banned for ever, 6 until 20.
abbrev lists : BanLists
lists = record {
  guildcard_bans = ban_of 5 (neg 1) ∷ ban_of 6 (pos 20) ∷ [];
  ip_bans = network ∷ [];
}

-- A banned IPv6 address.
abbrev v6_ban : IpBan
v6_ban = record {
  ipv6 = true;
  reason = [];
  start_time = pos 10;
  end_time = neg 1;
  set_by = 1;
  ip_addr = quad4 3;
  netmask = quad4 15;
}

abbrev v6_lists : BanLists
v6_lists = record { guildcard_bans = []; ip_bans = v6_ban ∷ network ∷ [] }

abbrev inet : ℕ → SockAddr
inet a = record { is_inet = true; s_addr = a; s6_addr = quad4 0 }

abbrev inet6 : ℕ → SockAddr
inet6 a = record { is_inet = false; s_addr = 0; s6_addr = quad4 a }

-- 10.0.0.1
abbrev host : SockAddr
host = inet 16777226

test-banned : is_guildcard_banned lists (pos 30) 5 ≡ some (65 ∷ [], neg 1)
unfolding is_guildcard_banned find_guildcard
test-banned = refl

test-banned_no_more : is_guildcard_banned lists (pos 30) 6 ≡ none
unfolding is_guildcard_banned find_guildcard
test-banned_no_more = refl

-- The freed memory still holds what the entries held.
abbrev kept : Freed
kept n = if n == 0 then neg 1 else pos 20

not_stale : stale_match kept 5 (pos 30) lists.guildcard_bans ≡ false
unfolding stale_match
not_stale = refl

-- Guildcard 5 is banned for ever: freed memory that reads as 20 frees its entry twice.
ban_lift_guildcard_ban-faults_example :
    ((ban_lift_guildcard_ban kept lists true (pos 30) 5 ≡ none)
      ↔ (stale_match kept 5 (pos 30) lists.guildcard_bans ≡ true))
    × ((ban_lift_guildcard_ban (all_freed (pos 20)) lists true (pos 30) 5 ≡ none)
        ↔ (has_ban 5 lists.guildcard_bans ≡ true))
    × (ban_lift_guildcard_ban (all_freed (neg 1)) lists true (pos 30) 5 ≢ none)
ban_lift_guildcard_ban-faults_example =
    ban_lift_guildcard_ban-faults kept lists true (pos 30) (pos 20) 5 refl

ban_lift_guildcard_ban_lem_example :
    (code : ℤ) × (s' : BanLists) × (ban_lift_guildcard_ban kept lists true (pos 30) 5
      ≡ some (code, s'))
    × (is_guildcard_banned s' (pos 40) 5
        ≡ (if 5 == 5 then none else is_guildcard_banned lists (pos 40) 5))
    × (s'.ip_bans ≡ lists.ip_bans)
ban_lift_guildcard_ban_lem_example =
    ban_lift_guildcard_ban_lem kept lists true (pos 30) (pos 40) 5 5 not_stale refl

ban_sweep-keeps_answers_example :
    let s' = (ban_sweep lists false (pos 30)).1 in
    (is_guildcard_banned s' (pos 40) 6 ≡ is_guildcard_banned lists (pos 40) 6)
    × (is_ip_banned s' (pos 40) host ≡ is_ip_banned lists (pos 40) host)
ban_sweep-keeps_answers_example = ban_sweep-keeps_answers lists false (pos 30) (pos 40) 6 host refl

ban_ip-bans_example :
    let (code, s') = ban_ip lists (true, true) true (pos 30) (pos 50) 1 (inet6 3) (inet6 15) none in
    (code ≡ (if true then pos 0 else neg 2))
    × (is_ip_banned s' (pos 40) (inet6 19) ≡ elim (is_ip_banned lists (pos 40) (inet6 19)) [
      | some a ↦ some a
      | none ↦
          if is_active (pos 40) (pos 50)
            && (if false
                then false && bit_and 0 0 == bit_and 0 0
                else not false && eq_ip6 (quad4 19) (quad4 3) (quad4 15))
          then some (stored none, pos 50)
          else none
    ])
ban_ip-bans_example =
    ban_ip-bans lists true (pos 30) (pos 50) (pos 40) 1 (inet6 3) (inet6 15) (inet6 19) none

host-banned : is_ip_banned lists (pos 30) host ≢ none
unfolding is_ip_banned
host-banned e = cc

other_base : All (OtherBase (pos 30) 16777226) lists.ip_bans
other_base = ((refl, (λ e. omega arith), refl), tt)

-- ===== src/Bans/Sweep.antt =====
-- `ban_sweep`, against the questions that follow it.
use ship_server.Base.{ℕ, ◌≡◌, refl, sym, ◌∙◌, Bool, false, List, [], ◌∷◌, arith, ℤ, pos, ltb_ℤ}
use ship_server.Bans.{
  GuildcardBan, IpBan, SockAddr, BanLists, sweep_list, ban_sweep, find_guildcard,
  is_guildcard_banned, is_ip_banned,
}
use ship_server.Bans.Guildcards.{expired-not-active}
use ship_server.Bans.Addresses.{first_cover, is_ip_banned_lem}

abbrev gc_end : GuildcardBan → ℤ
gc_end i = i.end_time

abbrev ip_end : IpBan → ℤ
ip_end i = i.end_time

find-sweep :
    (now later : ℤ) (g : ℕ) (l : List GuildcardBan)
    → ltb_ℤ later now ≡ false
    → find_guildcard later g (sweep_list gc_end now l).0 ≡ find_guildcard later g l
unfolding find_guildcard sweep_list
find-sweep now later g [] h = refl
find-sweep now later g (i ∷ l) h =
    ground (arith, find-sweep now later g l, expired-not-active now later i.end_time)

first_cover-sweep :
    (now later : ℤ) (ip : SockAddr) (l : List IpBan)
    → ltb_ℤ later now ≡ false
    → first_cover later ip (sweep_list ip_end now l).0 ≡ first_cover later ip l
unfolding first_cover sweep_list
first_cover-sweep now later ip [] h = refl
first_cover-sweep now later ip (i ∷ l) h =
    ground (arith, first_cover-sweep now later ip l, expired-not-active now later i.end_time)

-- `ban_sweep` changes no answer from now on: every guildcard and every address is banned, for the
-- same reason and until the same time, as before.
pub ban_sweep-keeps_answers :
    (s : BanLists) (saved : Bool) (now later : ℤ) (g : ℕ) (ip : SockAddr)
    → ltb_ℤ later now ≡ false
    → let s' = (ban_sweep s saved now).1 in
      (is_guildcard_banned s' later g ≡ is_guildcard_banned s later g)
      × (is_ip_banned s' later ip ≡ is_ip_banned s later ip)
unfolding ban_sweep is_guildcard_banned
ban_sweep-keeps_answers s saved now later g ip h = (
  find-sweep now later g s.guildcard_bans h,
  is_ip_banned_lem (ban_sweep s saved now).1 later ip
      ∙ first_cover-sweep now later ip s.ip_bans h
      ∙ sym (is_ip_banned_lem s later ip),
)

sweep_list-fixed :
    {A : Type 0} (end_of : A → ℤ) (now : ℤ) (l : List A)
    → sweep_list end_of now (sweep_list end_of now l).0 ≡ ((sweep_list end_of now l).0, 0)
unfolding sweep_list
sweep_list-fixed end_of now [] = refl
sweep_list-fixed end_of now (i ∷ l) = ground (arith, sweep_list-fixed end_of now l)

-- A second sweep in the same second finds nothing to do, whatever became of the file.
ban_sweep-twice :
    (s : BanLists) (saved saved' : Bool) (now : ℤ)
    → let s' = (ban_sweep s saved now).1 in ban_sweep s' saved' now ≡ (pos 0, s')
unfolding ban_sweep
ban_sweep-twice s saved saved' now =
    ground
      (arith, sweep_list-fixed gc_end now s.guildcard_bans, sweep_list-fixed ip_end now s.ip_bans)

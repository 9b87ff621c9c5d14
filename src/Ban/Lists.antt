-- ===== src/Ban/Lists.antt =====
-- The ban list of a channel, ircd/src/channel.c: who is banned, and the bans that come and go.
use Prim.Native.Nat.{bit_and, bit_or}
use snservices.Base.{
  ℕ, ◌+◌, ◌-◌, Bool, true, false, not, ◌&&◌, ◌||◌, Option, none, some, List, [], ◌∷◌, map, leb, ltb,
  ◌==◌, if◌then◌else◌, Bytes, drop, length,
}
use snservices.Channel.{Member}
use snservices.Ban.{
  Ban, Client, ban_bquiet, ban_std, is_set, same_text, hits, begins, bmake_nick_user_host,
  make_nick_user_ip, is_ip_mask, maybe_hits,
}
use snservices.Base.Int.{ℤ, pos, negsuc}
use snservices.Match.Collapse.{collapse}
use snservices.Ban.Rules.{Channels, ban_rule_match}

-- `tmpp`, `*bantype`, `typetmp` and `s_ip` of the loop.
pub record Seen : Type 0 where
  pub found : Option Ban
  pub bantype : ℕ
  pub typetmp : ℕ
  pub s_ip : Option Bytes

-- A rule that applies is noted.
abbrev pub note : Ban → Option ℕ → Seen → Seen
note b none s = s
note b (some t) s = record s { found = some b; bantype = bit_or s.bantype t; typetmp = t }

-- `CHFL_BQUIET`
abbrev pub chfl_bquiet : ℕ
chfl_bquiet = 16

abbrev pub is_found : Option Ban → Bool
is_found none = false
is_found (some _) = true

-- `flags & ~CHFL_BQUIET`, and `flags | CHFL_BQUIET`.
abbrev pub unquiet : ℕ → ℕ
unquiet flags = flags - bit_and flags chfl_bquiet

abbrev pub quiet : ℕ → ℕ
quiet flags = bit_or flags chfl_bquiet

abbrev is_other : Option ℕ → ℕ → Bool
is_other none k = false
is_other (some only) k = not (only == k)

module _ (gen_host_mask : Bytes → Bytes) (channels : Channels) where
  abbrev pub nuh : Client → Bytes
  nuh c = bmake_nick_user_host c.name c.username c.host

  abbrev pub nuhmask : Client → Bytes
  nuhmask c = bmake_nick_user_host c.name c.username (gen_host_mask c.host)

  -- A ban of the form `%mask` that is a mask for the address.
  abbrev pub by_ip : Client → Ban → Bool
  by_ip c b = begins 37 b.banstr && (c.my_client && is_ip_mask (drop 1 b.banstr))

  -- Whether the loop ends at this ban, an ordinary one.
  unfoldable pub stops_at : Client → Ban → Bool
  unfolding hits bmake_nick_user_host make_nick_user_ip is_ip_mask
  stops_at c b =
      if begins 37 b.banstr
      then if c.my_client && is_ip_mask (drop 1 b.banstr)
        then maybe_hits (drop 1 b.banstr) (make_nick_user_ip c)
        else hits b.banstr (nuh c)
      else hits b.banstr (nuhmask c)

  -- What it leaves to the rest of the loop if not.
  unfoldable pub pass : Client → Ban → Seen → Seen
  unfolding ban_rule_match make_nick_user_ip bmake_nick_user_host is_ip_mask
  pass c b s =
      if begins 37 b.banstr
      then (if by_ip c b then record s { s_ip = make_nick_user_ip c } else s)
      else if begins 36 b.banstr
      then note b (ban_rule_match channels c b.banstr (nuh c) (nuhmask c) s.s_ip) s
      else s

  -- The ban that was found, and `*bantype`.
  unfoldable pub ban_loop : Client → List Ban → Seen → Option Ban × ℕ
  unfolding stops_at pass
  ban_loop c [] s = (s.found, s.bantype)
  ban_loop c (b ∷ r) s =
      let rest = ban_loop c r (pass c b s) in
      if stops_at c b then (some b, bit_or s.bantype ban_std) else rest

  -- `bantype` is what `*bantype` held before.
  unfoldable pub is_banned : Client → List Ban → ℕ → Option Ban × ℕ
  unfolding ban_loop
  is_banned c banlist bantype =
      if not c.is_person
      then (none, bantype)
      else ban_loop c banlist (record { found = none; bantype = 0; typetmp = 0; s_ip = none })

  -- The clients of the members are looked up by their numbers.
  unfoldable pub check_member : (ℕ → Client) → Option ℕ → Bool → List Ban → Member → Member
  unfolding is_banned
  check_member client only add banlist lp =
      let c = client lp.cptr in
      let other = is_other only lp.cptr in
      let (ban, bantype) = is_banned c banlist 0 in
      let skipped =
        not c.my_client
        || other
        || (if add then is_set lp.flags chfl_bquiet else not (is_set lp.flags chfl_bquiet)) in
      let flags =
        (if is_found ban && is_set bantype ban_bquiet then quiet lp.flags else unquiet lp.flags) in
      if skipped then lp else record lp { flags = flags }

  unfoldable pub check_bquiet :
      (ℕ → Client) → Option ℕ → Bool → List Ban → List Member → List Member
  unfolding check_member
  check_bquiet client only add banlist members = map (check_member client only add banlist) members

-- `MAXBANS` and `MAXBANLENGTH`
abbrev pub maxbans : ℕ
maxbans = 60

abbrev pub maxbanlength : ℕ
maxbanlength = 1024

-- `len` and `cnt` of the loop of `add_banid`: whether the new ban is refused.
unfoldable pub refused : Client → Bytes → ℕ → ℕ → List Ban → Bool
unfolding hits same_text
refused c banid len cnt [] = false
refused c banid len cnt (b ∷ r) =
    let len' = len + length b.banstr in
    let further = refused c banid len' (cnt + 1) r in
    if c.my_client
    then (if ltb maxbanlength len' || leb maxbans (cnt + 1) || hits b.banstr banid
        then true
        else further)
    else if same_text b.banstr banid
    then true
    else further

unfoldable pub find_banid : Option Bytes → List Ban → ℤ
unfolding same_text
find_banid none banlist = negsuc 0
find_banid (some banid) [] = pos 0
find_banid (some banid) (b ∷ r) =
    let further = find_banid (some banid) r in if same_text banid b.banstr then pos 1 else further

abbrev pub prepend : Ban → Option (List Ban) → Option (List Ban)
prepend b none = none
prepend b (some l) = some (b ∷ l)

-- The list without the first ban of this text, if there is one.
unfoldable pub unban : Bytes → List Ban → Option (List Ban)
unfolding same_text
unban banid [] = none
unban banid (b ∷ r) =
    let further = unban banid r in if same_text banid b.banstr then some r else prepend b further

-- `banid` behind the first `if` of `add_banid`.
unfoldable pub given : Client → Bytes → Bytes
unfolding collapse
given c banid = if c.my_client then collapse banid else banid

-- What the functions return, with the bans and the members of the channel after.
pub record Changed : Type 0 where
  pub result : ℤ
  pub banlist : List Ban
  pub members : List Member

module _ (gen_host_mask : Bytes → Bytes) (channels : Channels) (client : ℕ → Client) where
  -- The bans behind an answer of 0.
  unfoldable pub put_ban : Bytes → Bytes → ℕ → List Ban → List Member → Changed
  unfolding check_bquiet
  put_ban who banid now banlist members =
      let ban : Ban = record { banstr = banid; who = who; when = now } in
      record {
        result = pos 0;
        banlist = ban ∷ banlist;
        members = check_bquiet gen_host_mask channels client none true (ban ∷ banlist) members;
      }

  unfoldable pub add_banid : Client → Bytes → ℕ → List Ban → List Member → Changed
  unfolding given refused put_ban
  add_banid c banid now banlist members =
      if refused c (given c banid) 0 0 banlist
      then record { result = negsuc 0; banlist = banlist; members = members }
      else put_ban c.name (given c banid) now banlist members

  -- A quiet member who is not banned any more may speak again.
  unfoldable pub release : List Ban → Member → Member
  unfolding is_banned
  release banlist lp =
      let (ban, bantype) = is_banned gen_host_mask channels (client lp.cptr) banlist 0 in
      if not (is_set lp.flags chfl_bquiet) || (is_found ban && is_set bantype ban_bquiet)
      then lp
      else record lp { flags = unquiet lp.flags }

  -- Behind the search of `del_banid`.
  unfoldable pub drop_ban : List Ban → List Member → Option (List Ban) → Changed
  unfolding release
  drop_ban banlist members none = record { result = negsuc 0; banlist = banlist; members = members }
  drop_ban banlist members (some rest) = record {
    result = pos 0;
    banlist = rest;
    members = map (release rest) members;
  }

  unfoldable pub del_banid : Option Bytes → List Ban → List Member → Changed
  unfolding unban drop_ban
  del_banid none banlist members = record {
    result = negsuc 0;
    banlist = banlist;
    members = members;
  }
  del_banid (some banid) banlist members = drop_ban banlist members (unban banid banlist)

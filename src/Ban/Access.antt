-- ===== src/Ban/Access.antt =====
-- Who may join a channel and who may send to it: `can_join` and `can_send` of ircd/src/channel.c.
use snservices.Base.{
  ℕ, ◌+◌, Bool, true, false, not, ◌&&◌, ◌||◌, Option, none, some, List, [], ◌∷◌, leb, ◌==◌,
  if◌then◌else◌, Bytes,
}
use snservices.Channel.{Member}
use snservices.Channel.Ops.{find_user_link}
use snservices.Ban.{
  Ban, Client, ban_block, ban_mask, ban_require, ban_rblock, ban_gecos, ban_regonly, ban_veronly,
  is_set, same_text, is_empty,
}
use snservices.Ban.Rules.{Channels}
use snservices.Ban.Lists.{is_banned, is_found, chfl_bquiet}

-- What these functions read of a channel. `limit` and `users` are never below 0.
pub record Chan : Type 0 where
  pub id : ℕ
  pub mode : ℕ
  pub limit : ℕ
  pub key : Bytes
  pub users : ℕ
  pub members : List Member
  pub banlist : List Ban

abbrev pub chfl_op_or_voice : ℕ
chfl_op_or_voice = 3

abbrev pub mode_moderated : ℕ
mode_moderated = 16

abbrev pub mode_inviteonly : ℕ
mode_inviteonly = 64

abbrev pub mode_noprivmsgs : ℕ
mode_noprivmsgs = 128

abbrev pub mode_ban : ℕ
mode_ban = 512

abbrev pub mode_showhost : ℕ
mode_showhost = 32768

abbrev pub err_channelisfull : ℕ
err_channelisfull = 471

abbrev pub err_inviteonlychan : ℕ
err_inviteonlychan = 473

abbrev pub err_bannedfromchan : ℕ
err_bannedfromchan = 474

abbrev pub err_badchannelkey : ℕ
err_badchannelkey = 475

abbrev pub err_needreggednick : ℕ
err_needreggednick = 477

abbrev pub err_nomaskchan : ℕ
err_nomaskchan = 625

abbrev pub err_banrule : ℕ
err_banrule = 626

abbrev pub err_banrequire : ℕ
err_banrequire = 627

abbrev pub err_needvernick : ℕ
err_needvernick = 628

-- The first loop of `can_join`.
unfoldable pub is_invited : ℕ → List ℕ → Bool
is_invited ch [] = false
is_invited ch (x ∷ r) = let further = is_invited ch r in if x == ch then true else further

-- The key is wrong if the channel has one and another one, or none, was given.
unfoldable pub bad_key : Bytes → Option Bytes → Bool
unfolding same_text
bad_key [] key = false
bad_key (k ∷ ks) none = true
bad_key (k ∷ ks) (some key) = is_empty key || not (same_text (k ∷ ks) key)

-- The answer for a client that is banned with these flags, or nothing if none of them counts here.
unfoldable pub ban_error : ℕ → Option ℕ
ban_error bantype =
    if is_set bantype (ban_block + ban_gecos)
    then some err_bannedfromchan
    else if is_set bantype (ban_rblock + ban_mask)
    then some err_banrule
    else if is_set bantype ban_require
    then some err_banrequire
    else if is_set bantype ban_veronly
    then some err_needvernick
    else if is_set bantype ban_regonly
    then some err_needreggednick
    else none

abbrev pub is_full : Chan → Bool
is_full ch = not (ch.limit == 0) && leb ch.limit ch.users

abbrev pub needs_unmask : Client → Chan → Bool
needs_unmask c ch = c.full_mask && (is_set ch.mode mode_showhost && not c.is_an_oper)

module _ (gen_host_mask : Bytes → Bytes) (channels : Channels) where
  -- The error that a ban makes, if there is one.
  unfoldable pub banned_error : Client → Chan → Option ℕ
  unfolding is_banned ban_error
  banned_error c ch =
      let (ban, bantype) = is_banned gen_host_mask channels c ch.banlist 0 in
      if is_found ban then ban_error bantype else none

  unfoldable pub can_join : Client → Chan → Option Bytes → ℕ
  unfolding is_invited bad_key banned_error
  can_join c ch key =
      if is_invited ch.id c.invited || c.is_u_line
      then 0
      else if is_set ch.mode mode_inviteonly
      then err_inviteonlychan
      else if bad_key ch.key key
      then err_badchannelkey
      else if needs_unmask c ch
      then err_nomaskchan
      else elim (banned_error c ch) [
        | some e ↦ e
        | none ↦ if is_full ch then err_channelisfull else 0
      ]

  -- For a member, by the flags of its link.
  unfoldable pub member_send : Client → ℕ → ℕ → ℕ
  member_send c mode flags =
      let trusted = is_set flags chfl_op_or_voice in
      if is_set mode mode_moderated && not trusted
      then mode_moderated
      else if c.my_client
      then (if trusted then 0 else if is_set flags chfl_bquiet then mode_ban else 0)
      else 0

  -- For a client that is not on the channel.
  unfoldable pub outsider_send : Client → Chan → ℕ
  unfolding is_banned
  outsider_send c ch =
      if is_set ch.mode mode_moderated
      then mode_moderated
      else if is_set ch.mode mode_noprivmsgs
      then mode_noprivmsgs
      else (let (ban, bantype) = is_banned gen_host_mask channels c ch.banlist 0 in
          if is_found ban then mode_ban else 0)

  unfoldable pub can_send : Client → Chan → ℕ
  unfolding member_send outsider_send
  can_send c ch = elim (find_user_link c.id ch.members) [
    | none ↦ outsider_send c ch
    | some lp ↦ member_send c ch.mode lp.flags
  ]

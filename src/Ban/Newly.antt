-- ===== src/Ban/Newly.antt =====
-- From `add_banid` to `can_join` of ircd/src/channel.c: a ban that was added keeps out whom its mask,
-- as it was given, stands for.
use snservices.Base.{ℕ, ◌≡◌, ◌≢◌, sym, ◌∙◌, ap, subst, true, false, ◌||◌, Option, none, List, Bytes}
use snservices.Base.Int.{pos}
use snservices.Match.Tokens.{tokens, Matches}
use snservices.Match.Collapse.{collapse}
use snservices.Match.Shorter.{Single, collapse-SameTexts}
use snservices.Channel.{Member}
use snservices.Channel.Ops.{find_user_link}
use snservices.Ban.{Ban, Client, begins, bmake_nick_user_host}
use snservices.Ban.Rules.{Channels}
use snservices.Ban.Lists.{given, put_ban, add_banid}
use snservices.Ban.Access.{Chan, is_invited, can_join, can_send}
use snservices.Ban.Verdict.{by_mask}
use snservices.Ban.Bounds.{given_local, added, add_put}
use snservices.Ban.Kept.{Hit, here, can_join-Hit}

module _ (gen_host_mask : Bytes → Bytes) (channels : Channels) (client : ℕ → Client) where
  put_ban-Hit :
      (joining : Client) (who mask : Bytes) (now : ℕ) (l : List Ban) (members : List Member)
      → begins 37 mask ≡ false
      → Matches
          (tokens mask)
          (bmake_nick_user_host joining.name joining.username (gen_host_mask joining.host))
      → Hit gen_host_mask channels joining
          (put_ban gen_host_mask channels client who mask now l members).banlist
  unfolding put_ban
  put_ban-Hit joining who mask now l members p m = here (by_mask p m)

  -- A local client adds a ban of the form nick!user@host, in which no backslash stands behind another, and
  -- it is added. Then a person for whose nickname, user name and masked host the mask stands as it was
  -- given, who is neither invited nor on a server with a U line, cannot join the channel with the new ban
  -- list, and cannot send to it as long as it is no member.
  pub can_join-add_banid :
      (c joining : Client) (banid : Bytes) (now : ℕ) (ch : Chan) (members : List Member)
      (key : Option Bytes)
      → c.my_client ≡ true
      → Single banid
      → begins 37 (collapse banid) ≡ false
      → (add_banid gen_host_mask channels client c banid now ch.banlist members).result ≡ pos 0
      → joining.is_person ≡ true
      → (is_invited ch.id joining.invited || joining.is_u_line) ≡ false
      → Matches
          (tokens banid)
          (bmake_nick_user_host joining.name joining.username (gen_host_mask joining.host))
      → (let ch' : Chan = record ch {
        banlist = (add_banid gen_host_mask channels client c banid now ch.banlist members).banlist;
      } in
          (can_join gen_host_mask channels joining ch' key ≢ 0)
          × (find_user_link joining.id ch'.members ≡ none
              → can_send gen_host_mask channels joining ch' ≢ 0))
  can_join-add_banid c joining banid now ch members key local single plain done person out m =
      let after = add_banid gen_host_mask channels client c banid now ch.banlist members in
      let put =
        add_put gen_host_mask channels client c banid now ch.banlist members
          (added gen_host_mask channels client c banid now ch.banlist members done) in
      let short = given_local c banid local in
      let hit : Hit gen_host_mask channels joining after.banlist =
        subst (λ x. Hit gen_host_mask channels joining x.banlist) (sym put)
          (put_ban-Hit joining c.name (given c banid) now ch.banlist members
            (ap (begins 37) short ∙ plain)
            (subst
              (λ x.
                Matches (tokens x)
                  (bmake_nick_user_host joining.name joining.username (gen_host_mask joining.host)))
              (sym short) ((collapse-SameTexts banid single).back _ m))) in
      can_join-Hit gen_host_mask channels joining (record ch { banlist = after.banlist }) key person
        out hit

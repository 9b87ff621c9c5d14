-- ===== src/Ban/Examples.antt =====
-- Tests of the bans, and the theorems at concrete inputs.
use snservices.Base.{
  arith, ℕ, ◌≡◌, ◌≢◌, ◌≤◌, refl, true, false, none, some, List, [], ◌∷◌, Bytes, length,
}
use snservices.Base.Int.{pos}
use snservices.Match.Collapse.{collapse}
use snservices.Channel.{Member}
use snservices.Channel.Ops.{find_user_link}
use snservices.Ban.{Ban, Client, hits, bmake_nick_user_host}
use snservices.Ban.Rules.{Channels}
use snservices.Ban.Lists.{is_banned, given, add_banid, del_banid}
use snservices.Ban.Access.{Chan, can_join, can_send, is_invited}
use snservices.Ban.Verdict.{
  hits-Matches, Covers, by_mask, first_stop, before_stop, rules_of, flags_of, last_rule, verdict,
  is_banned-verdict,
}
use snservices.Ban.Kept.{here, there, can_join-Hit}
use snservices.Match.Shorter.{Single}
use snservices.Ban.Newly.{can_join-add_banid}
use snservices.Ban.Bounds.{Fits, add_banid-Fits}
use snservices.Ban.Removal.{Deleted, Restores, del_banid-Deleted, add_banid-del}

-- `joe!j@h`
abbrev joe : Client
joe = record {
  id = 7;
  name = 106 ∷ 111 ∷ 101 ∷ [];
  username = 106 ∷ [];
  host = 104 ∷ [];
  info = [];
  ip = 49 ∷ 46 ∷ 50 ∷ [];
  is_person = true;
  my_client = true;
  is_reg_nick = false;
  is_ver_nick = false;
  is_masked = false;
  is_u_line = false;
  full_mask = false;
  is_an_oper = false;
  invited = [];
}

abbrev mask_host : Bytes → Bytes
mask_host host = host

abbrev no_channels : Channels
no_channels name = none

abbrev a_ban : Bytes → Ban
a_ban banstr = record { banstr = banstr; who = []; when = 5 }

-- `*!j@*`, `$q:*` and `%*!*@1.*`
abbrev by_user : Bytes
by_user = 42 ∷ 33 ∷ 106 ∷ 64 ∷ 42 ∷ []

abbrev quiet_all : Bytes
quiet_all = 36 ∷ 113 ∷ 58 ∷ 42 ∷ []

abbrev by_address : Bytes
by_address = 37 ∷ 42 ∷ 33 ∷ 42 ∷ 64 ∷ 49 ∷ 46 ∷ 42 ∷ []

-- `$q:*!*@1.2`
abbrev quiet_address : Bytes
quiet_address = 36 ∷ 113 ∷ 58 ∷ 42 ∷ 33 ∷ 42 ∷ 64 ∷ 49 ∷ 46 ∷ 50 ∷ []

-- `%*!*@9.9`
abbrev other_address : Bytes
other_address = 37 ∷ 42 ∷ 33 ∷ 42 ∷ 64 ∷ 57 ∷ 46 ∷ 57 ∷ []

abbrev two_bans : List Ban
two_bans = a_ban quiet_all ∷ a_ban by_user ∷ []

quiet_then_ban : is_banned mask_host no_channels joe two_bans 0 ≡ (some (a_ban by_user), 3)
unfolding is_banned
quiet_then_ban = refl

quiet_only :
    is_banned mask_host no_channels joe (a_ban quiet_all ∷ []) 0 ≡ (some (a_ban quiet_all), 2)
unfolding is_banned
quiet_only = refl

address_ban :
    is_banned mask_host no_channels joe (a_ban by_address ∷ []) 0 ≡ (some (a_ban by_address), 3)
unfolding is_banned
address_ban = refl

-- A rule on the address is read as one only behind a ban on an address, even one that does not match.
address_rule_alone : is_banned mask_host no_channels joe (a_ban quiet_address ∷ []) 0 ≡ (none, 0)
unfolding is_banned
address_rule_alone = refl

address_rule_behind :
    is_banned mask_host no_channels joe (a_ban other_address ∷ a_ban quiet_address ∷ []) 0
    ≡ (some (a_ban quiet_address), 2)
unfolding is_banned
address_rule_behind = refl

-- `\\**` loses its last star, and `\*` with a backslash before it is another mask.
collapse_pair : collapse (92 ∷ 92 ∷ 42 ∷ 42 ∷ []) ≡ 92 ∷ 92 ∷ 42 ∷ []
unfolding collapse
collapse_pair = refl

hits_before : hits (92 ∷ 92 ∷ 42 ∷ 42 ∷ []) (92 ∷ 42 ∷ 97 ∷ []) ≡ true
unfolding hits
hits_before = refl

hits_after : hits (92 ∷ 92 ∷ 42 ∷ []) (92 ∷ 42 ∷ 97 ∷ []) ≡ false
unfolding hits
hits_after = refl

abbrev chan : Chan
chan = record {
  id = 3;
  mode = 0;
  limit = 0;
  key = [];
  users = 1;
  members = record { cptr = 2; flags = 1 } ∷ [];
  banlist = two_bans;
}

abbrev clients : ℕ → Client
clients k = joe

is_banned-verdict_example :
    is_banned mask_host no_channels joe two_bans 0
    ≡ verdict mask_host no_channels
        (first_stop mask_host no_channels joe two_bans)
        (last_rule mask_host no_channels none (
          rules_of mask_host no_channels joe none (before_stop mask_host no_channels joe two_bans)))
        (flags_of mask_host no_channels 0 (
          rules_of mask_host no_channels joe none (before_stop mask_host no_channels joe two_bans)))
is_banned-verdict_example = is_banned-verdict mask_host no_channels joe two_bans 0 refl

by_user-Covers : Covers mask_host no_channels joe (a_ban by_user)
unfolding hits bmake_nick_user_host
by_user-Covers = by_mask refl ((hits-Matches by_user _).0 refl)

can_join-Hit_example :
    (can_join mask_host no_channels joe chan none ≢ 0)
    × (find_user_link 7 chan.members ≡ none → can_send mask_host no_channels joe chan ≢ 0)
unfolding is_invited
can_join-Hit_example =
    can_join-Hit mask_host no_channels joe chan none refl refl (there (here by_user-Covers))

abbrev joins : Member
joins = record { cptr = 7; flags = 0 }

add_banid-Fits_example :
    ((add_banid mask_host no_channels clients joe by_user 9 [] (joins ∷ [])).result ≡ pos 0
      → Fits (collapse by_user) 0 0 []
        × (length (add_banid mask_host no_channels clients joe by_user 9 [] (joins ∷ [])).banlist
            ≤ 60))
    × (Fits (collapse by_user) 0 0 []
        → (add_banid mask_host no_channels clients joe by_user 9 [] (joins ∷ [])).result ≡ pos 0)
add_banid-Fits_example =
    add_banid-Fits mask_host no_channels clients joe by_user 9 [] (joins ∷ []) refl

del_banid-Deleted_example :
    Deleted mask_host no_channels clients by_user two_bans
      (del_banid mask_host no_channels clients (some by_user) two_bans (joins ∷ []))
del_banid-Deleted_example =
    del_banid-Deleted mask_host no_channels clients by_user two_bans (joins ∷ [])

add_banid-del_example :
    Restores mask_host no_channels clients
      (given joe by_user)
      (a_ban quiet_all ∷ [])
      (add_banid mask_host no_channels clients joe by_user 9 (a_ban quiet_all ∷ []) [])
unfolding add_banid
add_banid-del_example =
    add_banid-del mask_host no_channels clients joe by_user 9 (a_ban quiet_all ∷ []) [] refl

by_user-Single : Single by_user
by_user-Single = (
  λ e. absurd (omega (arith, e)),
  (
    λ e. absurd (omega (arith, e)),
    (λ e. absurd (omega (arith, e)), (λ e. absurd (omega (arith, e)), tt)),
  ),
)

abbrev open_chan : Chan
open_chan = record chan { banlist = [] }

abbrev banned_chan : Chan
banned_chan = record open_chan {
  banlist = (add_banid mask_host no_channels clients joe by_user 9 [] []).banlist;
}

can_join-add_banid_example :
    (can_join mask_host no_channels joe banned_chan none ≢ 0)
    × (find_user_link 7 banned_chan.members ≡ none
        → can_send mask_host no_channels joe banned_chan ≢ 0)
unfolding add_banid is_invited hits bmake_nick_user_host
can_join-add_banid_example =
    can_join-add_banid mask_host no_channels clients joe joe by_user 9 open_chan [] none refl
      by_user-Single refl refl refl refl ((hits-Matches by_user _).0 refl)

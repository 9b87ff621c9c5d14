-- ===== src/Ban/Rules.antt =====
-- Ban rules, that begin with `$`: `BanRuleMatch` of ircd/src/channel.c.
use Prim.Native.Nat.{bit_or}
use snservices.Base.{
  ℕ, Bool, true, false, not, ◌&&◌, ◌||◌, Option, none, some, List, [], ◌∷◌, ltb, ◌==◌,
  if◌then◌else◌, Bytes, drop,
}
use snservices.Match.{irc_tolower}
use snservices.Text.{index_left_part}
use snservices.Channel.{Member}
use snservices.Channel.Ops.{find_user_link}
use snservices.Ban.{
  Client, ban_bquiet, ban_mask, ban_require, ban_gecos, ban_regonly, ban_veronly, ban_std, hits,
  begins, second, begins_low, is_empty, maybe_hits,
}

abbrev pub is_member : ℕ → List Member → Bool
is_member id members = elim (find_user_link id members) [ none ↦ false | some _ ↦ true ]

-- The members of another channel, if it is there.
abbrev pub Channels : Type 0
Channels = Bytes → Option (List Member)

abbrev pub member_of : Channels → ℕ → Bytes → Bool
member_of channels id name = elim (channels name) [
  | none ↦ false
  | some members ↦ is_member id members
]

-- The kind of rule, with the length of its tag, or nothing for a rule that is none.
unfoldable pub rule_kind : Client → Bytes → Option (ℕ × ℕ)
unfolding irc_tolower index_left_part
rule_kind c text =
    if begins_low 113 text && second 58 text
    then some (ban_bquiet, 2)
    else if begins_low 109 text
    then some (ban_mask, 0)
    else if begins_low 114 text && second 58 text
    then some (ban_require, 2)
    else if begins_low 103 text && second 58 text
    then some (ban_gecos, 2)
    else if ltb 0 (index_left_part text (82 ∷ 82 ∷ 58 ∷ [])) && not c.is_reg_nick
    then some (ban_regonly, 3)
    else if ltb 0 (index_left_part text (82 ∷ 86 ∷ 58 ∷ [])) && not c.is_ver_nick
    then some (ban_veronly, 3)
    else none

-- Rules for masks hit everybody if the mask is empty.
unfoldable pub mask_applies : Bytes → Bytes → Bytes → Option Bytes → Bool
unfolding hits
mask_applies pattern nuh nuhmask sip =
    is_empty pattern || hits pattern nuh || hits pattern nuhmask || maybe_hits pattern sip

-- A rule of this kind: the flags it sets, if it applies.
unfoldable pub apply_rule :
    Channels → Client → Bool → ℕ → Bytes → Bytes → Bytes → Option Bytes → Option ℕ
unfolding mask_applies find_user_link
apply_rule channels c negate kind pattern nuh nuhmask sip =
    if kind == ban_require
    then (let member = member_of channels c.id pattern in
        if (member && negate) || (not member && not negate) then some kind else none)
    else if kind == ban_gecos
    then (if hits pattern c.info then some kind else none)
    else if kind == ban_mask
    then (if c.is_masked then some (bit_or kind ban_std) else none)
    else if mask_applies pattern nuh nuhmask sip
    then some kind
    else none

-- `BanRuleMatch`, given a text that begins with `$`; nothing for 0, else what it writes to `*result`.
unfoldable pub ban_rule_match : Channels → Client → Bytes → Bytes → Bytes → Option Bytes → Option ℕ
unfolding rule_kind apply_rule
ban_rule_match channels c text nuh nuhmask sip =
    if not (begins 36 text)
    then none
    else (let t = drop 1 text in
        let negate = begins_low 33 t && not (is_empty (drop 1 t)) in
        let rule = if negate then drop 1 t else t in
        elim (rule_kind c rule) [
          | none ↦ none
          | some (kind, start) ↦ apply_rule channels c negate kind (drop start rule) nuh nuhmask sip
        ])

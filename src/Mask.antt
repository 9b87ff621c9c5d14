-- ===== src/Mask.antt =====
-- services/stuff.c: `split_userhost`, which cuts nick!user@host into its parts. A text is the list of
-- its bytes, with no NUL among them; the pointers into it are the texts before and behind them.
pub mod Parts
mod Examples
use snservices.Base.{
  ℕ, zero, suc, ◌+◌, Bool, true, false, ◌||◌, Option, none, some, List, [], ◌∷◌, ◌==◌,
  if◌then◌else◌, Bytes, take,
}
use snservices.NickServ.{nicklen}

pub record MaskData : Type 0 where
  pub nick : Bytes
  pub user : Bytes
  pub host : Bytes

abbrev pub userlen : ℕ
userlen = 11

abbrev pub hostlen : ℕ
hostlen = 64

abbrev pub star_text : Bytes
star_text = 42 ∷ []

-- `IrcStr`
abbrev pub irc_str : Bytes → Bytes
irc_str [] = star_text
irc_str (c ∷ s) = c ∷ s

-- What stands before the first `sep` and what stands behind it.
abbrev pub consed : ℕ → Option (Bytes × Bytes) → Option (Bytes × Bytes)
consed c none = none
consed c (some (a, b)) = some (c ∷ a, b)

unfoldable pub split_first : ℕ → Bytes → Option (Bytes × Bytes)
split_first sep [] = none
split_first sep (c ∷ s) =
    let further = consed c (split_first sep s) in if c == sep then some ([], s) else further

abbrev pub or_here : Bool → Bytes → Option (Bytes × Bytes) → Option (Bytes × Bytes)
or_here here s (some x) = some x
or_here true s none = some ([], s)
or_here false s none = none

-- The same for the last one.
unfoldable pub split_last : ℕ → Bytes → Option (Bytes × Bytes)
split_last sep [] = none
split_last sep (c ∷ s) = or_here (c == sep) s (consed c (split_last sep s))

-- The first byte that is `!` or `@`, where `p` stops.
unfoldable pub first_sep : Bytes → Option ℕ
first_sep [] = none
first_sep (c ∷ s) =
    let further = first_sep s in if c == 33 then some 33 else if c == 64 then some 64 else further

abbrev pub parts : Bytes → Bytes → Bytes → MaskData
parts nick user host = record {
  nick = take nicklen (irc_str nick);
  user = take userlen (irc_str user);
  host = take hostlen (irc_str host);
}

abbrev pub cut_user : Option (Bytes × Bytes) → MaskData
cut_user none = parts [] [] []
cut_user (some (user, host)) = parts [] user host

abbrev pub cut_nick : Option (Bytes × Bytes) → Bytes → MaskData
cut_nick none host = parts [] [] host
cut_nick (some (nick, user)) host = parts nick user host

-- `p` is the last `!` before the first `@`, which `p2` looks for.
abbrev pub cut_three : Bytes → Option (Bytes × Bytes) → MaskData
cut_three input none = cut_nick (split_last 33 input) []
cut_three input (some (before, host)) = cut_nick (split_last 33 before) host

-- By the byte where the first loop stops.
abbrev pub cut_at : Bytes → Option ℕ → MaskData
cut_at input none = parts input [] []
cut_at input (some c) =
    if c == 64 then cut_user (split_last 64 input) else cut_three input (split_first 64 input)

-- It returns 0 for every input that is there.
unfoldable pub split_userhost : Bytes → MaskData
unfolding first_sep split_first split_last
split_userhost input = cut_at input (first_sep input)

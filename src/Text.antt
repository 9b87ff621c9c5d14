-- ===== src/Text.antt =====
-- ircd/src/channel.c: two routines on the text of names and ban rules.
pub mod Clean
pub mod Prefix
mod Examples
use snservices.Base.{
  ℕ, zero, suc, ◌+◌, Bool, true, false, not, ◌||◌, Option, none, some, List, [], ◌∷◌, ◌==◌,
  if◌then◌else◌, Bytes,
}
use snservices.Match.{irc_tolower}

-- The bytes that may not stand in the name of a channel: controls, the comma and the spaces.
pub is_unclean : ℕ → Bool
is_unclean c =
    c == 7
    || c == 32
    || c == 44
    || c == 160
    || c == 27
    || c == 9
    || c == 3
    || c == 15
    || c == 22
    || c == 31
    || c == 2
    || c == 1
    || c == 8

-- The name is cut at the first of them.
pub clean_channelname : Bytes → Bytes
clean_channelname [] = []
clean_channelname (c ∷ cn) =
    let rest = clean_channelname cn in if is_unclean c then [] else c ∷ rest

-- The loop of `index_left_part`, with `i` bytes compared so far.
pub left_loop : ℕ → Bytes → Bytes → ℕ
left_loop i text [] = i
left_loop i [] (_ ∷ _) = 0
left_loop i (t ∷ text) (c ∷ substring) =
    let further = left_loop (i + 1) text substring in
    if not (irc_tolower t == irc_tolower c) then 0 else further

unfoldable pub index_left_part : Bytes → Bytes → ℕ
unfolding left_loop
index_left_part text substring = left_loop 0 text substring

-- ===== src/Match/Collapse.antt =====
-- `collapse` of ircd/src/match.c: a mask without the stars that another star makes needless.
use snservices.Base.{ℕ, Bool, true, false, ◌&&◌, [], ◌∷◌, ◌==◌, if◌then◌else◌, Bytes}
use snservices.Match.{star_byte, any_byte, backslash}

-- Where the mask is read: behind a star, behind stars of which all but one are dropped, in a run of
-- question marks behind a star, behind a backslash, or elsewhere.
pub data Place : Type 0 where
  plain : Place
  after_star : Place
  dropping : Place
  in_run : Place
  escaped : Place

-- Whether a star is dropped here.
abbrev pub drops : Place → Bool
drops plain = false
drops after_star = true
drops dropping = true
drops in_run = true
drops escaped = false

-- Behind a question mark.
abbrev pub run_from : Place → Place
run_from after_star = in_run
run_from in_run = in_run
run_from plain = plain
run_from dropping = plain
run_from escaped = plain

abbrev pub after_byte : Place → ℕ → Place
after_byte p c =
    if c == backslash
    then escaped
    else if c == star_byte
    then after_star
    else if c == any_byte
    then run_from p
    else plain

abbrev pub next_place : Place → ℕ → Place
next_place escaped c = plain
next_place plain c = after_byte plain c
next_place after_star c = if c == star_byte then dropping else after_byte after_star c
next_place dropping c = if c == star_byte then dropping else after_byte dropping c
next_place in_run c = if c == star_byte then in_run else after_byte in_run c

unfoldable pub collapse_from : Place → Bytes → Bytes
collapse_from p [] = []
collapse_from p (c ∷ r) =
    let rest = collapse_from (next_place p c) r in
    if drops p && c == star_byte then rest else c ∷ rest

unfoldable pub collapse : Bytes → Bytes
unfolding collapse_from
collapse pattern = collapse_from plain pattern

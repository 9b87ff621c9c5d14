-- ===== src/Cmp.antt =====
-- ircd/src/string.c: comparison of texts without regard to case. A text is the list of its bytes, with
-- no NUL among them.
pub mod Equal
mod Examples
use snservices.Base.{
  ℕ, zero, suc, ◌+◌, ◌-◌, Bool, true, false, ◌&&◌, List, [], ◌∷◌, leb, ltb, ◌==◌, if◌then◌else◌,
  Bytes,
}
use snservices.Base.Int.{ℤ, pos, negsuc}

-- `irc_touppertab`: all bytes from `a` to 0x7f are 32 lower.
pub irc_toupper : ℕ → ℕ
irc_toupper c = if leb 97 c && leb c 127 then c - 32 else c

-- The `int` that is `a - b`.
pub diff : ℕ → ℕ → ℤ
diff a b = if ltb a b then negsuc (b - a - 1) else pos (a - b)

-- The loop runs on as long as `res` is 0.
unfoldable pub smycmp : Bytes → Bytes → ℤ
unfolding irc_toupper diff
smycmp [] [] = pos 0
smycmp [] (c ∷ _) = diff 0 (irc_toupper c)
smycmp (a ∷ _) [] = diff (irc_toupper a) 0
smycmp (a ∷ s1) (c ∷ s2) =
    let further = smycmp s1 s2 in
    if irc_toupper a == irc_toupper c then further else diff (irc_toupper a) (irc_toupper c)

-- ===== src/Match/Examples.antt =====
-- Tests of the masks, and the theorems at concrete inputs.
use snservices.Base.{◌≡◌, refl, arith, some, [], ◌∷◌, Bytes}
use snservices.Match.{star_byte, any_byte, backslash, r_match, match}
use snservices.Match.Tokens.{Matches, tokens}
use snservices.Match.Verdict.{Answers, r_match-Answers}
use snservices.Match.Collapse.{collapse}
use snservices.Match.Shorter.{SameTexts, collapse-SameTexts}
use snservices.Match.Prefilter.{match-r_match}

-- `*!*@*.Net`
abbrev mask : Bytes
mask = star_byte ∷ 33 ∷ star_byte ∷ 64 ∷ star_byte ∷ 46 ∷ 78 ∷ 101 ∷ 116 ∷ []

-- `joe!j@a.net`
abbrev joe : Bytes
joe = 106 ∷ 111 ∷ 101 ∷ 33 ∷ 106 ∷ 64 ∷ 97 ∷ 46 ∷ 110 ∷ 101 ∷ 116 ∷ []

-- `joe!j@a.com`
abbrev jane : Bytes
jane = 106 ∷ 111 ∷ 101 ∷ 33 ∷ 106 ∷ 64 ∷ 97 ∷ 46 ∷ 99 ∷ 111 ∷ 109 ∷ []

match_joe : r_match mask joe ≡ some 0
unfolding r_match
match_joe = refl

match_com : r_match mask jane ≡ some 1
unfolding r_match
match_com = refl

-- `a\*?` and a star that stands for itself.
escaped_star :
    r_match (97 ∷ backslash ∷ star_byte ∷ any_byte ∷ []) (65 ∷ star_byte ∷ 120 ∷ []) ≡ some 0
unfolding r_match
escaped_star = refl

r_match-Answers_example : Answers (Matches (tokens mask) jane) (r_match mask jane)
r_match-Answers_example = r_match-Answers mask jane

match-r_match_example : match mask jane ≡ r_match mask jane
match-r_match_example = match-r_match mask jane

-- `*?**a\*`
abbrev long_mask : Bytes
long_mask = star_byte ∷ any_byte ∷ star_byte ∷ star_byte ∷ 97 ∷ backslash ∷ star_byte ∷ []

collapse_long : collapse long_mask ≡ star_byte ∷ any_byte ∷ 97 ∷ backslash ∷ star_byte ∷ []
unfolding collapse
collapse_long = refl

collapse-SameTexts_example : SameTexts (tokens (collapse long_mask)) (tokens long_mask)
collapse-SameTexts_example = collapse-SameTexts long_mask (
  (λ e. absurd (omega (arith, e))),
  (
    (λ e. absurd (omega (arith, e))),
    (
      (λ e. absurd (omega (arith, e))),
      (
        (λ e. absurd (omega (arith, e))),
        ((λ e. absurd (omega (arith, e))), ((λ _ h. absurd (omega (arith, h))), tt)),
      ),
    ),
  ),
)

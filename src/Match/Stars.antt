-- ===== src/Match/Stars.antt =====
-- Runs of stars in a mask.
use snservices.Base.{
  ℕ, zero, suc, ◌≤◌, ◌≡◌, inl, inr, true, false, List, [], ◌∷◌, ◌==◌, Bytes, length, drop, arith,
  Bool-cases,
}
use snservices.Match.{Pos, star_byte, skip_stars}
use snservices.Match.Tokens.{Token, any, star, tokens, Matches, byte, stop, star_star}

-- The text does not begin with a star.
abbrev pub NotStar : Bytes → Type 0
NotStar [] = Unit
NotStar (a ∷ _) = (a == star_byte) ≡ false

pub any_skip :
    (p : List Token) (j c : ℕ) (s : Bytes)
    → Matches p (drop j s)
    → (i : ℕ) × Matches (any ∷ p) (drop i (c ∷ s))
any_skip p zero c s d = (0, byte tt d)
any_skip p (suc j) c [] d = (0, byte tt d)
any_skip p (suc j) c (x ∷ s) d = let (i, e) = any_skip p j x s d in (suc i, e)

-- `p` is what follows the run of stars at the front of `r`; behind a star the two mean the same.
pub record Skips (r : Bytes) (p : Pos) : Type 0 where
  pub into : (n : Bytes) → Matches (star ∷ tokens r) n → Matches (star ∷ tokens p.rest) n
  pub back : (n : Bytes) → Matches (star ∷ tokens p.rest) n → Matches (star ∷ tokens r) n
  pub short : length p.rest ≤ length r
  pub plain : NotStar p.rest

pub tokens-star : (c : ℕ) (r : Bytes) → (c == star_byte) ≡ true → tokens (c ∷ r) ≡ star ∷ tokens r
unfolding tokens
tokens-star c [] e = ground arith
tokens-star c (d ∷ r) e = ground arith

pub skip_stars-Skips : (b r : Bytes) → Skips r (skip_stars b r)
unfolding skip_stars
skip_stars-Skips b [] = record { into = λ n d. d; back = λ n d. d; short = omega arith; plain = tt }
skip_stars-Skips b (c ∷ r) = elim (Bool-cases (c == star_byte)) [
  | inl e ↦
      let k = skip_stars-Skips (c ∷ b) r in
      rw e (record {
        into = λ n d. k.into n (star_star (rw (tokens-star c r e) at d));
        back = λ n d. rw (tokens-star c r e) (more_star (k.back n d));
        short = omega (arith, k.short);
        plain = k.plain;
      })
  | inr e ↦ rw e (record { into = λ n d. d; back = λ n d. d; short = omega arith; plain = e })
]
  where
    more_star : {p : List Token} {n : Bytes} → Matches (star ∷ p) n → Matches (star ∷ star ∷ p) n
    more_star d = stop d

-- ===== src/Match/Compare.antt =====
-- One comparison of `r_match`, read as a step over the tokens of the mask.
use snservices.Base.{
  ℕ, ◌<◌, ◌≡◌, ◌≢◌, refl, sym, ap, ◌∙◌, inl, inr, true, false, ◌&&◌, List, [], ◌∷◌, ◌==◌,
  if◌then◌else◌, Bytes, length, arith, false≢true, Bool-cases, List-cases,
}
use snservices.Match.{
  Pos, State, ret, go, star_byte, any_byte, backslash, is_wild, irc_tolower, back_star, retry,
  differs, is_any, advance, unescape, tail, compare_byte,
}
use snservices.Match.Tokens.{Token, lit, any, star, token, tokens, Accepts}

-- What comparing a byte tells, at a byte of the mask that is no star and a byte `c` of the name.
pub data Compared (s : State) (c : ℕ) (n' : Bytes) : Type 0 where
  fits :
      (t : Token) (m' : Pos)
      → tokens s.m.rest ≡ t ∷ tokens m'.rest
      → t ≢ star
      → Accepts t c
      → length m'.rest < length s.m.rest
      → (back_star m'.before ≡ true → (t ≡ any) × (back_star s.m.before ≡ true))
      → compare_byte s ≡ go (record s { m = m'; n = n' })
      → Compared s c n'
  misses :
      (t : Token) (p : List Token)
      → tokens s.m.rest ≡ t ∷ p
      → t ≢ star
      → ¬ Accepts t c
      → compare_byte s ≡ (if s.wild then retry s go else ret 1)
      → Compared s c n'

back_star-any :
    (b : Bytes) (a : ℕ) → (a == any_byte) ≡ true → back_star (a ∷ b) ≡ true → back_star b ≡ true
unfolding back_star
back_star-any [] a q h = absurd (false≢true h)
back_star-any (d ∷ r) a q h = ground arith

back_star-plain :
    (b : Bytes) (a : ℕ)
    → (a == star_byte) ≡ false
    → (a == any_byte) ≡ false
    → ¬ (back_star (a ∷ b) ≡ true)
unfolding back_star
back_star-plain [] a ns nq h = false≢true h
back_star-plain (d ∷ r) a ns nq h = ground arith

back_star-escaped :
    (b : Bytes) (d a : ℕ) → (a == backslash && is_wild d) ≡ true → ¬ (back_star (d ∷ a ∷ b) ≡ true)
unfolding back_star
back_star-escaped [] d a w h = ground arith
back_star-escaped (x ∷ r) d a w h = ground arith

module _ (s : State) (a : ℕ) (r : Bytes) (c : ℕ) (n' : Bytes) (em : s.m.rest ≡ a ∷ r)
    (en : s.n ≡ c ∷ n') (ns : (a == star_byte) ≡ false) where
  after_byte : Pos
  after_byte = record { before = a ∷ s.m.before; rest = r }

  plain-Compared :
      unescape s.m ≡ (s.m, false) → tokens (a ∷ r) ≡ token a ∷ tokens r → Compared s c n'
  unfolding compare_byte after_byte back_star advance differs is_any tail
  plain-Compared eu et = elim (Bool-cases (a == any_byte)) [
    | inl q ↦
        fits any after_byte (ap tokens em ∙ et ∙ ap (λ t. t ∷ tokens r) (ground arith)) (λ e. cc) tt
          (omega (arith, ap length em)) (λ h. (refl, back_star-any s.m.before a q h))
          (ground (arith, eu))
    | inr nq ↦ elim (Bool-cases (irc_tolower a == irc_tolower c)) [
      | inl same ↦
          fits (lit a) after_byte (ap tokens em ∙ et ∙ ap (λ t. t ∷ tokens r) (ground arith))
            (λ e. cc) (ground arith) (omega (arith, ap length em))
            (λ h. absurd (back_star-plain s.m.before a ns nq h)) (ground (arith, eu))
      | inr differ ↦
          misses (lit a) (tokens r) (ap tokens em ∙ et ∙ ap (λ t. t ∷ tokens r) (ground arith))
            (λ e. cc) (λ h. ground arith) (ground (arith, eu))
    ]
  ]

  -- A backslash and the byte that it escapes.
  escaped-Compared :
      (d : ℕ) (r' : Bytes) → r ≡ d ∷ r' → (a == backslash && is_wild d) ≡ true → Compared s c n'
  unfolding compare_byte back_star advance differs is_any tail unescape tokens
  escaped-Compared d r' e h = elim (Bool-cases (irc_tolower d == irc_tolower c)) [
    | inl same ↦
        fits (lit d) (record { before = d ∷ a ∷ s.m.before; rest = r' })
          (ap tokens em ∙ ap (λ x. tokens (a ∷ x)) e ∙ ground arith) (λ e. cc) (ground arith)
          (omega (arith, ap length em, ap length e))
          (λ k. absurd (back_star-escaped s.m.before d a h k)) (ground arith)
    | inr differ ↦
        misses (lit d) (tokens r') (ap tokens em ∙ ap (λ x. tokens (a ∷ x)) e ∙ ground arith)
          (λ e. cc) (λ h. ground arith) (ground arith)
  ]

  -- Every byte of the mask but a star is compared in one of the two ways.
  pub compared : Compared s c n'
  unfolding unescape tokens
  compared = elim (List-cases r) [
    | inl e ↦
        plain-Compared (ground arith)
          (ap (λ x. tokens (a ∷ x)) e ∙ ap (λ x. token a ∷ tokens x) (sym e))
    | inr (d, r', e) ↦ elim (Bool-cases (a == backslash && is_wild d)) [
      | inl h ↦ escaped-Compared d r' e h
      | inr h ↦
          plain-Compared (ground arith)
            (ap (λ x. tokens (a ∷ x)) e ∙ ground arith ∙ ap (λ x. token a ∷ tokens x) (sym e))
    ]
  ]

-- The comparisons that find the mask at its end.
module _ (s : State) (em : s.m.rest ≡ []) where
  pub both_ended : s.n ≡ [] → compare_byte s ≡ go s
  unfolding compare_byte unescape differs advance tail
  both_ended en = ground arith

  pub mask_ended :
      (c : ℕ) (n' : Bytes) → s.n ≡ c ∷ n' → compare_byte s ≡ (if s.wild then retry s go else ret 1)
  unfolding compare_byte unescape differs is_any
  mask_ended c n' en = ground arith

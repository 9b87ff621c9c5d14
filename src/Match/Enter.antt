-- ===== src/Match/Enter.antt =====
-- The first statement of a round: a run of stars becomes the place to go back to.
use snservices.Base.{
  ℕ, suc, ◌*◌, ◌≤◌, ◌≡◌, refl, sym, ap, inl, inr, true, false, [], ◌∷◌, ◌==◌, Bytes, length, arith,
  Bool-cases, List-cases, subst,
}
use snservices.Match.{Pos, State, star_byte, skip_stars, enter}
use snservices.Match.Tokens.{star_star}
use snservices.Match.Stars.{NotStar, Skips, skip_stars-Skips, tokens-star}
use snservices.Match.Search.{Inv, measure, restart-Inv}

mul_mono : (a b c : ℕ) → a ≤ b → a * c ≤ b * c
mul_mono a b c h = grind arith

module _ (s : State) where
  enter_end : s.m.rest ≡ [] → enter s ≡ s
  unfolding enter
  enter_end e = ground arith

  enter_plain : (c : ℕ) (r : Bytes) → s.m.rest ≡ c ∷ r → (c == star_byte) ≡ false → enter s ≡ s
  unfolding enter
  enter_plain c r e h = ground arith

  abbrev behind_stars : Bytes → State
  behind_stars r =
      let p = skip_stars s.m.before r in record { m = p; n = s.n; ma = p; na = s.n; wild = true }

  enter_star :
      (c : ℕ) (r : Bytes)
      → s.m.rest ≡ c ∷ r
      → (c == star_byte) ≡ true
      → enter s ≡ behind_stars (c ∷ r)
  unfolding enter
  enter_star c r e h = ground arith

module _ (G : Type 0) (k : ℕ) where
  pub record Entered (s t : State) : Type 0 where
    pub inv : Inv G k t
    pub measure_le : measure G k t ≤ measure G k s
    pub plain : NotStar t.m.rest

  module _ (s : State) (i : Inv G k s) where
    behind_stars-Entered :
        (c : ℕ) (r : Bytes)
        → s.m.rest ≡ c ∷ r
        → (c == star_byte) ≡ true
        → Entered s (behind_stars s (c ∷ r))
    behind_stars-Entered c r e h = record {
      inv =
          restart-Inv G k p s.n true refl v.plain
            (λ d.
              i.now
                (rw (e, tokens-star c r h) (star_star (rw (tokens-star c r h) at (v.back s.n d)))))
            (λ g. v.into s.n (rw e at (i.later g)))
            (omega (arith, v.short, i.mask_bound, i.bound, ap length e));
      measure_le =
          omega
            (arith, mul_mono (length s.n) (length s.na) (suc k) i.shorter, v.short, ap length e);
      plain = v.plain;
    }
      where
        p : Pos
        p = skip_stars s.m.before (c ∷ r)

        v : Skips (c ∷ r) p
        v = skip_stars-Skips s.m.before (c ∷ r)

    pub enter-Entered : Entered s (enter s)
    enter-Entered = elim (List-cases s.m.rest) [
      | inl e ↦
          rw (enter_end s e)
            (record { inv = i; measure_le = omega arith; plain = subst NotStar (sym e) tt })
      | inr (c, r, e) ↦ elim (Bool-cases (c == star_byte)) [
        | inl h ↦ rw (enter_star s c r e h) (behind_stars-Entered c r e h)
        | inr h ↦
            rw (enter_plain s c r e h)
              (record { inv = i; measure_le = omega arith; plain = subst NotStar (sym e) h })
      ]
    ]

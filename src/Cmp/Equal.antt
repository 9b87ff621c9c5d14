-- ===== src/Cmp/Equal.antt =====
-- When two texts are equal without regard to case.
use snservices.Base.{
  ℕ, zero, suc, ◌-◌, ◌<◌, ◌≡◌, refl, sym, ap, ◌∙◌, inl, inr, true, false, [], ◌∷◌, ltb, ◌==◌, Bytes,
  All, arith, Bool-cases, ==_iff, false≢true,
}
use snservices.Base.Int.{ℤ, pos, negsuc}
use snservices.Cmp.{irc_toupper, diff, smycmp}

-- The same bytes in upper case, in the same number.
pub data Same : Bytes → Bytes → Type 0 where
  ends : Same [] []
  goes :
      {a c : ℕ} {s1 s2 : Bytes}
      → irc_toupper a ≡ irc_toupper c
      → Same s1 s2
      → Same (a ∷ s1) (c ∷ s2)

abbrev pub NonZero : Bytes → Type 0
NonZero s = All (λ c. 0 < c) s

toupper_pos : (c : ℕ) → 0 < c → 0 < irc_toupper c
unfolding irc_toupper
toupper_pos c h = ground arith

abbrev pub negate : ℤ → ℤ
negate (pos zero) = pos zero
negate (pos (suc n)) = negsuc n
negate (negsuc n) = pos (suc n)

-- How far from 0.
abbrev size : ℤ → ℕ
size (pos n) = n
size (negsuc n) = suc n

diff_zero : (a b : ℕ) → diff a b ≡ pos 0 → a ≡ b
unfolding diff
diff_zero a b h = elim (Bool-cases (ltb a b)) [
  | inl e ↦ let h' = rw e at h in absurd cc
  | inr e ↦ let h' = ap size (rw e at h) in ground (arith, h')
]

negate_pos : (n m : ℕ) → n ≡ suc m → negate (pos n) ≡ negsuc m
negate_pos n m e = rw e refl

negate-diff : (a b : ℕ) → negate (diff a b) ≡ diff b a
unfolding diff
negate-diff a b = elim (Bool-cases (ltb a b)) [
  | inl e ↦
      let q : ltb b a ≡ false = ground arith in
      let z : suc (b - a - 1) ≡ b - a = ground arith in rw (e, q) (ap pos z)
  | inr e ↦ elim (Bool-cases (ltb b a)) [
    | inl q ↦
        let z : a - b ≡ suc (a - b - 1) = ground arith in
        rw (e, q) (negate_pos (a - b) (a - b - 1) z)
    | inr q ↦
        let z : a - b ≡ 0 = ground arith in
        let z' : b - a ≡ 0 = ground arith in rw (e, q, z, z') refl
  ]
]

-- To compare in the other order changes the sign and nothing else.
pub smycmp-swap : (s1 s2 : Bytes) → smycmp s2 s1 ≡ negate (smycmp s1 s2)
unfolding smycmp
smycmp-swap [] [] = refl
smycmp-swap [] (c ∷ s2) = sym (negate-diff 0 (irc_toupper c))
smycmp-swap (a ∷ s1) [] = sym (negate-diff (irc_toupper a) 0)
smycmp-swap (a ∷ s1) (c ∷ s2) = elim (Bool-cases (irc_toupper a == irc_toupper c)) [
  | inl e ↦
      let q : (irc_toupper c == irc_toupper a) ≡ true = ground arith in
      rw (e, q) (smycmp-swap s1 s2)
  | inr e ↦
      let q : (irc_toupper c == irc_toupper a) ≡ false = ground arith in
      rw (e, q) (sym (negate-diff (irc_toupper a) (irc_toupper c)))
]

Same-head : {a c : ℕ} {s1 s2 : Bytes} → Same (a ∷ s1) (c ∷ s2) → irc_toupper a ≡ irc_toupper c
Same-head (goes h s) = h

Same-tail : {a c : ℕ} {s1 s2 : Bytes} → Same (a ∷ s1) (c ∷ s2) → Same s1 s2
Same-tail (goes h s) = s

-- For texts without a NUL among their bytes: the result is 0 exactly if they are the same up to case.
pub smycmp_lem :
    (s1 s2 : Bytes)
    → NonZero s1
    → NonZero s2
    → (smycmp s1 s2 ≡ pos 0 → Same s1 s2) × (Same s1 s2 → smycmp s1 s2 ≡ pos 0)
unfolding smycmp
smycmp_lem [] [] h k = ((λ _. ends), λ _. refl)
smycmp_lem [] (c ∷ s2) h (k, _) =
    ((λ e. absurd (omega (arith, diff_zero 0 (irc_toupper c) e, toupper_pos c k))), λ s. elim s [ ])
smycmp_lem (a ∷ s1) [] (h, _) k =
    ((λ e. absurd (omega (arith, diff_zero (irc_toupper a) 0 e, toupper_pos a h))), λ s. elim s [ ])
smycmp_lem (a ∷ s1) (c ∷ s2) (h, hs) (k, ks) = elim (Bool-cases (irc_toupper a == irc_toupper c)) [
  | inl e ↦
      let (f, g) = smycmp_lem s1 s2 hs ks in
      let q = (==_iff (irc_toupper a) (irc_toupper c)).0 e in
      rw e ((λ z. goes q (f z)), λ s. g (Same-tail s))
  | inr e ↦ rw e (
    (λ z. absurd (
        false≢true (
          sym e
          ∙ (==_iff (irc_toupper a) (irc_toupper c)).1
              (diff_zero (irc_toupper a) (irc_toupper c) z)))),
    λ s. absurd (false≢true (sym e ∙ (==_iff (irc_toupper a) (irc_toupper c)).1 (Same-head s))),
  )
]

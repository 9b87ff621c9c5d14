-- ===== src/Match/Shorter.antt =====
-- `collapse` of ircd/src/match.c and the meaning of a mask in which no backslash stands behind another.
use snservices.Base.{
  ℕ, ◌≡◌, ◌≢◌, refl, sym, ap, subst, false≢true, inl, inr, Bool, true, false, List, [], ◌∷◌, ◌==◌,
  if◌then◌else◌, Bytes, arith, Bool-cases, ==_iff,
}
use snservices.Match.{is_wild}
use snservices.Match.Tokens.{
  Token, lit, any, star, token, tokens, Matches, byte, stop, more, star_star, byte_inv, byte_at_end,
  star_at_end,
}
use snservices.Match.Collapse.{
  Place, plain, after_star, dropping, in_run, escaped, collapse_from, collapse,
}

-- The two masks stand for the same texts.
pub record SameTexts (p q : List Token) : Type 0 where
  pub there : (s : Bytes) → Matches p s → Matches q s
  pub back : (s : Bytes) → Matches q s → Matches p s

same_refl : {p : List Token} → SameTexts p p
same_refl = record { there = λ s d. d; back = λ s d. d }

same_sym : {p q : List Token} → SameTexts p q → SameTexts q p
same_sym f = record { there = f.back; back = f.there }

same_trans : {p q r : List Token} → SameTexts p q → SameTexts q r → SameTexts p r
same_trans f g = record {
  there = λ s d. g.there s (f.there s d);
  back = λ s d. f.back s (g.back s d);
}

under_mono :
    {p q : List Token} (t : Token)
    → ((s : Bytes) → Matches p s → Matches q s)
    → (s : Bytes) → Matches (t ∷ p) s
    → Matches (t ∷ q) s
under_mono t f (c ∷ s) (byte h d) = byte h (f s d)
under_mono star f s (stop d) = stop (f s d)
under_mono star f (c ∷ s) (more d) = more (under_mono star f s d)

under : {p q : List Token} (t : Token) → SameTexts p q → SameTexts (t ∷ p) (t ∷ q)
under t f = record { there = under_mono t f.there; back = under_mono t f.back }

abbrev takes_all : Token → Bool
takes_all star = true
takes_all any = false
takes_all (lit _) = false

any-star : any ≢ star
any-star e = false≢true (ap takes_all e)

module _ {p : List Token} where
  any_first : (s : Bytes) → Matches (star ∷ any ∷ p) s → Matches (any ∷ star ∷ p) s
  any_first (c ∷ s) (stop (byte h d)) = byte tt (stop d)
  any_first (c ∷ c' ∷ s) (more d) = byte tt (more (byte_inv any any-star (any_first (c' ∷ s) d)).1)
  any_first (c ∷ []) (more d) = absurd (byte_at_end any any-star (star_at_end d))
  any_first (c ∷ s) (byte h d) = absurd h
  any_first [] (stop d) = absurd (byte_at_end any any-star d)

  star_first : (c : ℕ) (s : Bytes) → Matches (star ∷ p) s → Matches (star ∷ any ∷ p) (c ∷ s)
  star_first c s (stop d) = stop (byte tt d)
  star_first c (c' ∷ s) (more d) = more (star_first c' s d)
  star_first c (c' ∷ s) (byte h d) = absurd h

  star_second : (s : Bytes) → Matches (any ∷ star ∷ p) s → Matches (star ∷ any ∷ p) s
  star_second (c ∷ s) (byte h d) = star_first c s d
  star_second [] d = absurd (byte_at_end any any-star d)

  swap_any : SameTexts (star ∷ any ∷ p) (any ∷ star ∷ p)
  swap_any = record { there = any_first; back = star_second }

  one_star : SameTexts (star ∷ star ∷ p) (star ∷ p)
  one_star = record { there = λ s d. star_star d; back = λ s d. stop d }

-- No two backslashes stand one behind the other.
abbrev pub Single : Bytes → Type 0
Single [] = Unit
Single (c ∷ []) = Unit
Single (c ∷ d ∷ m) = (c ≡ 92 → d ≢ 92) × Single (d ∷ m)

abbrev StartsPlain : Bytes → Type 0
StartsPlain [] = Unit
StartsPlain (d ∷ m) = d ≢ 92

abbrev Claim : Place → Bytes → Type 0
Claim plain m = SameTexts (tokens (collapse_from plain m)) (tokens m)
Claim after_star m = SameTexts (star ∷ tokens (collapse_from after_star m)) (star ∷ tokens m)
Claim dropping m = SameTexts (star ∷ tokens (collapse_from dropping m)) (star ∷ tokens m)
Claim in_run m = SameTexts (star ∷ tokens (collapse_from in_run m)) (star ∷ tokens m)
Claim escaped m =
    StartsPlain m → SameTexts (tokens (92 ∷ collapse_from escaped m)) (tokens (92 ∷ m))

-- What a byte is to a mask.
data Sort (c : ℕ) : Type 0 where
  is_backslash : c ≡ 92 → Sort c
  is_star : c ≡ 42 → Sort c
  is_any : c ≡ 63 → Sort c
  other : (c == 92) ≡ false → (c == 42) ≡ false → (c == 63) ≡ false → Sort c

sort : (c : ℕ) → Sort c
sort c = elim (Bool-cases (c == 92)) [
  | inl e ↦ is_backslash ((==_iff c 92).0 e)
  | inr e ↦ elim (Bool-cases (c == 42)) [
    | inl f ↦ is_star ((==_iff c 42).0 f)
    | inr f ↦ elim (Bool-cases (c == 63)) [
      | inl g ↦ is_any ((==_iff c 63).0 g)
      | inr g ↦ other e f g
    ]
  ]
]

tokens_cons : (c : ℕ) (x : Bytes) → (c == 92) ≡ false → tokens (c ∷ x) ≡ token c ∷ tokens x
unfolding tokens
tokens_cons c [] e = refl
tokens_cons c (d ∷ m) e = rw e refl

-- A byte that is kept before two masks of the same meaning.
keep :
    (c : ℕ) (x y : Bytes)
    → (c == 92) ≡ false
    → SameTexts (tokens x) (tokens y)
    → SameTexts (tokens (c ∷ x)) (tokens (c ∷ y))
keep c x y e f = rw (tokens_cons c x e, tokens_cons c y e) (under (token c) f)

keep_star :
    (x y : Bytes)
    → SameTexts (star ∷ tokens x) (star ∷ tokens y)
    → SameTexts (tokens (42 ∷ x)) (tokens (42 ∷ y))
keep_star x y f = rw (tokens_cons 42 x refl, tokens_cons 42 y refl) f

drop_star :
    (x y : Bytes)
    → SameTexts (star ∷ tokens x) (star ∷ tokens y)
    → SameTexts (star ∷ tokens x) (star ∷ tokens (42 ∷ y))
drop_star x y f = rw (tokens_cons 42 y refl) (same_trans f (same_sym one_star))

keep_any :
    (x y : Bytes)
    → SameTexts (star ∷ tokens x) (star ∷ tokens y)
    → SameTexts (star ∷ tokens (63 ∷ x)) (star ∷ tokens (63 ∷ y))
keep_any x y f =
    rw (tokens_cons 63 x refl, tokens_cons 63 y refl)
      (same_trans swap_any (same_trans (under any f) (same_sym swap_any)))

behind : (c : ℕ) (r : Bytes) → Single (c ∷ r) → c ≡ 92 → StartsPlain r
behind c [] s e = tt
behind c (d ∷ m) s e = s.0 e

module _ (r : Bytes) (ih : (p : Place) → Claim p r) where
  plain-Claim : (c : ℕ) → Single (c ∷ r) → Claim plain (c ∷ r)
  unfolding collapse_from
  plain-Claim c s = elim (sort c) [
    | is_backslash e ↦ subst (λ c. Claim plain (c ∷ r)) (sym e) (ih escaped (behind c r s e))
    | is_star e ↦ subst (λ c. Claim plain (c ∷ r)) (sym e) (keep_star _ r (ih after_star))
    | is_any e ↦ subst (λ c. Claim plain (c ∷ r)) (sym e) (keep 63 _ r refl (ih plain))
    | other e f g ↦ rw (e, f, g) (keep c _ r e (ih plain))
  ]

  after_star-Claim : (c : ℕ) → Single (c ∷ r) → Claim after_star (c ∷ r)
  unfolding collapse_from
  after_star-Claim c s = elim (sort c) [
    | is_backslash e ↦
        subst (λ c. Claim after_star (c ∷ r)) (sym e) (under star (ih escaped (behind c r s e)))
    | is_star e ↦ subst (λ c. Claim after_star (c ∷ r)) (sym e) (drop_star _ r (ih dropping))
    | is_any e ↦ subst (λ c. Claim after_star (c ∷ r)) (sym e) (keep_any _ r (ih in_run))
    | other e f g ↦ rw (e, f, g) (under star (keep c _ r e (ih plain)))
  ]

  dropping-Claim : (c : ℕ) → Single (c ∷ r) → Claim dropping (c ∷ r)
  unfolding collapse_from
  dropping-Claim c s = elim (sort c) [
    | is_backslash e ↦
        subst (λ c. Claim dropping (c ∷ r)) (sym e) (under star (ih escaped (behind c r s e)))
    | is_star e ↦ subst (λ c. Claim dropping (c ∷ r)) (sym e) (drop_star _ r (ih dropping))
    | is_any e ↦
        subst (λ c. Claim dropping (c ∷ r)) (sym e) (under star (keep 63 _ r refl (ih plain)))
    | other e f g ↦ rw (e, f, g) (under star (keep c _ r e (ih plain)))
  ]

  in_run-Claim : (c : ℕ) → Single (c ∷ r) → Claim in_run (c ∷ r)
  unfolding collapse_from
  in_run-Claim c s = elim (sort c) [
    | is_backslash e ↦
        subst (λ c. Claim in_run (c ∷ r)) (sym e) (under star (ih escaped (behind c r s e)))
    | is_star e ↦ subst (λ c. Claim in_run (c ∷ r)) (sym e) (drop_star _ r (ih in_run))
    | is_any e ↦ subst (λ c. Claim in_run (c ∷ r)) (sym e) (keep_any _ r (ih in_run))
    | other e f g ↦ rw (e, f, g) (under star (keep c _ r e (ih plain)))
  ]

  escaped_pair :
      (c : ℕ) (x : Bytes) (b : Bool)
      → is_wild c ≡ b
      → (c == 92) ≡ false
      → tokens (92 ∷ c ∷ x) ≡ (if b then lit c ∷ tokens x else lit 92 ∷ token c ∷ tokens x)
  unfolding tokens
  escaped_pair c x true w e = rw w refl
  escaped_pair c x false w e = rw w (ap (λ t. lit 92 ∷ t) (tokens_cons c x e))

  escaped-Claim : (c : ℕ) → Claim escaped (c ∷ r)
  unfolding collapse_from
  escaped-Claim c n =
      let e : (c == 92) ≡ false = ground (arith, n) in
      elim (Bool-cases (is_wild c)) [
        | inl w ↦
            rw (escaped_pair c (collapse_from plain r) true w e, escaped_pair c r true w e)
              (under (lit c) (ih plain))
        | inr w ↦
            rw (escaped_pair c (collapse_from plain r) false w e, escaped_pair c r false w e)
              (under (lit 92) (under (token c) (ih plain)))
      ]

tail-Single : (c : ℕ) (r : Bytes) → Single (c ∷ r) → Single r
tail-Single c [] s = tt
tail-Single c (d ∷ m) s = s.1

collapse_from-Claim : (m : Bytes) → Single m → (p : Place) → Claim p m
unfolding collapse_from
collapse_from-Claim [] s plain = same_refl
collapse_from-Claim [] s after_star = same_refl
collapse_from-Claim [] s dropping = same_refl
collapse_from-Claim [] s in_run = same_refl
collapse_from-Claim [] s escaped = λ _. same_refl
collapse_from-Claim (c ∷ r) s p =
    let ih : (p : Place) → Claim p r = collapse_from-Claim r (tail-Single c r s) in
    elim p as (λ k. Claim k (c ∷ r)) [
      | plain ↦ plain-Claim r ih c s
      | after_star ↦ after_star-Claim r ih c s
      | dropping ↦ dropping-Claim r ih c s
      | in_run ↦ in_run-Claim r ih c s
      | escaped ↦ escaped-Claim r ih c
    ]

-- A mask in which no backslash stands behind a backslash stands for the same texts when it is collapsed.
pub collapse-SameTexts : (m : Bytes) → Single m → SameTexts (tokens (collapse m)) (tokens m)
unfolding collapse
collapse-SameTexts m s = collapse_from-Claim m s plain

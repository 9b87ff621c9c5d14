-- ===== src/Channel/Links.antt =====
-- How often a value stands in a list of links.
use snservices.Base.{
  ℕ, suc, ◌+◌, ◌-◌, ◌≤◌, ◌<◌, ◌≡◌, refl, ap, inl, inr, Bool, true, false, List, [], ◌∷◌, ◌++◌, ◌==◌,
  length, arith, Bool-cases, ==_iff,
}
use snservices.Channel.{unlink, is_linked}

-- One more if `here` holds, or one less.
abbrev pub plus : Bool → ℕ → ℕ
plus true n = suc n
plus false n = n

abbrev pub less : Bool → ℕ → ℕ
less true n = n - 1
less false n = n

module _ {ℓ} {A : Type ℓ} (value : A → ℕ) where
  abbrev pub occurs : ℕ → List A → ℕ
  occurs v [] = 0
  occurs v (x ∷ r) = plus (value x == v) (occurs v r)

  pub occurs_le_length : (v : ℕ) (xs : List A) → occurs v xs ≤ length xs
  occurs_le_length v [] = omega arith
  occurs_le_length v (x ∷ r) = elim (Bool-cases (value x == v)) [
    | inl e ↦ rw e (omega (arith, occurs_le_length v r))
    | inr e ↦ rw e (omega (arith, occurs_le_length v r))
  ]

  pub occurs-append : (v : ℕ) (xs ys : List A) → occurs v (xs ++ ys) ≡ occurs v xs + occurs v ys
  occurs-append v [] ys = omega arith
  occurs-append v (x ∷ r) ys = ground (arith, occurs-append v r ys)

  pub occurs-unlink_same : (v : ℕ) (xs : List A) → occurs v (unlink value v xs) ≡ occurs v xs - 1
  unfolding unlink
  occurs-unlink_same v [] = omega arith
  occurs-unlink_same v (x ∷ r) = elim (Bool-cases (value x == v)) [
    | inl e ↦ rw e (omega arith)
    | inr e ↦ rw (e, e) (omega (arith, occurs-unlink_same v r))
  ]

  pub occurs-unlink_other :
      (v u : ℕ) (xs : List A) → (u == v) ≡ false → occurs u (unlink value v xs) ≡ occurs u xs
  unfolding unlink
  occurs-unlink_other v u [] h = refl
  occurs-unlink_other v u (x ∷ r) h = elim (Bool-cases (value x == v)) [
    | inl e ↦ let d : (value x == u) ≡ false = ground arith in rw (e, d) (omega arith)
    | inr e ↦ rw e (ap (plus (value x == u)) (occurs-unlink_other v u r h))
  ]

  -- A link that is found is the only thing that goes.
  pub length-unlink :
      (v : ℕ) (xs : List A)
      → is_linked value v xs ≡ true
      → (length xs ≡ suc (length (unlink value v xs))) × (0 < occurs v xs)
  unfolding unlink is_linked
  length-unlink v [] h = absurd cc
  length-unlink v (x ∷ r) h = elim (Bool-cases (value x == v)) [
    | inl e ↦ rw e (refl, omega arith)
    | inr e ↦ let (l, o) = length-unlink v r (rw e at h) in rw e (ap suc l, omega arith)
  ]

  pub occurs-not_linked : (v : ℕ) (xs : List A) → is_linked value v xs ≡ false → occurs v xs ≡ 0
  unfolding is_linked
  occurs-not_linked v [] h = refl
  occurs-not_linked v (x ∷ r) h = elim (Bool-cases (value x == v)) [
    | inl e ↦ let h' = rw e at h in absurd cc
    | inr e ↦ rw e (omega (arith, occurs-not_linked v r (rw e at h)))
  ]

pub occurs-unlink {ℓ} :
    {A : Type ℓ} (value : A → ℕ) (v u : ℕ) (xs : List A)
    → occurs value u (unlink value v xs) ≡ less (u == v) (occurs value u xs)
occurs-unlink value v u xs = elim (Bool-cases (u == v)) [
  | inl e ↦ let q = (==_iff u v).0 e in rw (e, q) (occurs-unlink_same value v xs)
  | inr e ↦ rw e (occurs-unlink_other value v u xs e)
]

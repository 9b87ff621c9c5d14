-- ===== src/Registry/Unique.antt =====
-- Lists of records of which no two have the same name, and what is found in them.
use snservices.Base.{
  ℕ, ◌<◌, ◌≡◌, refl, sym, ap, ◌∙◌, inl, inr, Bool, true, false, List, [], ◌∷◌, ◌++◌, ◌==◌,
  if◌then◌else◌, Bytes, All, arith, false≢true, Bool-cases,
}
use snservices.Registry.Names.{same_name, same_name_sym, same_name_trans, spelling}
use snservices.Registry.Lookup.{first_such}

-- Nothing in the list passes the test.
abbrev pub Nothing : (ℕ → Bool) → List ℕ → Type 0
Nothing test xs = All (λ x. test x ≡ false) xs

pub first_such-Nothing : (test : ℕ → Bool) (xs : List ℕ) → Nothing test xs → first_such test xs ≡ 0
first_such-Nothing test [] h = refl
first_such-Nothing test (x ∷ r) (h, hs) = rw h (first_such-Nothing test r hs)

pub Nothing-found :
    (test : ℕ → Bool) (xs : List ℕ) → All (λ x. 0 < x) xs → first_such test xs ≡ 0 → Nothing test xs
Nothing-found test [] z h = tt
Nothing-found test (x ∷ r) (z, zs) h = elim (Bool-cases (test x)) [
  | inl e ↦ let q : x ≡ 0 = rw e at h in absurd (omega arith)
  | inr e ↦ (e, Nothing-found test r zs (rw e at h))
]

pub first_such-append :
    (test : ℕ → Bool) (xs ys : List ℕ)
    → All (λ x. 0 < x) xs
    → first_such test (xs ++ ys)
      ≡ (if first_such test xs == 0 then first_such test ys else first_such test xs)
first_such-append test [] ys z = refl
first_such-append test (x ∷ r) ys (z, zs) = elim (Bool-cases (test x)) [
  | inl e ↦ let q : (x == 0) ≡ false = ground arith in rw (e, q) refl
  | inr e ↦ rw e (first_such-append test r ys zs)
]

module _ (name : ℕ → Bytes) where
  abbrev pub named : Bytes → ℕ → Bool
  named s x = same_name (name x) s

  abbrev pub Unique : List ℕ → Type 0
  Unique [] = Unit
  Unique (x ∷ r) = Nothing (named (name x)) r × Unique r

  Nothing-append :
      (test : ℕ → Bool) (xs ys : List ℕ)
      → Nothing test (xs ++ ys)
      → Nothing test xs × Nothing test ys
  Nothing-append test [] ys h = (tt, h)
  Nothing-append test (x ∷ r) ys (h, hs) = let (k, l) = Nothing-append test r ys hs in ((h, k), l)

  append-Nothing :
      (test : ℕ → Bool) (xs ys : List ℕ)
      → Nothing test xs
      → Nothing test ys
      → Nothing test (xs ++ ys)
  append-Nothing test [] ys h k = k
  append-Nothing test (x ∷ r) ys (h, hs) k = (h, append-Nothing test r ys hs k)

  pub append-Unique :
      (n : ℕ) (xs : List ℕ) → Unique xs → Nothing (named (name n)) xs → Unique (xs ++ n ∷ [])
  append-Unique n [] u h = (tt, tt)
  append-Unique n (x ∷ r) (u, us) (h, hs) = (
    append-Nothing (named (name x)) r (n ∷ []) u (same_name_sym (name n) (name x) ∙ h, tt),
    append-Unique n r us hs,
  )

  pub without-Unique : (n : ℕ) (bs as' : List ℕ) → Unique (bs ++ n ∷ as') → Unique (bs ++ as')
  without-Unique n [] as' u = u.1
  without-Unique n (b ∷ r) as' (u, us) =
      let (k, l) = Nothing-append (named (name b)) r (n ∷ as') u in
      (append-Nothing (named (name b)) r as' k l.1, without-Unique n r as' us)

  -- Two records of one name are not in the list.
  other_name :
      (n x : ℕ) (s : Bytes) → named s n ≡ true → named (name n) x ≡ false → named s x ≡ false
  other_name n x s e f = elim (Bool-cases (named s x)) [
    | inr q ↦ q
    | inl q ↦
        absurd (
          false≢true (sym f ∙ same_name_trans (name x) s (name n) q (same_name_sym s (name n) ∙ e)))
  ]

  others-Nothing :
      (n : ℕ) (s : Bytes) (xs : List ℕ)
      → named s n ≡ true
      → Nothing (named (name n)) xs
      → Nothing (named s) xs
  others-Nothing n s [] e h = tt
  others-Nothing n s (x ∷ r) e (h, hs) = (other_name n x s e h, others-Nothing n s r e hs)

  -- Without `n`, its name is not found any more, and every other name is found as before.
  pub first_such-without :
      (n : ℕ) (s : Bytes) (bs as' : List ℕ)
      → Unique (bs ++ n ∷ as')
      → first_such (named s) (bs ++ as')
        ≡ (if named s n then 0 else first_such (named s) (bs ++ n ∷ as'))
  first_such-without n s [] as' u = elim (Bool-cases (named s n)) [
    | inl e ↦ rw e (first_such-Nothing (named s) as' (others-Nothing n s as' e u.0))
    | inr e ↦ rw e refl
  ]
  first_such-without n s (b ∷ r) as' (u, us) = elim (Bool-cases (named s b)) [
    | inr e ↦ rw e (first_such-without n s r as' us)
    | inl e ↦
        let (k, l) = Nothing-append (named (name b)) r (n ∷ as') u in
        rw (e, other_name b n s e l.0) refl
  ]

  -- Two spellings of a name find the same.
  pub first_such-spelling :
      (s t : Bytes) (xs : List ℕ)
      → same_name s t ≡ true
      → first_such (named s) xs ≡ first_such (named t) xs
  first_such-spelling s t [] e = refl
  first_such-spelling s t (x ∷ r) e =
      rw (spelling (name x) s t e)
        (ap (λ z. if same_name (name x) t then x else z) (first_such-spelling s t r e))

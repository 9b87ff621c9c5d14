-- ===== src/Registry/Lookup.antt =====
-- What the walks along a bucket find.
use snservices.Base.{
  ℕ, zero, suc, ◌≤◌, ◌<◌, ◌≡◌, refl, ap, ◌∙◌, inl, inr, Bool, true, false, List, [], ◌∷◌, ◌++◌,
  ◌==◌, if◌then◌else◌, All, length, arith, Bool-cases, ==_iff,
}
use snservices.Registry.Chain.{head_or, Chain}
use snservices.Registry.Refine.{Rep}
use snservices.Registry.Table.{Table, bucket, walk, stands_in, find, delist}
use snservices.Registry.Buckets.{
  filter, filter-append, in_bucket, RepT, own, own_bucket, delist_put,
}

pos_no : (n : ℕ) → 0 < n → (n == 0) ≡ false
pos_no n h = ground arith

no_fuel : (n : ℕ) → suc n ≤ 0 → false ≡ true
no_fuel n h = absurd (omega arith)

-- A walk along a chain passes every item of it.
stands_in-true :
    (next prev : ℕ → ℕ) (fuel n p : ℕ) (cs ds : List ℕ)
    → Chain next prev p (cs ++ n ∷ ds) 0
    → All (λ x. 0 < x) (cs ++ n ∷ ds)
    → length (cs ++ n ∷ ds) ≤ fuel
    → stands_in fuel n (head_or (cs ++ n ∷ ds) 0) next ≡ true
unfolding stands_in
stands_in-true next prev zero n p [] ds c z h = no_fuel (length ds) h
stands_in-true next prev zero n p (x ∷ r) ds c z h = no_fuel (length (r ++ n ∷ ds)) h
stands_in-true next prev (suc fuel) n p [] ds c z h =
    let e : (n == n) ≡ true = (==_iff n n).1 refl in rw (pos_no n z.0, e) refl
stands_in-true next prev (suc fuel) n p (x ∷ r) ds c z h =
    let rest = stands_in-true next prev fuel n x r ds c.2 z.1 (omega arith) in
    elim (Bool-cases (x == n)) [
      | inl e ↦ rw (pos_no x z.0, e) refl
      | inr e ↦ rw (pos_no x z.0, e, c.1) rest
    ]

-- The first of the records that passes the test, in the order of the list.
abbrev pub first_such : (ℕ → Bool) → List ℕ → ℕ
first_such test [] = 0
first_such test (x ∷ r) = if test x then x else first_such test r

pub walk-first_such :
    (next prev : ℕ → ℕ) (test : ℕ → Bool) (fuel p : ℕ) (xs : List ℕ)
    → Chain next prev p xs 0
    → All (λ x. 0 < x) xs
    → length xs ≤ fuel
    → walk test fuel (head_or xs 0) next ≡ first_such test xs
unfolding walk
walk-first_such next prev test zero p [] c z h = refl
walk-first_such next prev test zero p (x ∷ r) c z h = absurd (omega arith)
walk-first_such next prev test (suc fuel) p [] c z h = refl
walk-first_such next prev test (suc fuel) p (x ∷ r) c z h =
    let rest = walk-first_such next prev test fuel x r c.2 z.1 (omega arith) in
    rw (pos_no x z.0, c.1) (ap (λ w. if test x then x else w) rest)

pub length-filter : (f : ℕ → Bool) (xs : List ℕ) → length (filter f xs) ≤ length xs
length-filter f [] = omega arith
length-filter f (x ∷ r) =
    let rest = length-filter f r in
    elim (Bool-cases (f x)) [ inl e ↦ rw e (omega arith) | inr e ↦ rw e (omega arith) ]

module _ (hash : ℕ → ℕ) where
  -- What passes the test stands in one bucket only.
  first_such-filter :
      (k : ℕ) (test : ℕ → Bool) (xs : List ℕ)
      → ((x : ℕ) → test x ≡ true → hash x ≡ k)
      → first_such test (filter (in_bucket hash k) xs) ≡ first_such test xs
  first_such-filter k test [] h = refl
  first_such-filter k test (x ∷ r) h =
      let rest = first_such-filter k test r h in
      elim (Bool-cases (test x)) [
        | inl e ↦ let q : (hash x == k) ≡ true = (==_iff (hash x) k).1 (h x e) in rw (q, e) refl
        | inr e ↦ elim (Bool-cases (hash x == k)) [
          | inl q ↦ rw (q, e) rest
          | inr q ↦ rw (q, e) rest
        ]
      ]

  find-walk :
      (k : ℕ) (test : ℕ → Bool) (fuel : ℕ) (t : Table)
      → find k test fuel t ≡ walk test fuel (t.heads k) t.hashnext
  unfolding find walk
  find-walk k test zero t = elim (Bool-cases (t.heads k == 0)) [
    | inl e ↦ rw e refl
    | inr e ↦ rw e refl
  ]
  find-walk k test (suc fuel) t = elim (Bool-cases (t.heads k == 0)) [
    | inl e ↦ rw e refl
    | inr e ↦ rw e refl
  ]

  -- The search of a bucket finds the first record of the whole list that passes the test, or NULL.
  pub find-first_such :
      (k : ℕ) (test : ℕ → Bool) (fuel : ℕ) (t : Table) (xs : List ℕ)
      → ((x : ℕ) → test x ≡ true → hash x ≡ k)
      → RepT hash t xs
      → length xs ≤ fuel
      → find k test fuel t ≡ first_such test xs
  find-first_such k test fuel t xs own_one v h =
      let b = v.buckets k in
      let short = length-filter (in_bucket hash k) xs in
      find-walk k test fuel t
      ∙ ap (λ z. walk test fuel z t.hashnext) b.first_eq
      ∙ walk-first_such t.hashnext t.hashprev test fuel 0 _ b.chain b.no_null (omega arith)
      ∙ first_such-filter k test xs own_one

  -- A record that is in the list goes out of it and of its bucket.
  pub delist-RepT :
      (fuel n : ℕ) (t : Table) (bs as' : List ℕ)
      → RepT hash t (bs ++ n ∷ as')
      → length (bs ++ n ∷ as') ≤ fuel
      → RepT hash (delist hash fuel n t) (bs ++ as')
  unfolding delist
  delist-RepT fuel n t bs as' v h = rw there (delist_put hash n t bs as' v)
    where
      f : ℕ → Bool
      f = in_bucket hash (hash n)

      b : Rep (bucket (hash n) t) (filter f bs ++ n ∷ filter f as')
      b = own_bucket hash n t bs as' v

      split : filter f (bs ++ n ∷ as') ≡ filter f bs ++ n ∷ filter f as'
      split = rw (filter-append f bs (n ∷ as'), own hash n) refl

      there : stands_in fuel n (t.heads (hash n)) t.hashnext ≡ true
      there =
          let short = length-filter f (bs ++ n ∷ as') in
          let e = ap length split in
          ap (λ z. stands_in fuel n z t.hashnext) b.first_eq
          ∙ stands_in-true t.hashnext t.hashprev fuel n 0 (filter f bs) (filter f as') b.chain
              b.no_null (omega arith)

-- ===== src/Registry/Buckets.antt =====
-- The buckets hold the records of the list, each in the bucket of its name, in the order of the list.
use snservices.Base.{
  ℕ, ◌<◌, ◌≡◌, refl, sym, ap, ◌∙◌, inl, inr, Bool, true, false, List, [], ◌∷◌, ◌++◌, ◌==◌,
  if◌then◌else◌, All, false≢true, Bool-cases, ==_iff, subst, append-nil,
}
use snservices.Registry.{Dll, append, remove}
use snservices.Registry.Chain.{Chain, NotIn, ne_sym, Distinct-out}
use snservices.Registry.Refine.{Rep, append-Rep, append_untouched}
use snservices.Registry.Remove.{remove-Rep, remove_untouched}
use snservices.Registry.Table.{Table, bucket, put_bucket, enlist}

-- The items for which the test holds.
abbrev pub filter : (ℕ → Bool) → List ℕ → List ℕ
filter f [] = []
filter f (x ∷ r) = if f x then x ∷ filter f r else filter f r

pub filter-append :
    (f : ℕ → Bool) (xs ys : List ℕ) → filter f (xs ++ ys) ≡ filter f xs ++ filter f ys
filter-append f [] ys = refl
filter-append f (x ∷ r) ys = elim (Bool-cases (f x)) [
  | inl e ↦ rw e (ap (◌∷◌ x) (filter-append f r ys))
  | inr e ↦ rw e (filter-append f r ys)
]

pub filter-All : (P : ℕ → Type 0) (f : ℕ → Bool) (xs : List ℕ) → All P xs → All P (filter f xs)
filter-All P f [] h = tt
filter-All P f (x ∷ r) (h, hs) = elim (Bool-cases (f x)) [
  | inl e ↦ rw e (h, filter-All P f r hs)
  | inr e ↦ rw e (filter-All P f r hs)
]

pub filter-holds : (f : ℕ → Bool) (xs : List ℕ) → All (λ x. f x ≡ true) (filter f xs)
filter-holds f [] = tt
filter-holds f (x ∷ r) = elim (Bool-cases (f x)) [
  | inl e ↦ rw e (e, filter-holds f r)
  | inr e ↦ rw e (filter-holds f r)
]

-- A chain of items whose pointers are the same.
Chain-same :
    (next prev next' prev' : ℕ → ℕ) (p : ℕ) (xs : List ℕ) (q : ℕ)
    → All (λ x. (next' x ≡ next x) × (prev' x ≡ prev x)) xs
    → Chain next prev p xs q
    → Chain next' prev' p xs q
Chain-same next prev next' prev' p [] q h c = tt
Chain-same next prev next' prev' p (x ∷ r) q ((h, k), hs) (e, f, c) =
    (k ∙ e, h ∙ f, Chain-same next prev next' prev' x r q hs c)

module _ (hash : ℕ → ℕ) where
  abbrev pub in_bucket : ℕ → ℕ → Bool
  in_bucket k n = hash n == k

  -- The list, and every bucket.
  pub record RepT (t : Table) (xs : List ℕ) : Type 0 where
    pub list : Rep t.main xs
    pub buckets : (k : ℕ) → Rep (bucket k t) (filter (in_bucket k) xs)

bucket_put_same : (j : ℕ) (d : Dll) (t : Table) → bucket j (put_bucket j d t) ≡ d
bucket_put_same j d t = let e : (j == j) ≡ true = (==_iff j j).1 refl in rw e refl

bucket_put_other :
    (j k : ℕ) (d : Dll) (t : Table)
    → (k == j) ≡ false
    → bucket k (put_bucket j d t) ≡ record (bucket k t) { next = d.next; prev = d.prev }
bucket_put_other j k d t e = rw e refl

-- The pointers of the item are the same in both.
abbrev Same : Dll → Dll → ℕ → Type 0
Same d e x = (e.next x ≡ d.next x) × (e.prev x ≡ d.prev x)

other-Rep :
    (b d : Dll) (xs : List ℕ)
    → Rep b xs
    → All (Same b d) xs
    → Rep (record b { next = d.next; prev = d.prev }) xs
other-Rep b d xs v h = record {
  first_eq = v.first_eq;
  last_eq = v.last_eq;
  chain = Chain-same b.next b.prev d.next d.prev 0 xs 0 h v.chain;
  distinct = v.distinct;
  no_null = v.no_null;
}

All-map : (P Q : ℕ → Type 0) (xs : List ℕ) → ((x : ℕ) → P x → Q x) → All P xs → All Q xs
All-map P Q [] f h = tt
All-map P Q (x ∷ r) f (h, hs) = (f x h, All-map P Q r f hs)

All-both : (P Q : ℕ → Type 0) (xs : List ℕ) → All P xs → All Q xs → All (λ x. P x × Q x) xs
All-both P Q [] h k = tt
All-both P Q (x ∷ r) (h, hs) (k, ks) = ((h, k), All-both P Q r hs ks)

module _ (hash : ℕ → ℕ) where
  -- Items of one bucket do not stand in another.
  apart :
      (j k y : ℕ) (xs : List ℕ)
      → (k == j) ≡ false
      → in_bucket hash k y ≡ true
      → NotIn y (filter (in_bucket hash j) xs)
  apart j k y xs ne h =
      All-map (λ z. in_bucket hash j z ≡ true) (λ z. (z == y) ≡ false)
        (filter (in_bucket hash j) xs) differ (filter-holds (in_bucket hash j) xs)
    where
      differ : (z : ℕ) → in_bucket hash j z ≡ true → (z == y) ≡ false
      differ z g = elim (Bool-cases (z == y)) [
        | inr e ↦ e
        | inl e ↦
            let q : z ≡ y = (==_iff z y).0 e in
            let g' : hash y ≡ j = ap (λ (u : ℕ). hash u) (sym q) ∙ (==_iff (hash z) j).0 g in
            let h' : hash y ≡ k = (==_iff (hash y) k).0 h in
            absurd (false≢true (sym ne ∙ (==_iff k j).1 (sym h' ∙ g')))
      ]

  -- One bucket is changed, and the pointers of what stands in the others are not.
  pub put-buckets :
      (j : ℕ) (d : Dll) (t : Table) (xs : List ℕ)
      → Rep d (filter (in_bucket hash j) xs)
      → ((k : ℕ)
          → (k == j) ≡ false
          → Rep (bucket k t) (filter (in_bucket hash k) xs)
            × All (Same (bucket k t) d) (filter (in_bucket hash k) xs))
      → (k : ℕ) → Rep (bucket k (put_bucket j d t)) (filter (in_bucket hash k) xs)
  put-buckets j d t xs here there k = elim (Bool-cases (k == j)) [
    | inl e ↦
        subst (λ z. Rep (bucket z (put_bucket j d t)) (filter (in_bucket hash z) xs))
          (sym ((==_iff k j).0 e)) (rw (bucket_put_same j d t) here)
    | inr e ↦
        rw (bucket_put_other j k d t e) (other-Rep (bucket k t) d _ (there k e).0 (there k e).1)
  ]

  pub own : (n : ℕ) → in_bucket hash (hash n) n ≡ true
  own n = (==_iff (hash n) (hash n)).1 refl

  pub off : (n k : ℕ) → (k == hash n) ≡ false → in_bucket hash k n ≡ false
  off n k e = ne_sym k (hash n) e

  -- The items of a list that stand in another bucket than `n`, when every such item has the property.
  pub others :
      (P : ℕ → Type 0) (n k : ℕ) (ys xs : List ℕ)
      → (k == hash n) ≡ false
      → NotIn n xs
      → ((y : ℕ) → (y == n) ≡ false → NotIn y (filter (in_bucket hash (hash n)) ys) → P y)
      → All P (filter (in_bucket hash k) xs)
  others P n k ys xs e h f =
      All-map (λ y. ((y == n) ≡ false) × (in_bucket hash k y ≡ true)) P
        (filter (in_bucket hash k) xs) (λ y (ne, b). f y ne (apart (hash n) k y ys e b))
        (All-both (λ y. (y == n) ≡ false) (λ y. in_bucket hash k y ≡ true) _
          (filter-All (λ y. (y == n) ≡ false) (in_bucket hash k) xs h)
          (filter-holds (in_bucket hash k) xs))

  -- A new record of a list is found at the end of its bucket.
  pub enlist-RepT :
      (n : ℕ) (t : Table) (xs : List ℕ)
      → 0 < n
      → NotIn n xs
      → RepT hash t xs
      → RepT hash (enlist hash n t) (xs ++ n ∷ [])
  unfolding enlist
  enlist-RepT n t xs pos_n h v = record {
    list = append-Rep n t.main xs pos_n h v.list;
    buckets =
        put-buckets (hash n) d (record t { main = append n t.main }) (xs ++ n ∷ []) here there;
  }
    where
      d : Dll
      d = append n (bucket (hash n) t)

      here : Rep d (filter (in_bucket hash (hash n)) (xs ++ n ∷ []))
      here =
          rw (filter-append (in_bucket hash (hash n)) xs (n ∷ []), own n)
            (append-Rep n (bucket (hash n) t) _ pos_n
              (filter-All (λ y. (y == n) ≡ false) (in_bucket hash (hash n)) xs h)
              (v.buckets (hash n)))

      same :
          (k : ℕ)
          → (k == hash n) ≡ false
          → filter (in_bucket hash k) (xs ++ n ∷ []) ≡ filter (in_bucket hash k) xs
      same k e = rw (filter-append (in_bucket hash k) xs (n ∷ []), off n k e) (append-nil _)

      there :
          (k : ℕ)
          → (k == hash n) ≡ false
          → Rep (bucket k t) (filter (in_bucket hash k) (xs ++ n ∷ []))
            × All (Same (bucket k t) d) (filter (in_bucket hash k) (xs ++ n ∷ []))
      there k e = rw (same k e) (
        v.buckets k,
        others (Same (bucket k t) d) n k xs xs e h
            (λ y ne out. append_untouched n (bucket (hash n) t) _ y (v.buckets (hash n)) ne out),
      )

  module _ (n : ℕ) (t : Table) (bs as' : List ℕ) (v : RepT hash t (bs ++ n ∷ as')) where
    abbrev pub mine : List ℕ → List ℕ
    mine = filter (in_bucket hash (hash n))

    -- The bucket of the record, split where the list is.
    pub own_bucket : Rep (bucket (hash n) t) (mine bs ++ n ∷ mine as')
    own_bucket =
        subst (Rep _)
          (filter-append (in_bucket hash (hash n)) bs (n ∷ as')
            ∙ ap (λ z. mine bs ++ z) (rw (own n) refl))
          (v.buckets (hash n))

    pub delist_put :
        RepT hash
          (put_bucket (hash n) (remove n (bucket (hash n) t)) (record t { main = remove n t.main }))
          (bs ++ as')
    delist_put = record {
      list = remove-Rep n t.main bs as' v.list;
      buckets = put-buckets (hash n) d (record t { main = remove n t.main }) (bs ++ as') here there;
    }
      where
        d : Dll
        d = remove n (bucket (hash n) t)

        here : Rep d (filter (in_bucket hash (hash n)) (bs ++ as'))
        here =
            rw (filter-append (in_bucket hash (hash n)) bs as')
              (remove-Rep n (bucket (hash n) t) _ _ own_bucket)

        same :
            (k : ℕ)
            → (k == hash n) ≡ false
            → filter (in_bucket hash k) (bs ++ n ∷ as') ≡ filter (in_bucket hash k) (bs ++ as')
        same k e =
            rw
              (
                filter-append (in_bucket hash k) bs (n ∷ as'),
                filter-append (in_bucket hash k) bs as',
                off n k e,
              )
              refl

        left_out : NotIn n (bs ++ as')
        left_out = Distinct-out n bs as' v.list.distinct

        there :
            (k : ℕ)
            → (k == hash n) ≡ false
            → Rep (bucket k t) (filter (in_bucket hash k) (bs ++ as'))
              × All (Same (bucket k t) d) (filter (in_bucket hash k) (bs ++ as'))
        there k e = (
          subst (Rep _) (same k e) (v.buckets k),
          others (Same (bucket k t) d) n k (bs ++ n ∷ as') (bs ++ as') e left_out (λ y ne out.
              remove_untouched n (bucket (hash n) t) _ _ y own_bucket (
                subst (NotIn y)
                  (filter-append (in_bucket hash (hash n)) bs (n ∷ as')
                    ∙ ap (λ z. mine bs ++ z) (rw (own n) refl))
                  out)),
        )

-- ===== src/Timer/Order.antt =====
-- The order of the list: `timer` and `cancel_timer`.
use snservices.Base.{
  ℕ, ◌+◌, ◌≤◌, ◌<◌, ◌≡◌, refl, ap, inl, inr, true, false, none, some, List, [], ◌∷◌, ◌++◌, ltb, leb,
  ◌==◌, if◌then◌else◌, All, arith, Bool-cases,
}
use snservices.Timer.{Item, Timers, place_after, place, new_item, schedule, unlink}

-- The items that are due at `t`, and those that are not.
abbrev pub due : ℕ → List Item → List Item
due t [] = []
due t (i ∷ r) = if leb i.run t then i ∷ due t r else due t r

abbrev pub pending : ℕ → List Item → List Item
pending t [] = []
pending t (i ∷ r) = if leb i.run t then pending t r else i ∷ pending t r

abbrev pub IsSorted : List Item → Type 0
IsSorted [] = Unit
IsSorted (i ∷ r) = All (λ (j : Item). i.run ≤ j.run) r × IsSorted r

pub All-pending :
    (t : ℕ) (xs : List Item)
    → All (λ (i : Item). t < i.run) xs
    → (due t xs ≡ []) × (pending t xs ≡ xs)
All-pending t [] h = (refl, refl)
All-pending t (i ∷ r) (h, hs) = let (d, p) = All-pending t r hs in (ground arith, ground arith)

All-weaker :
    (a b : ℕ) (xs : List Item)
    → a ≤ b
    → All (λ (i : Item). b ≤ i.run) xs
    → All (λ (i : Item). a ≤ i.run) xs
All-weaker a b [] l h = tt
All-weaker a b (i ∷ r) l (h, hs) = (omega arith, All-weaker a b r l hs)

pub All-above :
    (a b : ℕ) (xs : List Item)
    → a < b
    → All (λ (i : Item). b ≤ i.run) xs
    → All (λ (i : Item). a < i.run) xs
All-above a b [] l h = tt
All-above a b (i ∷ r) l (h, hs) = (omega arith, All-above a b r l hs)

module _ (P : Item → Type 0) (tc : Item) (here : P tc) where
  pub All-place_after :
      (temp : Item) (r : List Item) → P temp → All P r → All P (place_after tc temp r)
  unfolding place_after
  All-place_after temp [] h hs = (h, (here, tt))
  All-place_after temp (next ∷ r) h (n, ns) = elim (Bool-cases (leb next.run tc.run)) [
    | inl e ↦ rw e (h, All-place_after next r n ns)
    | inr e ↦ rw e (h, (here, (n, ns)))
  ]

  pub All-place : (xs : List Item) → All P xs → All P (place tc xs)
  unfolding place
  All-place [] h = (here, tt)
  All-place (first ∷ r) (h, hs) = elim (Bool-cases (ltb tc.run first.run)) [
    | inl e ↦ rw e (here, (h, hs))
    | inr e ↦ rw e (All-place_after first r h hs)
  ]

module _ (tc : Item) where
  place_after-IsSorted :
      (temp : Item) (r : List Item)
      → temp.run ≤ tc.run
      → IsSorted (temp ∷ r)
      → IsSorted (place_after tc temp r)
  unfolding place_after
  place_after-IsSorted temp [] l h = ((l, tt), (tt, tt))
  place_after-IsSorted temp (next ∷ r) l ((n, ns), (m, ms)) =
      elim (Bool-cases (leb next.run tc.run)) [
        | inl e ↦ rw e (
          All-place_after (λ (j : Item). temp.run ≤ j.run) tc l next r n ns,
          place_after-IsSorted next r (ground arith) (m, ms),
        )
        | inr e ↦
            let later : tc.run ≤ next.run = ground arith in
            rw e ((l, (n, ns)), ((later, All-weaker tc.run next.run r later m), (m, ms)))
      ]

  place-IsSorted : (xs : List Item) → IsSorted xs → IsSorted (place tc xs)
  unfolding place
  place-IsSorted [] h = (tt, tt)
  place-IsSorted (first ∷ r) (h, hs) = elim (Bool-cases (ltb tc.run first.run)) [
    | inl e ↦
        let later : tc.run ≤ first.run = ground arith in
        rw e ((later, All-weaker tc.run first.run r later h), (h, hs))
    | inr e ↦ rw e (place_after-IsSorted first r (ground arith) (h, hs))
  ]

  place_after_lem :
      (temp : Item) (r : List Item)
      → temp.run ≤ tc.run
      → IsSorted (temp ∷ r)
      → place_after tc temp r ≡ temp ∷ due tc.run r ++ tc ∷ pending tc.run r
  unfolding place_after
  place_after_lem temp [] l h = refl
  place_after_lem temp (next ∷ r) l ((n, ns), (m, ms)) = elim (Bool-cases (leb next.run tc.run)) [
    | inl e ↦ rw e (ap (◌∷◌ temp) (place_after_lem next r (ground arith) (m, ms)))
    | inr e ↦
        let later : tc.run < next.run = ground arith in
        let (d, p) = All-pending tc.run r (All-above tc.run next.run r later m) in rw (e, d, p) refl
  ]

  place_lem : (xs : List Item) → IsSorted xs → place tc xs ≡ due tc.run xs ++ tc ∷ pending tc.run xs
  unfolding place
  place_lem [] h = refl
  place_lem (first ∷ r) (h, hs) = elim (Bool-cases (ltb tc.run first.run)) [
    | inl e ↦
        let later : tc.run < first.run = ground arith in
        let (d, p) = All-pending tc.run r (All-above tc.run first.run r later h) in
        let q : leb first.run tc.run ≡ false = ground arith in rw (e, q, d, p) refl
    | inr e ↦
        let q : leb first.run tc.run ≡ true = ground arith in
        rw (e, q) (place_after_lem first r (ground arith) (h, hs))
  ]

-- In a list in the order of the times, a new timer stands behind the timers that are due no later
-- than it, and before the others; the list stays in order.
pub schedule_lem :
    (now seconds func args : ℕ) (s : Timers)
    → IsSorted s.first
    → ((schedule now seconds func args s).first
        ≡ due (now + seconds) s.first
          ++ new_item s.curtid now seconds func args ∷ pending (now + seconds) s.first)
      × IsSorted (schedule now seconds func args s).first
unfolding schedule new_item
schedule_lem now seconds func args s h =
    let tc = new_item s.curtid now seconds func args in
    (place_lem tc s.first h, place-IsSorted tc s.first h)

-- No timer has the identifier.
abbrev pub Unused : ℕ → List Item → Type 0
Unused tid xs = All (λ (i : Item). (i.tid == tid) ≡ false) xs

pub unlink-Unused : (tid : ℕ) (xs : List Item) → Unused tid xs → unlink tid xs ≡ none
unfolding unlink
unlink-Unused tid [] h = refl
unlink-Unused tid (i ∷ r) (h, hs) = rw (h, unlink-Unused tid r hs) refl

pub unlink-append :
    (tid : ℕ) (before : List Item) (i : Item) (after : List Item)
    → Unused tid before
    → (i.tid == tid) ≡ true
    → unlink tid (before ++ i ∷ after) ≡ some (before ++ after)
unfolding unlink
unlink-append tid [] i after h e = rw e refl
unlink-append tid (b ∷ bs) i after (h, hs) e = rw (h, unlink-append tid bs i after hs e) refl

-- What a list is when one looks for an identifier in it.
pub data Found : ℕ → List Item → Type 0 where
  missing : {tid : ℕ} {xs : List Item} → Unused tid xs → Found tid xs
  at :
      {tid : ℕ} {xs : List Item} (before : List Item) (i : Item) (after : List Item)
      → xs ≡ before ++ i ∷ after
      → Unused tid before
      → (i.tid == tid) ≡ true
      → Found tid xs

pub find : (tid : ℕ) (xs : List Item) → Found tid xs
find tid [] = missing tt
find tid (i ∷ r) = elim (Bool-cases (i.tid == tid)) [
  | inl e ↦ at [] i r refl tt e
  | inr e ↦ elim (find tid r) [
    | missing h ↦ missing (e, h)
    | at before j after q h t ↦ at (i ∷ before) j after (ap (◌∷◌ i) q) (e, h) t
  ]
]

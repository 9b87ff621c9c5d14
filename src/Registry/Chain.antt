-- ===== src/Registry/Chain.antt =====
-- Chains of records along `next` and `prev`.
use snservices.Base.{
  ℕ, ◌≡◌, refl, sym, ◌∙◌, true, false, List, [], ◌∷◌, ◌++◌, ◌==◌, All, arith, ==_iff,
}
use snservices.Registry.{set}

-- The first item, or what stands behind an empty list; and the last, or what stands before it.
abbrev pub head_or : List ℕ → ℕ → ℕ
head_or [] q = q
head_or (x ∷ _) q = x

abbrev pub last_or : ℕ → List ℕ → ℕ
last_or p [] = p
last_or p (x ∷ r) = last_or x r

-- From `p` over the items of the list to `q`.
abbrev pub Chain : (ℕ → ℕ) → (ℕ → ℕ) → ℕ → List ℕ → ℕ → Type 0
Chain next prev p [] q = Unit
Chain next prev p (x ∷ r) q = (prev x ≡ p) × (next x ≡ head_or r q) × Chain next prev x r q

abbrev pub NotIn : ℕ → List ℕ → Type 0
NotIn a xs = All (λ x. (x == a) ≡ false) xs

abbrev pub Distinct : List ℕ → Type 0
Distinct [] = Unit
Distinct (x ∷ r) = NotIn x r × Distinct r

pub ne_sym : (a b : ℕ) → (a == b) ≡ false → (b == a) ≡ false
ne_sym a b h = ground arith

pub set_same {ℓ} : {A : Type ℓ} (f : ℕ → A) (a : ℕ) (v : A) → set f a v a ≡ v
set_same f a v = let e : (a == a) ≡ true = (==_iff a a).1 refl in rw e refl

pub set_other {ℓ} :
    {A : Type ℓ} (f : ℕ → A) (a k : ℕ) (v : A) → (k == a) ≡ false → set f a v k ≡ f k
set_other f a k v e = rw e refl

pub last_or-All : (P : ℕ → Type 0) (x : ℕ) (r : List ℕ) → P x → All P r → P (last_or x r)
last_or-All P x [] h hs = h
last_or-All P x (y ∷ r) h (k, ks) = last_or-All P y r k ks

pub last_or-append : (p : ℕ) (xs : List ℕ) (n : ℕ) → last_or p (xs ++ n ∷ []) ≡ n
last_or-append p [] n = refl
last_or-append p (x ∷ r) n = last_or-append x r n

pub head_or-append : (xs ys : List ℕ) (q : ℕ) → head_or (xs ++ ys) q ≡ head_or xs (head_or ys q)
head_or-append [] ys q = refl
head_or-append (x ∷ r) ys q = refl

module _ (next prev : ℕ → ℕ) where
  pub Chain-set_next :
      (a v p : ℕ) (xs : List ℕ) (q : ℕ)
      → NotIn a xs
      → Chain next prev p xs q
      → Chain (set next a v) prev p xs q
  Chain-set_next a v p [] q h c = tt
  Chain-set_next a v p (x ∷ r) q (h, hs) (e, f, c) =
      (e, set_other next a x v h ∙ f, Chain-set_next a v x r q hs c)

  pub Chain-set_prev :
      (a v p : ℕ) (xs : List ℕ) (q : ℕ)
      → NotIn a xs
      → Chain next prev p xs q
      → Chain next (set prev a v) p xs q
  Chain-set_prev a v p [] q h c = tt
  Chain-set_prev a v p (x ∷ r) q (h, hs) (e, f, c) =
      (set_other prev a x v h ∙ e, f, Chain-set_prev a v x r q hs c)

  -- The last item is made to point elsewhere.
  pub relink :
      (p x : ℕ) (r : List ℕ) (q q' : ℕ)
      → Distinct (x ∷ r)
      → Chain next prev p (x ∷ r) q
      → Chain (set next (last_or x r) q') prev p (x ∷ r) q'
  relink p x [] q q' d (e, f, c) = (e, set_same next x q', tt)
  relink p x (y ∷ r) q q' ((n, ns), ds) (e, f, c) = (
    e,
    set_other next (last_or y r) x q'
          (ne_sym (last_or y r) x (last_or-All (λ z. (z == x) ≡ false) y r n ns))
        ∙ f,
    relink x y r q q' ds c,
  )

  -- The first item is made to point back elsewhere.
  pub rehead :
      (p p' x : ℕ) (r : List ℕ) (q : ℕ)
      → Distinct (x ∷ r)
      → Chain next prev p (x ∷ r) q
      → Chain next (set prev x p') p' (x ∷ r) q
  rehead p p' x r q (d, ds) (e, f, c) = (set_same prev x p', f, Chain-set_prev x p' x r q d c)

  pub join :
      (p : ℕ) (xs ys : List ℕ) (q : ℕ)
      → Chain next prev p xs (head_or ys q)
      → Chain next prev (last_or p xs) ys q
      → Chain next prev p (xs ++ ys) q
  join p [] ys q c d = d
  join p (x ∷ r) ys q (e, f, c) d = (e, f ∙ sym (head_or-append r ys q), join x r ys q c d)

  pub unjoin :
      (p : ℕ) (xs ys : List ℕ) (q : ℕ)
      → Chain next prev p (xs ++ ys) q
      → Chain next prev p xs (head_or ys q) × Chain next prev (last_or p xs) ys q
  unjoin p [] ys q c = (tt, c)
  unjoin p (x ∷ r) ys q (e, f, c) =
      let (c1, c2) = unjoin x r ys q c in ((e, f ∙ head_or-append r ys q, c1), c2)

pub NotIn-append : (a : ℕ) (xs ys : List ℕ) → NotIn a (xs ++ ys) → NotIn a xs × NotIn a ys
NotIn-append a [] ys h = (tt, h)
NotIn-append a (x ∷ r) ys (h, hs) = let (k, l) = NotIn-append a r ys hs in ((h, k), l)

pub append-NotIn : (a : ℕ) (xs ys : List ℕ) → NotIn a xs → NotIn a ys → NotIn a (xs ++ ys)
append-NotIn a [] ys h k = k
append-NotIn a (x ∷ r) ys (h, hs) k = (h, append-NotIn a r ys hs k)

-- Two parts of a list of distinct items.
pub record Parts (xs ys : List ℕ) : Type 0 where
  pub left : Distinct xs
  pub right : Distinct ys
  pub apart : All (λ x. NotIn x ys) xs

pub Distinct-Parts : (xs ys : List ℕ) → Distinct (xs ++ ys) → Parts xs ys
Distinct-Parts [] ys d = record { left = tt; right = d; apart = tt }
Distinct-Parts (x ∷ r) ys (h, d) =
    let k = Distinct-Parts r ys d in
    let (a, b) = NotIn-append x r ys h in
    record { left = (a, k.left); right = k.right; apart = (b, k.apart) }

pub Parts-Distinct : (xs ys : List ℕ) → Parts xs ys → Distinct (xs ++ ys)
Parts-Distinct [] ys k = k.right
Parts-Distinct (x ∷ r) ys k = (
  append-NotIn x r ys k.left.0 k.apart.0,
  Parts-Distinct r ys (record { left = k.left.1; right = k.right; apart = k.apart.1 }),
)

pub Distinct-out : (n : ℕ) (bs as' : List ℕ) → Distinct (bs ++ n ∷ as') → NotIn n (bs ++ as')
Distinct-out n [] as' d = d.0
Distinct-out n (b ∷ r) as' (h, d) =
    (ne_sym n b (NotIn-append b r (n ∷ as') h).1.0, Distinct-out n r as' d)

-- ===== src/Registry/Refine.antt =====
-- The pointer operations do to the chain what append and removal do to a list.
use snservices.Base.{
  ℕ, ◌<◌, ◌≡◌, refl, sym, ap, ◌∙◌, true, false, List, [], ◌∷◌, ◌++◌, ◌==◌, All, arith, ==_iff,
  subst,
}
use snservices.Registry.{Dll, set, append}
use snservices.Registry.Chain.{
  head_or, last_or, Chain, NotIn, Distinct, set_same, set_other, last_or-All, last_or-append,
  Chain-set_next, Chain-set_prev, relink, join, append-NotIn, ne_sym,
}

-- The records of the list, in order, are what the pointers go through, forwards and back.
pub record Rep (d : Dll) (xs : List ℕ) : Type 0 where
  pub first_eq : d.first ≡ head_or xs 0
  pub last_eq : d.last ≡ last_or 0 xs
  pub chain : Chain d.next d.prev 0 xs 0
  pub distinct : Distinct xs
  pub no_null : All (λ x. 0 < x) xs

pub All-append : (P : ℕ → Type 0) (xs ys : List ℕ) → All P xs → All P ys → All P (xs ++ ys)
All-append P [] ys h k = k
All-append P (x ∷ r) ys (h, hs) k = (h, All-append P r ys hs k)

pub All-split : (P : ℕ → Type 0) (xs ys : List ℕ) → All P (xs ++ ys) → All P xs × All P ys
All-split P [] ys h = (tt, h)
All-split P (x ∷ r) ys (h, hs) = let (k, l) = All-split P r ys hs in ((h, k), l)

pub pos_test : (n : ℕ) → 0 < n → (n == 0) ≡ false
pos_test n h = ground arith

Distinct-snoc : (xs : List ℕ) (n : ℕ) → Distinct xs → NotIn n xs → Distinct (xs ++ n ∷ [])
Distinct-snoc [] n d h = (tt, tt)
Distinct-snoc (x ∷ r) n (d, ds) (h, hs) =
    (append-NotIn x r (n ∷ []) d (ne_sym x n h, tt), Distinct-snoc r n ds hs)

module _ (n : ℕ) (d : Dll) where
  append_empty :
      d.first ≡ 0
      → append n d ≡ record { first = n; last = n; next = set d.next n 0; prev = set d.prev n 0 }
  unfolding append
  append_empty e = let q : (d.first == 0) ≡ true = (==_iff d.first 0).1 e in rw q refl

  append_more :
      (d.first == 0) ≡ false
      → append n d ≡ record {
        first = d.first;
        last = n;
        next = set (set d.next d.last n) n 0;
        prev = set d.prev n d.last;
      }
  unfolding append
  append_more q = rw q refl

-- A new record comes to the end of the list.
pub append-Rep :
    (n : ℕ) (d : Dll) (xs : List ℕ)
    → 0 < n
    → NotIn n xs
    → Rep d xs
    → Rep (append n d) (xs ++ n ∷ [])
append-Rep n d [] pos_n h v = rw (append_empty n d v.first_eq) (record {
  first_eq = refl;
  last_eq = refl;
  chain = (set_same d.prev n 0, set_same d.next n 0, tt);
  distinct = (tt, tt);
  no_null = (pos_n, tt);
})
append-Rep n d (x ∷ r) pos_n h v =
    rw (append_more n d (ap (λ z. z == 0) v.first_eq ∙ pos_test x v.no_null.0)) (record {
      first_eq = v.first_eq;
      last_eq = sym (last_or-append x r n);
      chain =
          join _ _ 0 (x ∷ r) (n ∷ []) 0
            (Chain-set_prev _ _ n d.last 0 (x ∷ r) n h
              (Chain-set_next _ _ n 0 0 (x ∷ r) n h linked))
            (set_same d.prev n d.last ∙ v.last_eq, set_same (set d.next d.last n) n 0, tt);
      distinct = Distinct-snoc (x ∷ r) n v.distinct h;
      no_null = All-append (λ z. 0 < z) (x ∷ r) (n ∷ []) v.no_null (pos_n, tt);
    })
  where
    linked : Chain (set d.next d.last n) d.prev 0 (x ∷ r) n
    linked =
        subst (λ z. Chain (set d.next z n) d.prev 0 (x ∷ r) n) (sym v.last_eq)
          (relink d.next d.prev 0 x r 0 n v.distinct v.chain)

-- Records outside of the list, and other than the new one, keep their pointers.
pub append_untouched :
    (n : ℕ) (d : Dll) (xs : List ℕ) (y : ℕ)
    → Rep d xs
    → (y == n) ≡ false
    → NotIn y xs
    → ((append n d).next y ≡ d.next y) × ((append n d).prev y ≡ d.prev y)
append_untouched n d [] y v ne h =
    rw (append_empty n d v.first_eq) (set_other d.next n y 0 ne, set_other d.prev n y 0 ne)
append_untouched n d (x ∷ r) y v ne h =
    rw (append_more n d (ap (λ z. z == 0) v.first_eq ∙ pos_test x v.no_null.0)) (
      set_other (set d.next d.last n) n y 0 ne ∙ set_other d.next d.last y n other,
      set_other d.prev n y d.last ne,
    )
  where
    other : (y == d.last) ≡ false
    other = rw v.last_eq (ne_sym (last_or x r) y (last_or-All (λ z. (z == y) ≡ false) x r h.0 h.1))

-- ===== src/Clone/Sums.antt =====
-- Sums of the counts of user names, services/clone.c, when one record is written.
use snservices.Base.{ℕ, ◌+◌, ◌<◌, ◌≡◌, refl, ap, false, List, [], ◌∷◌, ◌++◌, ◌==◌, All, arith}
use snservices.Registry.{set}
use snservices.Registry.Chain.{NotIn, NotIn-append, set_same, set_other}
use snservices.Clone.{Clones, UserClone}

abbrev pub sum : (ℕ → ℕ) → List ℕ → ℕ
sum f [] = 0
sum f (x ∷ r) = f x + sum f r

pub sum-append : (f : ℕ → ℕ) (xs ys : List ℕ) → sum f (xs ++ ys) ≡ sum f xs + sum f ys
sum-append f [] ys = omega arith
sum-append f (x ∷ r) ys = let rest = sum-append f r ys in omega arith

abbrev pub clones_of : Clones → ℕ → ℕ
clones_of s u = (s.user u).clones

-- Another record is written: the clients of the listed ones are the same.
module _ (s : Clones) (a : ℕ) (w : UserClone) where
  abbrev pub written : ℕ → ℕ
  written u = (set s.user a w u).clones

  other_clones : (x : ℕ) → (x == a) ≡ false → written x ≡ clones_of s x
  other_clones x h = ap (λ z. z.clones) (set_other s.user a x w h)

  pub sum_other : (ys : List ℕ) → NotIn a ys → sum written ys ≡ sum (clones_of s) ys
  sum_other [] h = refl
  sum_other (x ∷ r) (h, hs) = let e = other_clones x h in let rest = sum_other r hs in omega arith

  pub busy_other :
      (ys : List ℕ) → NotIn a ys → All (λ u. 0 < clones_of s u) ys → All (λ u. 0 < written u) ys
  busy_other [] h b = tt
  busy_other (x ∷ r) (h, hs) (b, bs) = let e = other_clones x h in (omega arith, busy_other r hs bs)

  written_here : written a ≡ w.clones
  written_here = ap (λ z. z.clones) (set_same s.user a w)

  -- One record of the list is written.
  pub sum-written :
      (bs as' : List ℕ)
      → NotIn a (bs ++ as')
      → sum written (bs ++ a ∷ as') ≡ w.clones + sum (clones_of s) (bs ++ as')
  sum-written bs as' h =
      let (k, l) = NotIn-append a bs as' h in
      let p = sum_other bs k in
      let q = sum_other as' l in
      let m = sum-append written bs (a ∷ as') in
      let n = sum-append (clones_of s) bs as' in let e = written_here in omega arith

  pub busy_written :
      (bs as' : List ℕ)
      → NotIn a (bs ++ as')
      → 0 < w.clones
      → All (λ u. 0 < clones_of s u) (bs ++ as')
      → All (λ u. 0 < written u) (bs ++ a ∷ as')
  busy_written [] as' h pos b = let e = written_here in (omega arith, busy_other as' h b)
  busy_written (x ∷ r) as' (h, hs) pos (b, bs) =
      let e = other_clones x h in (omega arith, busy_written r as' hs pos bs)

pub sum-split :
    (f : ℕ → ℕ) (bs : List ℕ) (a : ℕ) (as' : List ℕ)
    → sum f (bs ++ a ∷ as') ≡ f a + sum f (bs ++ as')
sum-split f [] a as' = refl
sum-split f (x ∷ r) a as' = let rest = sum-split f r a as' in omega arith

pub All-without :
    (P : ℕ → Type 0) (bs : List ℕ) (a : ℕ) (as' : List ℕ)
    → All P (bs ++ a ∷ as')
    → P a × All P (bs ++ as')
All-without P [] a as' h = h
All-without P (x ∷ r) a as' (h, hs) = let (k, l) = All-without P r a as' hs in (k, (h, l))

-- ===== src/ConnClass/Freed.antt =====
-- `class_free` of ircd/src/class.c: the last reference to a removed class takes it out of the list.
use snservices.Base.{
  ℕ, zero, suc, ◌+◌, ◌-◌, ◌≡◌, ◌<◌, refl, sym, ◌∙◌, ap, subst, inl, inr, Bool, true, false, List,
  [], ◌∷◌, ◌==◌, ◌&&◌, if◌then◌else◌, All, length, arith, Bool-cases, ==_iff,
}
use snservices.ConnClass.{
  ConnClass, Classes, set_class, is_removed, unlink_from, unlink_class, class_free,
}
use snservices.ConnClass.Listed.{Chain, ends, linked, Chain-set_class}

-- The list without the class.
abbrev pub without : ℕ → List ℕ → List ℕ
without cl [] = []
without cl (k ∷ l) = if k == cl then l else k ∷ without cl l

-- No class is on the list twice.
abbrev pub Distinct : List ℕ → Type 0
Distinct [] = Unit
Distinct (k ∷ l) = All (λ j. (j == k) ≡ false) l × Distinct l

unlink_from-other :
    (s : Classes) (cl j fuel at nx : ℕ) (l : List ℕ)
    → (s.class_at at).next ≡ nx
    → Chain s.class_at nx l
    → (j == at) ≡ false
    → All (λ k. (k == j) ≡ false) l
    → (unlink_from fuel cl at s).class_at j ≡ s.class_at j
unfolding unlink_from
unlink_from-other s cl j zero at nx l q c h a = refl
unlink_from-other s cl j (suc fuel) at _ [] q ends h a = rw q refl
unlink_from-other s cl j (suc fuel) at m (_ ∷ l) q (linked n c) h (b, a) =
    let z : (m == 0) ≡ false = ground (arith, n) in
    let d : (j == m) ≡ false = ground (arith, b) in
    elim (Bool-cases (m == cl)) [
      | inl e ↦ rw (q, z, e, h) refl
      | inr e ↦ rw (q, z, e) (unlink_from-other s cl j fuel m (s.class_at m).next l refl c d a)
    ]

abbrev Behind : ℕ → List ℕ → Classes → Type 0
Behind at l s = Chain s.class_at (s.class_at at).next l

at_same : (s : Classes) (at : ℕ) (x : ConnClass) → (set_class at x s).class_at at ≡ x
at_same s at x = let e = (==_iff at at).1 refl in rw e refl

module _ (s : Classes) (cl fuel at m : ℕ) (q : (s.class_at at).next ≡ m) where
  abbrev skipping : ConnClass
  skipping = record (s.class_at at) { next = (s.class_at cl).next }

  unlink_end : (m == 0) ≡ true → unlink_from (suc fuel) cl at s ≡ s
  unfolding unlink_from
  unlink_end z = rw (q, z) refl

  unlink_here :
      (m == 0) ≡ false → (m == cl) ≡ true → unlink_from (suc fuel) cl at s ≡ set_class at skipping s
  unfolding unlink_from
  unlink_here z e = rw (q, z, e) refl

  unlink_on :
      (m == 0) ≡ false
      → (m == cl) ≡ false
      → unlink_from (suc fuel) cl at s ≡ unlink_from fuel cl m s
  unfolding unlink_from
  unlink_on z e = rw (q, z, e) refl

unlink_from-Chain :
    (s : Classes) (cl fuel at nx : ℕ) (l : List ℕ)
    → (s.class_at at).next ≡ nx
    → Chain s.class_at nx l
    → All (λ k. (k == at) ≡ false) l
    → Distinct l
    → length l < fuel
    → Behind at (without cl l) (unlink_from fuel cl at s)
unlink_from-Chain s cl zero at nx l q c a d h = absurd (omega arith)
unlink_from-Chain s cl (suc fuel) at _ [] q ends a d h =
    subst (Behind at []) (sym (unlink_end s cl fuel at 0 q refl))
      (subst (λ k. Chain s.class_at k []) (sym q) ends)
unlink_from-Chain s cl (suc fuel) at m (_ ∷ l) q (linked n c) (b, a) (d, ds) h =
    let z : (m == 0) ≡ false = ground (arith, n) in
    elim (Bool-cases (m == cl)) [
      | inl e ↦
          let x = skipping s cl fuel at m q in
          let same : (s.class_at m).next ≡ (s.class_at cl).next =
            ap (λ k. (s.class_at k).next) ((==_iff m cl).0 e) in
          let there : Behind at l (set_class at x s) =
            subst (λ k. Chain (set_class at x s).class_at k l)
              (same ∙ sym (ap ConnClass.next (at_same s at x)))
              (Chain-set_class s at x (s.class_at m).next l a c) in
          rw e (subst (Behind at l) (sym (unlink_here s cl fuel at m q z e)) there)
      | inr e ↦
          let s' = unlink_from fuel cl m s in
          let h' : (at == m) ≡ false = ground (arith, b) in
          let stays = unlink_from-other s cl at fuel m (s.class_at m).next l refl c h' a in
          let rest =
            unlink_from-Chain s cl fuel m (s.class_at m).next l refl c d ds (omega (arith, h)) in
          rw e (
            subst (Behind at (m ∷ without cl l)) (sym (unlink_on s cl fuel at m q z e)) (
              subst (λ k. Chain s'.class_at k (m ∷ without cl l))
                (sym (ap ConnClass.next stays ∙ q)) (linked n rest)))
    ]

abbrev Listed : List ℕ → Classes → Type 0
Listed l s = Chain s.class_at s.classlist l

unlink_from-classlist :
    (s : Classes) (cl fuel at : ℕ) → (unlink_from fuel cl at s).classlist ≡ s.classlist
unfolding unlink_from
unlink_from-classlist s cl zero at = refl
unlink_from-classlist s cl (suc fuel) at = elim (Bool-cases ((s.class_at at).next == 0)) [
  | inl z ↦ rw z refl
  | inr z ↦ elim (Bool-cases ((s.class_at at).next == cl)) [
    | inl e ↦ rw (z, e) refl
    | inr e ↦ rw (z, e) (unlink_from-classlist s cl fuel (s.class_at at).next)
  ]
]

module _ (s : Classes) (cl fuel p : ℕ) (q : s.classlist ≡ p) where
  first_end : (p == 0) ≡ true → unlink_class fuel cl s ≡ s
  unfolding unlink_class
  first_end z = simp (unlink_class, q, z)

  first_here :
      (p == 0) ≡ false
      → (p == cl) ≡ true
      → unlink_class fuel cl s ≡ record s { classlist = (s.class_at cl).next }
  unfolding unlink_class
  first_here z e = simp (unlink_class, q, z, e)

  first_on : (p == 0) ≡ false → (p == cl) ≡ false → unlink_class fuel cl s ≡ unlink_from fuel cl p s
  unfolding unlink_class
  first_on z e = simp (unlink_class, q, z, e)

unlink_class-Chain :
    (s : Classes) (cl fuel p : ℕ) (l : List ℕ)
    → s.classlist ≡ p
    → Chain s.class_at p l
    → Distinct l
    → length l < fuel + 1
    → Listed (without cl l) (unlink_class fuel cl s)
unlink_class-Chain s cl fuel _ [] q ends d h =
    subst (Listed []) (sym (first_end s cl fuel 0 q refl))
      (subst (λ k. Chain s.class_at k []) (sym q) ends)
unlink_class-Chain s cl fuel p (_ ∷ l) q (linked n c) (d, ds) h =
    let z : (p == 0) ≡ false = ground (arith, n) in
    elim (Bool-cases (p == cl)) [
      | inl e ↦
          let same : (s.class_at p).next ≡ (s.class_at cl).next =
            ap (λ k. (s.class_at k).next) ((==_iff p cl).0 e) in
          rw e (
            subst (Listed l) (sym (first_here s cl fuel p q z e))
              (subst (λ k. Chain s.class_at k l) same c))
      | inr e ↦
          let s' = unlink_from fuel cl p s in
          let rest =
            unlink_from-Chain s cl fuel p (s.class_at p).next l refl c d ds (omega (arith, h)) in
          rw e (
            subst (Listed (p ∷ without cl l)) (sym (first_on s cl fuel p q z e)) (
              subst (λ k. Chain s'.class_at k (p ∷ without cl l))
                (sym (unlink_from-classlist s cl fuel p ∙ q)) (linked n rest)))
    ]

Chain-next :
    (at at' : ℕ → ConnClass) (p : ℕ) (l : List ℕ)
    → ((k : ℕ) → (at k).next ≡ (at' k).next)
    → Chain at p l
    → Chain at' p l
Chain-next at at' _ [] e ends = ends
Chain-next at at' p (_ ∷ l) e (linked n c) =
    linked n (subst (λ k. Chain at' k l) (e p) (Chain-next at at' (at p).next l e c))

abbrev less_one : Classes → ℕ → Classes
less_one s cl = set_class cl (record (s.class_at cl) { refs = (s.class_at cl).refs - 1 }) s

less_one_next : (s : Classes) (cl k : ℕ) → (s.class_at k).next ≡ ((less_one s cl).class_at k).next
less_one_next s cl k = elim (Bool-cases (k == cl)) [
  | inl e ↦ rw e (ap (λ j. (s.class_at j).next) ((==_iff k cl).0 e))
  | inr e ↦ rw e refl
]

freed :
    (fuel cl : ℕ) (s : Classes)
    → is_removed (s.class_at cl) ≡ true
    → (s.class_at cl).refs ≡ 1
    → class_free fuel cl s ≡ unlink_class fuel cl (less_one s cl)
unfolding class_free
freed fuel cl s gone one =
    let t : ((s.class_at cl).refs == 1) ≡ true = (==_iff _ 1).1 one in
    ap (λ b. if b then unlink_class fuel cl (less_one s cl) else less_one s cl) (both gone t)
  where
    both : {a b : Bool} → a ≡ true → b ≡ true → (a && b) ≡ true
    both e f = rw (e, f) refl

-- When the last reference to a class that was removed is let go, the list is that from before without the
-- class, with all other classes in their order; the loop ends within one round for each class.
pub class_free-Chain :
    (fuel cl : ℕ) (s : Classes) (l : List ℕ)
    → Chain s.class_at s.classlist l
    → Distinct l
    → length l < fuel + 1
    → is_removed (s.class_at cl) ≡ true
    → (s.class_at cl).refs ≡ 1
    → (let s' = class_free fuel cl s in Chain s'.class_at s'.classlist (without cl l))
class_free-Chain fuel cl s l c d h gone one =
    subst (Listed (without cl l)) (sym (freed fuel cl s gone one)) (
      unlink_class-Chain (less_one s cl) cl fuel s.classlist l refl
        (Chain-next s.class_at (less_one s cl).class_at s.classlist l (less_one_next s cl) c) d h)

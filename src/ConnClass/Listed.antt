-- ===== src/ConnClass/Listed.antt =====
-- The list of classes of ircd/src/class.c: what a search finds, and what adding a class does to the list.
use snservices.Base.{
  ℕ, zero, suc, ◌+◌, ◌≡◌, ◌≢◌, ◌<◌, refl, sym, ◌∙◌, ap, subst, inl, inr, true, false, Option, none,
  some, List, [], ◌∷◌, ◌==◌, if◌then◌else◌, Bytes, All, length, arith, Bool-cases, ==_iff,
}
use snservices.Base.Int.{ℤ}
use snservices.ConnClass.{
  ConnClass, Classes, ConfNode, Defaults, set_class, same_class_name, class_from, class_get,
  is_removed, fill_class, new_class, add_named, add_found, conf_class_add,
}

-- From `cl` on the list consists of these classes and ends.
pub data Chain (at : ℕ → ConnClass) : ℕ → List ℕ → Type 0 where
  ends : Chain at 0 []
  linked : {cl : ℕ} {l : List ℕ} → cl ≢ 0 → Chain at (at cl).next l → Chain at cl (cl ∷ l)

-- The first of the classes with the name, or 0.
unfoldable pub first_named : (ℕ → ConnClass) → Bytes → List ℕ → ℕ
first_named at name [] = 0
first_named at name (cl ∷ l) =
    let rest = first_named at name l in if same_class_name (at cl).name name then cl else rest

class_from-Chain :
    (s : Classes) (name : Bytes) (fuel cl : ℕ) (l : List ℕ)
    → Chain s.class_at cl l
    → length l < fuel
    → class_from fuel name cl s ≡ some (first_named s.class_at name l)
unfolding class_from first_named
class_from-Chain s name zero cl l c h = absurd (omega arith)
class_from-Chain s name (suc fuel) _ [] ends h = refl
class_from-Chain s name (suc fuel) cl (_ ∷ l) (linked n c) h = elim (Bool-cases (cl == 0)) [
  | inl z ↦ absurd (n ((==_iff cl 0).0 z))
  | inr z ↦ elim (Bool-cases (same_class_name (s.class_at cl).name name)) [
    | inl e ↦ rw (z, e) refl
    | inr e ↦ rw (z, e) (class_from-Chain s name fuel (s.class_at cl).next l c (omega arith))
  ]
]

-- The chain stays when a class that is not on it is changed.
pub Chain-set_class :
    (s : Classes) (alloc : ℕ) (x : ConnClass) (cl : ℕ) (l : List ℕ)
    → All (λ k. (k == alloc) ≡ false) l
    → Chain s.class_at cl l
    → Chain (set_class alloc x s).class_at cl l
Chain-set_class s alloc x _ [] a ends = ends
Chain-set_class s alloc x cl (_ ∷ l) (h, a) (linked n c) =
    linked n (rw h (Chain-set_class s alloc x (s.class_at cl).next l a c))

never :
    (s : Classes) (cl : ℕ) (name : Bytes)
    → (cl == 0) ≡ false
    → (s.class_at cl).next ≡ cl
    → same_class_name (s.class_at cl).name name ≡ false
    → (rounds : ℕ) → class_from rounds name cl s ≡ none
unfolding class_from
never s cl name z loops e zero = refl
never s cl name z loops e (suc rounds) =
    rw (z, e) (ap (λ k. class_from rounds name k s) loops ∙ never s cl name z loops e rounds)

same_class_name_refl : (s : Bytes) → same_class_name s s ≡ true
unfolding same_class_name
same_class_name_refl [] = refl
same_class_name_refl (a ∷ s) = let e = (==_iff a a).1 refl in rw (e, same_class_name_refl s) refl

first_here :
    (at : ℕ → ConnClass) (name : Bytes) (cl : ℕ) (l : List ℕ)
    → same_class_name (at cl).name name ≡ true
    → first_named at name (cl ∷ l) ≡ cl
unfolding first_named
first_here at name cl l e = rw e refl

module _ (atoi : Bytes → ℤ) (defaults : Defaults) where
  pub at_alloc :
      (s : Classes) (alloc : ℕ) (x : ConnClass) → (set_class alloc x s).class_at alloc ≡ x
  at_alloc s alloc x = let e = (==_iff alloc alloc).1 refl in rw e refl

  abbrev by_name : ℕ → ℕ → ConfNode → Classes → Option Bytes → Option (ℕ × Classes)
  by_name fuel alloc n s o = elim o [
    | none ↦ none
    | some name ↦ add_named atoi defaults alloc name n (class_get fuel name s) s
  ]

  -- A class with a name that no class of the list has: `class_get` finds none, and when its node is added
  -- it stands in front of the list, which is otherwise as before, and is found by its name.
  pub conf_class_add-Chain :
      (fuel alloc : ℕ) (name : Bytes) (n : ConfNode) (s : Classes) (l : List ℕ)
      → Chain s.class_at s.classlist l
      → length l + 1 < fuel
      → n.conf_name ≡ some name
      → first_named s.class_at name l ≡ 0
      → alloc ≢ 0
      → All (λ k. (k == alloc) ≡ false) l
      → (s' : Classes) × (conf_class_add atoi defaults fuel alloc n s ≡ some (alloc, s'))
        × Chain s'.class_at s'.classlist (alloc ∷ l)
        × (class_get fuel name s' ≡ some alloc)
  unfolding conf_class_add class_get add_found
  conf_class_add-Chain fuel alloc name n s l c h named fresh nz apart =
      let x =
        fill_class atoi defaults n (new_class atoi defaults name (s.class_at alloc)) s.classlist in
      let s' : Classes = record (set_class alloc x s) { classlist = alloc } in
      let here = at_alloc s alloc x in
      let chain : Chain s'.class_at alloc (alloc ∷ l) = linked nz (
        subst (λ k. Chain s'.class_at k l) (sym (ap ConnClass.next here))
          (Chain-set_class s alloc x s.classlist l apart c)) in
      let none_there =
        class_from-Chain s name fuel s.classlist l c (omega (arith, h)) ∙ ap some fresh in
      let e : same_class_name (s'.class_at alloc).name name ≡ true =
        ap (λ y. same_class_name y.name name) here ∙ same_class_name_refl name in
      (
        s',
        ap (λ o. by_name fuel alloc n s o) named
            ∙ ap (λ o. add_named atoi defaults alloc name n o s) none_there,
        chain,
        class_from-Chain s' name fuel alloc (alloc ∷ l) chain (omega (arith, h))
            ∙ ap some (first_here s'.class_at name alloc l e),
      )

  -- The first class of the list was removed while it was in use, and its node is added again: the class is
  -- put in front of the list once more, before itself, so that a search for any other name goes round
  -- and round, however long it lasts.
  pub conf_class_add_again :
      (alloc k : ℕ) (name : Bytes) (n : ConfNode) (s : Classes)
      → s.classlist ≡ suc k
      → is_removed (s.class_at (suc k)) ≡ true
      → (s' : Classes) × (add_found atoi defaults alloc name n (suc k) s ≡ some (suc k, s'))
        × ((other : Bytes)
            → same_class_name (s.class_at (suc k)).name other ≡ false
            → (rounds : ℕ) → class_get rounds other s' ≡ none)
  unfolding add_found class_get
  conf_class_add_again alloc k name n s first gone =
      let x = fill_class atoi defaults n (s.class_at (suc k)) s.classlist in
      let s' : Classes = record (set_class (suc k) x s) { classlist = suc k } in
      let here = at_alloc s (suc k) x in
      (
        s',
        rw gone refl,
        λ other e rounds.
            never s' (suc k) other (ground arith) (ap ConnClass.next here ∙ first)
              (ap (λ y. same_class_name y.name other) here ∙ e) rounds,
      )

-- ===== src/Whowas/Refs.antt =====
-- References to the user records of ircd/src/whowas.c: of one entry and of the whole ring, and what
-- `free_user` does to their counts.
use snservices.Base.{
  ℕ, zero, suc, ◌+◌, ◌≡◌, ◌≢◌, ◌<◌, ◌≤◌, inl, inr, refl, sym, ap, subst, Bool, true, false, leb,
  ◌==◌, if◌then◌else◌, arith, Bool-cases, ==_iff,
}
use snservices.Whowas.{Name, Who, no_name, put_at, let_go, free_at_0, entry_of}

abbrev pub refers : ℕ → Name → ℕ
refers u e = if e.ww_user == u then 1 else 0

-- The entries below `n` that refer to the record.
pub uses : ℕ → ℕ → (ℕ → Name) → ℕ
uses zero u was = 0
uses (suc n) u was = refers u (was n) + uses n u was

uses_behind :
    (n u k : ℕ) (e : Name) (was : ℕ → Name) → n ≤ k → uses n u (put_at k e was) ≡ uses n u was
unfolding uses
uses_behind zero u k e was h = refl
uses_behind (suc n) u k e was h =
    let t : (n == k) ≡ false = ground (arith, h) in
    rw (t, uses_behind n u k e was (omega (arith, h))) refl

pub uses-put_at :
    (n u k : ℕ) (e : Name) (was : ℕ → Name)
    → k < n
    → uses n u (put_at k e was) + refers u (was k) ≡ uses n u was + refers u e
unfolding uses
uses-put_at zero u k e was h = absurd (omega arith)
uses-put_at (suc n) u k e was h = elim (Bool-cases (n == k)) [
  | inl t ↦
      let q : n ≡ k = (==_iff n k).0 t in
      rw (t, uses_behind n u k e was (omega (arith, q)), ap (λ i. refers u (was i)) q) (omega arith)
  | inr t ↦ rw t (omega (arith, uses-put_at n u k e was (ground (arith, h, t))))
]

pub one_use : (n k u : ℕ) (was : ℕ → Name) → k < n → refers u (was k) ≤ uses n u was
unfolding uses
one_use zero k u was h = absurd (omega arith)
one_use (suc n) k u was h = elim (Bool-cases (k == n)) [
  | inl t ↦
      subst (λ i. refers u (was i) ≤ refers u (was n) + uses n u was) (sym ((==_iff k n).0 t))
        (omega arith)
  | inr t ↦ omega (arith, one_use n k u was (ground (arith, h, t)))
]

abbrev pub is_one : ℕ → ℕ → ℕ
is_one v u = if v == u then 1 else 0

pub let_go_lem :
    (v u : ℕ) (refcnt : ℕ → ℕ)
    → u ≢ 0
    → is_one v u ≤ refcnt u
    → let_go v refcnt u + is_one v u ≡ refcnt u
let_go_lem v u refcnt n k = elim (Bool-cases (v == u)) [
  | inl t ↦
      let q : v ≡ u = (==_iff v u).0 t in
      let z : (v == 0) ≡ false = ground (arith, q, n) in
      let r : (u == v) ≡ true = ground (arith, q) in
      rw (z, r, t) (ground (arith, t, k, ap refcnt q))
  | inr t ↦
      let r : (u == v) ≡ false = ground (arith, t) in
      elim (Bool-cases (v == 0)) [
        | inl z ↦ rw (z, t) (omega arith)
        | inr z ↦ rw (z, r, t) (omega arith)
      ]
]

pub counted_up :
    (v u : ℕ) (refcnt : ℕ → ℕ) → put_at v (refcnt v + 1) refcnt u ≡ refcnt u + is_one v u
counted_up v u refcnt = elim (Bool-cases (v == u)) [
  | inl t ↦
      let q : v ≡ u = (==_iff v u).0 t in
      let r : (u == v) ≡ true = ground (arith, q) in rw (r, t, q) refl
  | inr t ↦ let r : (u == v) ≡ false = ground (arith, t) in rw (r, t) (omega arith)
]

pub entry_user : (held now : ℕ) (c : Who) (u : ℕ) → refers u (entry_of held now c) ≡ is_one c.user u
unfolding entry_of
entry_user held now c u = refl

pub uses_none : (n u : ℕ) → u ≢ 0 → uses n u (λ k. no_name) ≡ 0
unfolding uses
uses_none zero u h = refl
uses_none (suc n) u h =
    let t : (0 == u) ≡ false = ground (arith, h) in rw t (omega (arith, uses_none n u h))

-- `free_user` frees nothing that still has a reference.
pub free_at_0_lem :
    (v u : ℕ) (refcnt : ℕ → ℕ) (is_freed : ℕ → Bool)
    → is_freed u ≡ false
    → 0 < let_go v refcnt u
    → free_at_0 v refcnt is_freed u ≡ false
free_at_0_lem v u refcnt is_freed f k = elim (Bool-cases (v == 0)) [
  | inl z ↦ rw z f
  | inr z ↦ elim (Bool-cases (leb (refcnt v) 1)) [
    | inr l ↦ rw (z, l) f
    | inl l ↦ elim (Bool-cases (u == v)) [
      | inl t ↦ absurd (ground (arith, l, rw (z, t) at k))
      | inr t ↦ rw (z, l, t) f
    ]
  ]
]

-- It frees a record of which no reference is left.
pub free_at_0-freed :
    (v : ℕ) (refcnt : ℕ → ℕ) (is_freed : ℕ → Bool)
    → v ≢ 0
    → refcnt v ≤ 1
    → free_at_0 v refcnt is_freed v ≡ true
free_at_0-freed v refcnt is_freed n k =
    let z : (v == 0) ≡ false = ground (arith, n) in
    let l : leb (refcnt v) 1 ≡ true = ground (arith, k) in
    let t : (v == v) ≡ true = (==_iff v v).1 refl in rw (z, l, t) refl

-- ===== src/ChanServ/Register/Numbers.antt =====
-- The numbers that indexAkickItems and indexOpItems of services/chanserv.c give.
use snservices.Base.{
  ℕ, zero, suc, ◌+◌, ◌<◌, ◌≤◌, ◌%◌, ◌^◌, ◌≡◌, refl, sym, ◌∙◌, false, List, [], ◌∷◌, ◌++◌, ◌==◌, All,
  length, length-append, arith, subst,
}
use snservices.Registry.{Dll, set}
use snservices.Registry.Chain.{NotIn, Distinct, Chain, head_or, set_same, set_other, ne_sym}
use snservices.Registry.Refine.{Rep, pos_test}
use snservices.ChanServ.Register.{renumber, incr, decr}

-- The items of the list are numbered from `i` on, without gaps.
abbrev pub Numbered : (ℕ → ℕ) → ℕ → List ℕ → Type 0
Numbered index i [] = Unit
Numbered index i (x ∷ r) = (index x ≡ i) × Numbered index (i + 1) r

renumber_step :
    (fuel x : ℕ) (next : ℕ → ℕ) (i : ℕ) (index : ℕ → ℕ) (q : ℕ)
    → (x == 0) ≡ false
    → next x ≡ q
    → renumber (suc fuel) x next i index ≡ renumber fuel q next (i + 1) (set index x i)
unfolding renumber
renumber_step fuel x next i index q e f = rw (e, f) refl

renumber_other :
    (next prev : ℕ → ℕ) (fuel i p : ℕ) (index : ℕ → ℕ) (x : ℕ) (xs : List ℕ)
    → Chain next prev p xs 0
    → All (λ y. 0 < y) xs
    → NotIn x xs
    → renumber fuel (head_or xs 0) next i index x ≡ index x
unfolding renumber
renumber_other next prev zero i p index x xs c z h = refl
renumber_other next prev (suc fuel) i p index x [] c z h = refl
renumber_other next prev (suc fuel) i p index x (y ∷ r) c z h =
    rw (pos_test y z.0, c.1)
      (renumber_other next prev fuel (i + 1) y (set index y i) x r c.2 z.1 h.1
        ∙ set_other index y x i (ne_sym y x h.0))

renumber-Chain :
    (next prev : ℕ → ℕ) (fuel i p : ℕ) (index : ℕ → ℕ) (xs : List ℕ)
    → Chain next prev p xs 0
    → All (λ y. 0 < y) xs
    → Distinct xs
    → length xs ≤ fuel
    → Numbered (renumber fuel (head_or xs 0) next i index) i xs
unfolding renumber
renumber-Chain next prev zero i p index [] c z d h = tt
renumber-Chain next prev zero i p index (x ∷ r) c z d h = absurd (omega arith)
renumber-Chain next prev (suc fuel) i p index [] c z d h = tt
renumber-Chain next prev (suc fuel) i p index (x ∷ r) c z d h =
    subst (λ f. Numbered f i (x ∷ r))
      (sym (renumber_step fuel x next i index (head_or r 0) (pos_test x z.0) c.1))
      (
        renumber_other next prev fuel (i + 1) x (set index x i) x r c.2 z.1 d.0
            ∙ set_same index x i,
        renumber-Chain next prev fuel (i + 1) x (set index x i) r c.2 z.1 d.1 (omega arith),
      )

pub renumber-Numbered :
    (fuel : ℕ) (d : Dll) (index : ℕ → ℕ) (xs : List ℕ)
    → Rep d xs
    → length xs ≤ fuel
    → Numbered (renumber fuel d.first d.next 1 index) 1 xs
renumber-Numbered fuel d index xs v h =
    rw v.first_eq (renumber-Chain d.next d.prev fuel 1 0 index xs v.chain v.no_null v.distinct h)

-- The counters follow the lists, as far as 32 bits reach.
pub incr-length :
    (n k : ℕ) (xs : List ℕ) → k ≡ length xs % 2 ^ 32 → incr k ≡ length (xs ++ n ∷ []) % 2 ^ 32
incr-length n k xs e = let l = length-append xs (n ∷ []) in omega arith

pub decr-length :
    (n k : ℕ) (bs as' : List ℕ)
    → k ≡ length (bs ++ n ∷ as') % 2 ^ 32
    → decr k ≡ length (bs ++ as') % 2 ^ 32
decr-length n k bs as' e =
    let l = length-append bs (n ∷ as') in let m = length-append bs as' in omega arith

-- ===== src/Registry/Remove.antt =====
-- What the removal of a record makes of the list, services/chanserv.c: delChan and its like.
use snservices.Base.{
  ℕ, ◌<◌, ◌≡◌, refl, sym, ap, ◌∙◌, true, false, List, [], ◌∷◌, ◌++◌, ◌==◌, All, ==_iff, append-nil,
}
use snservices.Registry.{Dll, set, cut_next, cut_prev, remove}
use snservices.Registry.Chain.{
  head_or, last_or, Chain, NotIn, Distinct, set_other, last_or-All, Chain-set_next, Chain-set_prev,
  relink, rehead, join, unjoin, NotIn-append, Parts, Distinct-Parts, Parts-Distinct, ne_sym,
}
use snservices.Registry.Refine.{Rep, All-append, All-split, pos_test}

-- What the removal of `n` makes of the pointers, when `bs` stands before it and `as'` behind it.
module _ (n : ℕ) (d : Dll) (bs as' : List ℕ) where
  abbrev behind : ℕ
  behind = head_or as' 0

  abbrev before : ℕ
  before = last_or 0 bs

  abbrev new_next : List ℕ → ℕ → ℕ
  new_next [] = d.next
  new_next (b ∷ r) = set d.next (last_or b r) behind

  abbrev new_prev : List ℕ → ℕ → ℕ
  new_prev [] = d.prev
  new_prev (a ∷ r) = set d.prev a before

  abbrev new_first : List ℕ → ℕ
  new_first [] = behind
  new_first (b ∷ r) = d.first

  abbrev new_last : List ℕ → ℕ
  new_last [] = before
  new_last (a ∷ r) = d.last

  abbrev removed : Dll
  removed = record {
    first = new_first bs;
    last = new_last as';
    next = new_next bs;
    prev = new_prev as';
  }

module _ (n : ℕ) (d : Dll) (bs as' : List ℕ) (v : Rep d (bs ++ n ∷ as')) where
  parts : Parts bs (n ∷ as')
  parts = Distinct-Parts bs (n ∷ as') v.distinct

  chains : Chain d.next d.prev 0 bs n × Chain d.next d.prev (last_or 0 bs) (n ∷ as') 0
  chains = unjoin d.next d.prev 0 bs (n ∷ as') 0 v.chain

  pub prev_n : d.prev n ≡ last_or 0 bs
  prev_n = chains.1.0

  pub next_n : d.next n ≡ head_or as' 0
  next_n = chains.1.1

  pub no_nulls : All (λ x. 0 < x) bs × All (λ x. 0 < x) (n ∷ as')
  no_nulls = All-split (λ x. 0 < x) bs (n ∷ as') v.no_null

left-Chain :
    (n : ℕ) (d : Dll) (bs as' : List ℕ)
    → Distinct bs
    → Chain d.next d.prev 0 bs n
    → Chain (new_next n d bs as' bs) d.prev 0 bs (head_or as' 0)
left-Chain n d [] as' h c = tt
left-Chain n d (b ∷ r) as' h c = relink d.next d.prev 0 b r n (head_or as' 0) h c

-- The items behind keep what they point to.
right_next :
    (n : ℕ) (d : Dll) (bs as' : List ℕ) (p : ℕ)
    → All (λ x. NotIn x as') bs
    → Chain d.next d.prev p as' 0
    → Chain (new_next n d bs as' bs) d.prev p as' 0
right_next n d [] as' p h c = c
right_next n d (b ∷ r) as' p (h, hs) c =
    Chain-set_next d.next d.prev (last_or b r) (head_or as' 0) p as' 0
      (last_or-All (λ x. NotIn x as') b r h hs) c

right-Chain :
    (n : ℕ) (d : Dll) (next : ℕ → ℕ) (bs as' : List ℕ)
    → Distinct as'
    → Chain next d.prev n as' 0
    → Chain next (new_prev n d bs as' as') (last_or 0 bs) as' 0
right-Chain n d next bs [] h c = tt
right-Chain n d next bs (a ∷ r) h c = rehead next d.prev n (last_or 0 bs) a r 0 h c

NotIn-flip : (a : ℕ) (xs : List ℕ) → All (λ x. NotIn x (a ∷ [])) xs → NotIn a xs
NotIn-flip a [] h = tt
NotIn-flip a (x ∷ r) ((h, _), hs) = (ne_sym a x h, NotIn-flip a r hs)

weaken : (xs : List ℕ) (a : ℕ) (as' : List ℕ) → All (λ x. NotIn x (a ∷ as')) xs → NotIn a xs
weaken [] a as' h = tt
weaken (x ∷ r) a as' ((h, _), hs) = (ne_sym a x h, weaken r a as' hs)

tails :
    (xs : List ℕ) (a : ℕ) (as' : List ℕ)
    → All (λ x. NotIn x (a ∷ as')) xs
    → All (λ x. NotIn x as') xs
tails [] a as' h = tt
tails (x ∷ r) a as' ((_, h), hs) = (h, tails r a as' hs)

left_prev :
    (n : ℕ) (d : Dll) (next : ℕ → ℕ) (bs as' : List ℕ) (q : ℕ)
    → All (λ x. NotIn x as') bs
    → Chain next d.prev 0 bs q
    → Chain next (new_prev n d bs as' as') 0 bs q
left_prev n d next bs [] q h c = c
left_prev n d next bs (a ∷ r) q h c =
    Chain-set_prev next d.prev a (last_or 0 bs) 0 bs q (weaken bs a r h) c

last_or-cons :
    (p : ℕ) (bs : List ℕ) (n a : ℕ) (r : List ℕ)
    → last_or p (bs ++ n ∷ a ∷ r) ≡ last_or p (bs ++ a ∷ r)
last_or-cons p [] n a r = refl
last_or-cons p (b ∷ bs) n a r = last_or-cons b bs n a r

removed-Rep :
    (n : ℕ) (d : Dll) (bs as' : List ℕ)
    → Rep d (bs ++ n ∷ as')
    → Rep (removed n d bs as') (bs ++ as')
removed-Rep n d bs as' v = record {
  first_eq = firsts bs v.first_eq;
  last_eq = lasts bs as' v.last_eq;
  chain =
      join _ _ 0 bs as' 0
        (left_prev n d (new_next n d bs as' bs) bs as' (head_or as' 0) apart
          (left-Chain n d bs as' k.left c.0))
        (right-Chain n d (new_next n d bs as' bs) bs as' k.right.1
          (right_next n d bs as' n apart c.1.2));
  distinct = Parts-Distinct bs as' (record { left = k.left; right = k.right.1; apart = apart });
  no_null = All-append (λ x. 0 < x) bs as' z.0 z.1.1;
}
  where
    k : Parts bs (n ∷ as')
    k = parts n d bs as' v

    c : Chain d.next d.prev 0 bs n × Chain d.next d.prev (last_or 0 bs) (n ∷ as') 0
    c = chains n d bs as' v

    z : All (λ x. 0 < x) bs × All (λ x. 0 < x) (n ∷ as')
    z = no_nulls n d bs as' v

    apart : All (λ x. NotIn x as') bs
    apart = tails bs n as' k.apart

    firsts :
        (bs : List ℕ)
        → d.first ≡ head_or (bs ++ n ∷ as') 0
        → new_first n d bs as' bs ≡ head_or (bs ++ as') 0
    firsts [] e = refl
    firsts (b ∷ r) e = e

    lasts :
        (bs as' : List ℕ)
        → d.last ≡ last_or 0 (bs ++ n ∷ as')
        → new_last n d bs as' as' ≡ last_or 0 (bs ++ as')
    lasts bs [] e = ap (last_or 0) (sym (append-nil bs))
    lasts bs (a ∷ r) e = e ∙ last_or-cons 0 bs n a r

cut_next-first : (n : ℕ) (d : Dll) → d.prev n ≡ 0 → cut_next n d ≡ record d { first = d.next n }
unfolding cut_next
cut_next-first n d e = let q : (d.prev n == 0) ≡ true = (==_iff (d.prev n) 0).1 e in rw q refl

cut_next-inner :
    (n : ℕ) (d : Dll)
    → (d.prev n == 0) ≡ false
    → cut_next n d ≡ record d { next = set d.next (d.prev n) (d.next n) }
unfolding cut_next
cut_next-inner n d q = rw q refl

cut_prev-last : (n : ℕ) (d : Dll) → d.next n ≡ 0 → cut_prev n d ≡ record d { last = d.prev n }
unfolding cut_prev
cut_prev-last n d e = let q : (d.next n == 0) ≡ true = (==_iff (d.next n) 0).1 e in rw q refl

cut_prev-inner :
    (n : ℕ) (d : Dll)
    → (d.next n == 0) ≡ false
    → cut_prev n d ≡ record d { prev = set d.prev (d.next n) (d.prev n) }
unfolding cut_prev
cut_prev-inner n d q = rw q refl

-- After the first half.
abbrev half : (n : ℕ) (d : Dll) (bs as' : List ℕ) → Dll
half n d bs as' = record d { first = new_first n d bs as' bs; next = new_next n d bs as' bs }

cut_next-half :
    (n : ℕ) (d : Dll) (bs as' : List ℕ) → Rep d (bs ++ n ∷ as') → cut_next n d ≡ half n d bs as'
cut_next-half n d [] as' v =
    cut_next-first n d (prev_n n d [] as' v)
    ∙ ap (λ z. record d { first = z }) (next_n n d [] as' v)
cut_next-half n d (b ∷ r) as' v =
    cut_next-inner n d (ap (λ z. z == 0) (prev_n n d (b ∷ r) as' v) ∙ pos_test (last_or b r) inside)
    ∙ ap (λ z. record d { next = set d.next z (d.next n) }) (prev_n n d (b ∷ r) as' v)
    ∙ ap (λ z. record d { next = set d.next (last_or b r) z }) (next_n n d (b ∷ r) as' v)
  where
    inside : 0 < last_or b r
    inside =
        last_or-All (λ x. 0 < x) b r (no_nulls n d (b ∷ r) as' v).0.0
          (no_nulls n d (b ∷ r) as' v).0.1

half-next :
    (n : ℕ) (d : Dll) (bs as' : List ℕ)
    → Rep d (bs ++ n ∷ as')
    → (half n d bs as').next n ≡ head_or as' 0
half-next n d [] as' v = next_n n d [] as' v
half-next n d (b ∷ r) as' v =
    set_other d.next (last_or b r) n (head_or as' 0)
      (ne_sym (last_or b r) n (last_or-All (λ x. (x == n) ≡ false) b r there.0 there.1))
    ∙ next_n n d (b ∷ r) as' v
  where
    there : NotIn n (b ∷ r)
    there = weaken (b ∷ r) n as' (parts n d (b ∷ r) as' v).apart

cut_prev-removed :
    (n : ℕ) (d : Dll) (bs as' : List ℕ)
    → Rep d (bs ++ n ∷ as')
    → cut_prev n (half n d bs as') ≡ removed n d bs as'
cut_prev-removed n d bs [] v =
    cut_prev-last n (half n d bs []) (half-next n d bs [] v)
    ∙ ap (λ z. record (half n d bs []) { last = z }) (prev_n n d bs [] v)
cut_prev-removed n d bs (a ∷ r) v =
    cut_prev-inner n h
      (ap (λ z. z == 0) (half-next n d bs (a ∷ r) v) ∙ pos_test a (no_nulls n d bs (a ∷ r) v).1.1.0)
    ∙ ap (λ z. record h { prev = set d.prev z (d.prev n) }) (half-next n d bs (a ∷ r) v)
    ∙ ap (λ z. record h { prev = set d.prev a z }) (prev_n n d bs (a ∷ r) v)
  where
    h : Dll
    h = half n d bs (a ∷ r)

-- A record that is in the list goes out of it, and the others stay in their order.
pub remove-Rep :
    (n : ℕ) (d : Dll) (bs as' : List ℕ) → Rep d (bs ++ n ∷ as') → Rep (remove n d) (bs ++ as')
unfolding remove
remove-Rep n d bs as' v =
    rw (cut_next-half n d bs as' v, cut_prev-removed n d bs as' v) (removed-Rep n d bs as' v)

pub remove_untouched :
    (n : ℕ) (d : Dll) (bs as' : List ℕ) (y : ℕ)
    → Rep d (bs ++ n ∷ as')
    → NotIn y (bs ++ n ∷ as')
    → ((remove n d).next y ≡ d.next y) × ((remove n d).prev y ≡ d.prev y)
unfolding remove
remove_untouched n d bs as' y v h =
    rw (cut_next-half n d bs as' v, cut_prev-removed n d bs as' v)
      (nexts bs (NotIn-append y bs (n ∷ as') h).0, prevs as' (NotIn-append y bs (n ∷ as') h).1.1)
  where
    nexts : (cs : List ℕ) → NotIn y cs → new_next n d bs as' cs y ≡ d.next y
    nexts [] k = refl
    nexts (b ∷ r) (k, ks) =
        set_other d.next (last_or b r) y (head_or as' 0)
          (ne_sym (last_or b r) y (last_or-All (λ z. (z == y) ≡ false) b r k ks))

    prevs : (cs : List ℕ) → NotIn y cs → new_prev n d bs as' cs y ≡ d.prev y
    prevs [] k = refl
    prevs (a ∷ r) (k, ks) = set_other d.prev a y (last_or 0 bs) (ne_sym a y k)

-- ===== src/Clone/Counts.antt =====
-- The count of a host against the counts of its user names, services/clone.c.
use snservices.Base.{
  ℕ, ◌+◌, ◌-◌, ◌≤◌, ◌<◌, ◌≡◌, refl, sym, ap, ◌∙◌, inl, inr, Bool, true, false, List, [], ◌∷◌, ◌++◌,
  ◌==◌, if◌then◌else◌, Bytes, All, length, arith, Bool-cases, ==_iff, subst, append-nil, false≢true,
}
use snservices.Registry.{append}
use snservices.Registry.Names.{same_name}
use snservices.Registry.Chain.{NotIn, Distinct-out}
use snservices.Registry.Refine.{Rep, append-Rep}
use snservices.Registry.Remove.{remove-Rep}
use snservices.Registry.Table.{walk}
use snservices.Registry.Lookup.{first_such, walk-first_such}
use snservices.Clone.{Clones, HostClone, UserClone, with_host, with_user}
use snservices.Clone.Hosts.{
  get_user_clone_data, make_user_clone, add_user_clone, del_user_clone, count_off,
}
use snservices.Clone.Sums.{
  sum, clones_of, sum_other, busy_other, sum-written, busy_written, sum-split, All-without,
}

-- The user names of a host: each has a client, and all their clients together are those of the host.
pub record Users (s : Clones) (hc : ℕ) (ys : List ℕ) : Type 0 where
  pub list : Rep (s.host hc).users ys
  pub total : (s.host hc).clones ≡ sum (clones_of s) ys
  pub busy : All (λ u. 0 < clones_of s u) ys

self : (c : ℕ) → (c == c) ≡ true
self c = (==_iff c c).1 refl

module _ (matches : Bytes → Bytes → Bool) (fuel hc uc : ℕ) (s : Clones) where
  abbrev less : Clones
  less =
      with_user uc (record (s.user uc) { clones = (s.user uc).clones - 1 })
        (with_host hc (record (s.host hc) { clones = (s.host hc).clones - 1 }) s)

  -- While the count of a host is the sum of the counts of its listed user names, and none of
  -- these is 0, a client of one of them leaves: this stays so, and a user name whose last client
  -- leaves goes out of the list, the others in their order.
  pub count_off-Users :
      (bs as' : List ℕ)
      → Users s hc (bs ++ uc ∷ as')
      → Users
          (count_off matches fuel hc uc s)
          hc
          (if (s.user uc).clones - 1 == 0 then bs ++ as' else bs ++ uc ∷ as')
  unfolding count_off del_user_clone
  count_off-Users bs as' v = elim (Bool-cases ((s.user uc).clones - 1 == 0)) [
    | inl e ↦
        let z = (==_iff ((s.user uc).clones - 1) 0).0 e in
        rw e (record {
          list = rw (self hc) (remove-Rep uc (s.host hc).users bs as' v.list);
          total = rw (self hc) (gone z ∙ sym (sum_other s uc w (bs ++ as') out));
          busy = busy_other s uc w (bs ++ as') out one.1;
        })
    | inr e ↦
        let z = few (s.user uc).clones e in
        rw e (record {
          list = rw (self hc) v.list;
          total = rw (self hc) (fewer z ∙ sym (sum-written s uc w bs as' out));
          busy = busy_written s uc w bs as' out z one.1;
        })
  ]
    where
      w : UserClone
      w = record (s.user uc) { clones = (s.user uc).clones - 1 }

      out : NotIn uc (bs ++ as')
      out = Distinct-out uc bs as' v.list.distinct

      one : (0 < clones_of s uc) × All (λ u. 0 < clones_of s u) (bs ++ as')
      one = All-without (λ u. 0 < clones_of s u) bs uc as' v.busy

      split : (s.host hc).clones ≡ (s.user uc).clones + sum (clones_of s) (bs ++ as')
      split = v.total ∙ sum-split (clones_of s) bs uc as'

      gone : (s.user uc).clones - 1 ≡ 0 → (s.host hc).clones - 1 ≡ sum (clones_of s) (bs ++ as')
      gone z = let b : 0 < (s.user uc).clones = one.0 in let e = split in omega arith

      fewer :
          0 < (s.user uc).clones - 1
          → (s.host hc).clones - 1 ≡ ((s.user uc).clones - 1) + sum (clones_of s) (bs ++ as')
      fewer z = let e = split in omega arith

      few : (n : ℕ) → (n - 1 == 0) ≡ false → 0 < n - 1
      few n h = ground arith

-- What is found stands somewhere in the list.
found_in :
    (test : ℕ → Bool) (ys : List ℕ)
    → (first_such test ys == 0) ≡ false
    → (bs : List ℕ) × (as' : List ℕ) × (ys ≡ bs ++ first_such test ys ∷ as')
found_in test [] h = absurd (false≢true (sym h))
found_in test (y ∷ r) h = elim (Bool-cases (test y)) [
  | inl e ↦ rw e ([], r, refl)
  | inr e ↦ let (bs, as', q) = found_in test r (rw e at h) in rw e (y ∷ bs, as', ap (◌∷◌ y) q)
]

-- What the list of user names becomes when a client comes.
abbrev pub users_with : Clones → Bytes → ℕ → List ℕ → List ℕ
users_with s user new ys =
    if first_such (λ n. same_name (s.user n).user user) ys == 0 then ys ++ new ∷ [] else ys

module _ (hc new : ℕ) (s : Clones) (ys : List ℕ) (v : Rep (s.host hc).users ys) where
  made-Users :
      (w : UserClone) (h : HostClone)
      → w.clones ≡ 1
      → h.users ≡ append new (s.host hc).users
      → h.clones ≡ 1 + sum (clones_of s) ys
      → 0 < new
      → NotIn new ys
      → All (λ u. 0 < clones_of s u) ys
      → Users (with_user new w (with_host hc h s)) hc (ys ++ new ∷ [])
  made-Users w h e f g pos out b = record {
    list = rw (self hc, f) (append-Rep new (s.host hc).users ys pos out v);
    total = rw (self hc) (
        g
        ∙ ap (λ z. z + sum (clones_of s) ys) (sym e)
        ∙ ap (λ z. w.clones + sum (clones_of s) z) (sym (append-nil ys))
        ∙ sym (sum-written s new w ys [] out'));
    busy =
        busy_written s new w ys [] out' (omega arith)
          (subst (All (λ u. 0 < clones_of s u)) (sym (append-nil ys)) b);
  }
    where
      out' : NotIn new (ys ++ [])
      out' = subst (NotIn new) (sym (append-nil ys)) out

counted-Users :
    (hc uc : ℕ) (s : Clones) (bs as' : List ℕ)
    → Rep (s.host hc).users (bs ++ uc ∷ as')
    → (s.host hc).clones ≡ 1 + sum (clones_of s) (bs ++ uc ∷ as')
    → All (λ u. 0 < clones_of s u) (bs ++ uc ∷ as')
    → Users
        (with_user uc (record (s.user uc) { clones = (s.user uc).clones + 1 }) s)
        hc
        (bs ++ uc ∷ as')
counted-Users hc uc s bs as' v e b = record {
  list = v;
  total = more ∙ sym (sum-written s uc w bs as' out);
  busy = busy_written s uc w bs as' out (omega arith) one.1;
}
  where
    w : UserClone
    w = record (s.user uc) { clones = (s.user uc).clones + 1 }

    out : NotIn uc (bs ++ as')
    out = Distinct-out uc bs as' v.distinct

    one : (0 < clones_of s uc) × All (λ u. 0 < clones_of s u) (bs ++ as')
    one = All-without (λ u. 0 < clones_of s u) bs uc as' b

    more : (s.host hc).clones ≡ ((s.user uc).clones + 1) + sum (clones_of s) (bs ++ as')
    more = let q = e in let r = sum-split (clones_of s) bs uc as' in omega arith

-- When the host counts one client more than its listed user names together, each of which has
-- one, `add_user_clone` makes the count of the host the sum of theirs again: it counts one
-- more for the first that is the same name, or puts a new record, with one client, behind the
-- others. The new address is not NULL and not in the list, and the fuel is not less than the
-- number of user names.
pub add_user_clone-Users :
    (matches : Bytes → Bytes → Bool) (fuel hc new : ℕ) (user : Bytes) (s : Clones) (ys : List ℕ)
    → 0 < new
    → NotIn new ys
    → length ys ≤ fuel
    → Rep (s.host hc).users ys
    → (s.host hc).clones ≡ 1 + sum (clones_of s) ys
    → All (λ u. 0 < clones_of s u) ys
    → Users (add_user_clone matches fuel hc new user s).1 hc (users_with s user new ys)
unfolding add_user_clone make_user_clone get_user_clone_data
add_user_clone-Users matches fuel hc new user s ys pos out h v e b =
    rw found (elim (Bool-cases (first_such test ys == 0)) [
      | inl q ↦ rw q (made-Users hc new s ys v _ _ refl refl e pos out b)
      | inr q ↦
          let (bs, as', p) = found_in test ys q in
          rw q (
            subst (Users _ hc) (sym p) (
              counted-Users hc (first_such test ys) s bs as' (subst (Rep (s.host hc).users) p v)
                (e ∙ ap (λ z. 1 + sum (clones_of s) z) p)
                (subst (All (λ u. 0 < clones_of s u)) p b)))
    ])
  where
    test : ℕ → Bool
    test n = same_name (s.user n).user user

    found : get_user_clone_data matches fuel hc user s ≡ first_such test ys
    found =
        let d = (s.host hc).users in
        ap (λ z. walk test fuel z d.next) v.first_eq
        ∙ walk-first_such d.next d.prev test fuel 0 ys v.chain v.no_null h

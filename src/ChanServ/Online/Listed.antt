-- ===== src/ChanServ/Online/Listed.antt =====
-- addChan, delChan and getChanData of services/chanserv.c against a list of channels.
use snservices.Base.{
  ℕ, ◌<◌, ◌≤◌, ◌≡◌, refl, sym, ap, ◌∙◌, inl, inr, false, some, List, [], ◌∷◌, ◌++◌, ◌==◌,
  if◌then◌else◌, Bytes, length, length-append, arith, false≢true, Bool-cases, ==_iff,
}
use snservices.Registry.Names.{same_name, key, same_name-key}
use snservices.Registry.Chain.{NotIn}
use snservices.Registry.Refine.{All-split}
use snservices.Registry.Buckets.{RepT, enlist-RepT}
use snservices.Registry.Lookup.{first_such, find-first_such, delist-RepT}
use snservices.Registry.Unique.{
  Unique, Nothing-found, append-Unique, without-Unique, first_such-append, first_such-without,
  first_such-spelling,
}
use snservices.ChanServ.Online.{
  Online, chan_hash, chan_test, chanhashsize, get_chan_data, add_chan, del_chan,
}

abbrev pub chan_name : Online → ℕ → Bytes
chan_name s n = (s.chan n).name

-- The list and the buckets hold these channels, and no two of them have the same name.
pub record IsListed (s : Online) (xs : List ℕ) : Type 0 where
  pub table : RepT (chan_hash s) s.listed xs
  pub unique : Unique (chan_name s) xs

-- What the list becomes by `addChan`.
abbrev pub listed_with : Online → ℕ → List ℕ → List ℕ
listed_with s n xs = if first_such (chan_test s (chan_name s n)) xs == 0 then xs ++ n ∷ [] else xs

module _ (fuel : ℕ) (s : Online) (xs : List ℕ) (v : IsListed s xs) (h : length xs ≤ fuel) where
  -- While a list of channels with different names is kept, and the fuel is not less than its length,
  -- `getChanData` finds the first channel of the list with this name, or NULL.
  pub get_chan_data_lem :
      (name : Bytes) → get_chan_data fuel (some name) s ≡ first_such (chan_test s name) xs
  unfolding get_chan_data
  get_chan_data_lem name =
      find-first_such (chan_hash s) (key chanhashsize name) (chan_test s name) fuel s.listed xs
        (λ x e. same_name-key chanhashsize (chan_name s x) name e) v.table h

  -- While list and hash table hold the same channels, no two of one name, and the fuel is not
  -- less than their number, `addChan` of a channel that is not NULL and not in the list puts it
  -- at the end of both if no channel of its name is there, and else leaves them as they are.
  pub add_chan-IsListed :
      (n : ℕ) → 0 < n → NotIn n xs → IsListed (add_chan fuel n s) (listed_with s n xs)
  unfolding add_chan
  add_chan-IsListed n pos_n out =
      let e = get_chan_data_lem (chan_name s n) in
      elim (Bool-cases (first_such (chan_test s (chan_name s n)) xs == 0)) [
        | inl q ↦
            rw (e, q)
              (record {
                table = enlist-RepT (chan_hash s) n s.listed xs pos_n out v.table;
                unique = append-Unique (chan_name s) n xs v.unique (
                    Nothing-found (chan_test s (chan_name s n)) xs v.table.list.no_null
                      ((==_iff (first_such (chan_test s (chan_name s n)) xs) 0).0 q));
              })
        | inr q ↦ rw (e, q) (record { table = v.table; unique = v.unique })
      ]

module _ (fuel : ℕ) (s : Online) (n : ℕ) (bs as' : List ℕ) (v : IsListed s (bs ++ n ∷ as')) where
  n_no_null : (n == 0) ≡ false
  n_no_null = let z = (All-split (λ x. 0 < x) bs (n ∷ as') v.table.list.no_null).1.0 in ground arith

  -- When list and hash table hold the same channels, no two of one name, and the fuel is not
  -- less than their number, `delChan` takes a channel of the list out of both, and the others
  -- stay in their order.
  pub del_chan-IsListed : length (bs ++ n ∷ as') ≤ fuel → IsListed (del_chan fuel n s) (bs ++ as')
  unfolding del_chan
  del_chan-IsListed h = rw n_no_null (record {
    table = delist-RepT (chan_hash s) fuel n s.listed bs as' v.table h;
    unique = without-Unique (chan_name s) n bs as' v.unique;
  })

  del_chan-chan : (del_chan fuel n s).chan ≡ s.chan
  unfolding del_chan
  del_chan-chan = rw n_no_null refl

  without_length : (ys zs : List ℕ) → length (ys ++ n ∷ zs) ≤ fuel → length (ys ++ zs) ≤ fuel
  without_length ys zs h =
      let e = length-append ys (n ∷ zs) in let f = length-append ys zs in omega arith

  -- When list and hash table hold the same channels, no two of one name, and the fuel is not
  -- less than their number: after `delChan` of a channel of the list no spelling of its name is
  -- found, and every other name is found as before.
  pub get_chan_data-del_chan :
      length (bs ++ n ∷ as') ≤ fuel
      → (name : Bytes)
      → get_chan_data fuel (some name) (del_chan fuel n s)
        ≡ (if same_name (chan_name s n) name then 0 else get_chan_data fuel (some name) s)
  get_chan_data-del_chan h name =
      get_chan_data_lem fuel (del_chan fuel n s) (bs ++ as') (del_chan-IsListed h)
        (without_length bs as' h) name
      ∙ ap (λ f. first_such (λ x. same_name ((f x).name) name) (bs ++ as')) del_chan-chan
      ∙ first_such-without (chan_name s) n name bs as' v.unique
      ∙ ap (λ z. if same_name (chan_name s n) name then 0 else z)
          (sym (get_chan_data_lem fuel s (bs ++ n ∷ as') v h name))

module _ (fuel : ℕ) (s : Online) (n : ℕ) (xs : List ℕ) (v : IsListed s xs) (pos_n : 0 < n)
    (out : NotIn n xs) where
  add_chan-chan : (add_chan fuel n s).chan ≡ s.chan
  unfolding add_chan
  add_chan-chan = elim (Bool-cases (get_chan_data fuel (some (chan_name s n)) s == 0)) [
    | inl e ↦ rw e refl
    | inr e ↦ rw e refl
  ]

  longer : length xs < fuel → length (listed_with s n xs) ≤ fuel
  longer h = elim (Bool-cases (first_such (chan_test s (chan_name s n)) xs == 0)) [
    | inl e ↦ let l = length-append xs (n ∷ []) in rw e (omega arith)
    | inr e ↦ rw e (omega arith)
  ]

  found_then :
      (name : Bytes)
      → first_such (chan_test s name) (listed_with s n xs) ≡ (
          if first_such (chan_test s name) xs == 0
          then (if same_name (chan_name s n) name then n else 0)
          else first_such (chan_test s name) xs)
  found_then name = elim (Bool-cases (first_such (chan_test s (chan_name s n)) xs == 0)) [
    | inl e ↦ rw e (first_such-append (chan_test s name) xs (n ∷ []) v.table.list.no_null)
    | inr e ↦ rw e (elim (Bool-cases (first_such (chan_test s name) xs == 0)) [
      | inr q ↦ rw q refl
      | inl q ↦ elim (Bool-cases (same_name (chan_name s n) name)) [
        | inl k ↦ absurd (
            false≢true (
              sym e
              ∙ ap (λ z. z == 0) (first_such-spelling (chan_name s) (chan_name s n) name xs k)
              ∙ q))
        | inr k ↦ rw (q, k) ((==_iff (first_such (chan_test s name) xs) 0).0 q)
      ]
    ])
  ]

  -- When list and hash table hold the same channels, no two of one name, and the fuel is greater
  -- than their number: after `addChan` of a channel that is not NULL and not in the list, every
  -- name that was found before is found as before, and of the other names those that spell the
  -- name of the new channel find it.
  pub get_chan_data-add_chan :
      length xs < fuel
      → (name : Bytes)
      → get_chan_data fuel (some name) (add_chan fuel n s) ≡ (
          if get_chan_data fuel (some name) s == 0
          then (if same_name (chan_name s n) name then n else 0)
          else get_chan_data fuel (some name) s)
  get_chan_data-add_chan h name =
      get_chan_data_lem fuel (add_chan fuel n s) (listed_with s n xs)
        (add_chan-IsListed fuel s xs v (omega arith) n pos_n out) (longer h) name
      ∙ ap (λ f. first_such (λ x. same_name ((f x).name) name) (listed_with s n xs)) add_chan-chan
      ∙ found_then name
      ∙ ap (λ z. if z == 0 then (if same_name (chan_name s n) name then n else 0) else z)
          (sym (get_chan_data_lem fuel s xs v (omega arith) name))

-- ===== src/ChanServ/Register/Listing.antt =====
-- addRegChan, delRegChan and getRegChanData of services/chanserv.c against a list of channels.
use snservices.Base.{
  ℕ, ◌<◌, ◌≤◌, ◌≡◌, inl, inr, Option, none, some, List, [], ◌∷◌, ◌++◌, ◌==◌, if◌then◌else◌, Bytes,
  length, Bool-cases, ==_iff,
}
use snservices.Registry.Names.{key, same_name-key}
use snservices.Registry.Chain.{NotIn}
use snservices.Registry.Refine.{All-split, pos_test}
use snservices.Registry.Buckets.{RepT, enlist-RepT}
use snservices.Registry.Lookup.{first_such, find-first_such, delist-RepT}
use snservices.Registry.Unique.{Unique, Nothing-found, append-Unique, without-Unique}
use snservices.NickServ.{IdMap, get_id_map}
use snservices.ChanServ.Online.{chanhashsize}
use snservices.ChanServ.Register.{
  Register, RegChan, reg_chan_hash, reg_chan_test, free_text, free_reg_chan, leave_founder,
  get_reg_chan_data, add_reg_chan, del_reg_chan,
}

abbrev pub reg_name : Register → ℕ → Bytes
reg_name s n = (s.reg_chan n).name

-- The list and the buckets hold these channels, and no two of them have the same name.
pub record IsRegistered (s : Register) (xs : List ℕ) : Type 0 where
  pub table : RepT (reg_chan_hash s) s.listed xs
  pub unique : Unique (reg_name s) xs

-- What the list becomes by `addRegChan`.
abbrev pub registered_with : Register → ℕ → List ℕ → List ℕ
registered_with s n xs =
    if first_such (reg_chan_test s (reg_name s n)) xs == 0 then xs ++ n ∷ [] else xs

-- Freeing changes neither the list nor the channels.
free_text-IsRegistered :
    (p : ℕ) (s : Register) (xs : List ℕ) → IsRegistered s xs → IsRegistered (free_text p s) xs
free_text-IsRegistered p s xs v = elim (Bool-cases (p == 0)) [
  | inl e ↦ rw e v
  | inr e ↦ rw e (record { table = v.table; unique = v.unique })
]

free_reg_chan-IsRegistered :
    (n : ℕ) (s : Register) (xs : List ℕ) → IsRegistered s xs → IsRegistered (free_reg_chan n s) xs
unfolding free_reg_chan
free_reg_chan-IsRegistered n s xs v = record { table = w.table; unique = w.unique }
  where
    r : RegChan
    r = s.reg_chan n

    w :
        IsRegistered
          (free_text r.markby (free_text r.autogreet (free_text r.url (free_text r.id.nick s))))
          xs
    w = free_text-IsRegistered r.markby _ xs (
        free_text-IsRegistered r.autogreet _ xs
          (free_text-IsRegistered r.url _ xs (free_text-IsRegistered r.id.nick s xs v)))

leave_founder-IsRegistered :
    (o : Option IdMap) (s : Register) (xs : List ℕ)
    → IsRegistered s xs
    → IsRegistered (leave_founder o s) xs
unfolding leave_founder
leave_founder-IsRegistered none s xs v = v
leave_founder-IsRegistered (some m) s xs v = elim (Bool-cases (m.nick == 0)) [
  | inl e ↦ rw e v
  | inr e ↦ rw e (record { table = v.table; unique = v.unique })
]

module _ (fuel : ℕ) (s : Register) (xs : List ℕ) (v : IsRegistered s xs)
    (h : length xs ≤ fuel) where
  -- While a list of registered channels with different names is kept, and the fuel is not less than its length,
  -- `getRegChanData` finds the first channel of the list with this name, or NULL.
  pub get_reg_chan_data_lem :
      (name : Bytes) → get_reg_chan_data fuel (some name) s ≡ first_such (reg_chan_test s name) xs
  unfolding get_reg_chan_data
  get_reg_chan_data_lem name =
      find-first_such (reg_chan_hash s) (key chanhashsize name) (reg_chan_test s name) fuel s.listed
        xs (λ x e. same_name-key chanhashsize (reg_name s x) name e) v.table h

  -- `addRegChan` of a channel that is not in the list puts it at the end of the list if no channel of its name is
  -- there, and else leaves the list as it is.
  pub add_reg_chan-IsRegistered :
      (n : ℕ) → 0 < n → NotIn n xs → IsRegistered (add_reg_chan fuel n s) (registered_with s n xs)
  unfolding add_reg_chan
  add_reg_chan-IsRegistered n pos_n out =
      let e = get_reg_chan_data_lem (reg_name s n) in
      elim (Bool-cases (first_such (reg_chan_test s (reg_name s n)) xs == 0)) [
        | inl q ↦
            rw (e, q)
              (record {
                table = enlist-RepT (reg_chan_hash s) n s.listed xs pos_n out v.table;
                unique = append-Unique (reg_name s) n xs v.unique (
                    Nothing-found (reg_chan_test s (reg_name s n)) xs v.table.list.no_null
                      ((==_iff (first_such (reg_chan_test s (reg_name s n)) xs) 0).0 q));
              })
        | inr q ↦ rw (e, q) (free_reg_chan-IsRegistered n s xs v)
      ]

-- When list and hash table hold the same registered channels, no two of one name, and the fuel
-- is not less than their number, `delRegChan` takes a channel of the list out of both, and the
-- others stay in their order.
pub del_reg_chan-IsRegistered :
    (fuel n : ℕ) (s : Register) (bs as' : List ℕ)
    → IsRegistered s (bs ++ n ∷ as')
    → length (bs ++ n ∷ as') ≤ fuel
    → IsRegistered (del_reg_chan fuel n s) (bs ++ as')
unfolding del_reg_chan
del_reg_chan-IsRegistered fuel n s bs as' v h =
    rw (pos_test n (All-split (λ x. 0 < x) bs (n ∷ as') v.table.list.no_null).1.0) (
      free_reg_chan-IsRegistered n _ (bs ++ as') (
        leave_founder-IsRegistered (get_id_map (s.reg_chan n).founder_id s.nicks) _ (bs ++ as')
          (record {
            table = delist-RepT (reg_chan_hash s) fuel n s.listed bs as' v.table h;
            unique = without-Unique (reg_name s) n bs as' v.unique;
          })))

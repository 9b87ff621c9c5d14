-- ===== src/ChanServ/Register/Akicks.antt =====
-- addChanAkick, delChanAkick and getChanAkick of services/chanserv.c against a list of autokicks.
use snservices.Base.{
  ℕ, ◌<◌, ◌≤◌, ◌%◌, ◌^◌, ◌≡◌, refl, true, some, List, [], ◌∷◌, ◌++◌, ◌==◌, Bytes, length,
  length-append, arith, ==_iff,
}
use snservices.Registry.{append, remove}
use snservices.Registry.Names.{same_name}
use snservices.Registry.Chain.{NotIn}
use snservices.Registry.Refine.{Rep, append-Rep, pos_test}
use snservices.Registry.Remove.{remove-Rep}
use snservices.Registry.Lookup.{first_such, walk-first_such}
use snservices.ChanServ.Register.{
  Register, index_akick_items, add_chan_akick, del_chan_akick, get_chan_akick,
}
use snservices.ChanServ.Register.Numbers.{Numbered, renumber-Numbered, incr-length, decr-length}

-- The autokicks of a channel: the list, its length (in 32 bits), and the numbers from 1.
pub record Akicks (s : Register) (c : ℕ) (xs : List ℕ) : Type 0 where
  pub list : Rep (s.reg_chan c).akick xs
  pub count : (s.reg_chan c).akicks ≡ length xs % 2 ^ 32
  pub numbers : Numbered s.akick_index 1 xs

self : (c : ℕ) → (c == c) ≡ true
self c = (==_iff c c).1 refl

-- `addChanAkick` of an item that is not in the list puts it behind the others, counts it, and numbers all anew; the
-- fuel is greater than the number of autokicks.
pub add_chan_akick-Akicks :
    (fuel c n : ℕ) (s : Register) (xs : List ℕ)
    → 0 < n
    → NotIn n xs
    → length xs < fuel
    → Akicks s c xs
    → Akicks (add_chan_akick fuel c n s) c (xs ++ n ∷ [])
unfolding add_chan_akick index_akick_items
add_chan_akick-Akicks fuel c n s xs pos_n out h v =
    let l = length-append xs (n ∷ []) in
    let w = append-Rep n (s.reg_chan c).akick xs pos_n out v.list in
    record {
      list = rw (self c) w;
      count = rw (self c) (incr-length n (s.reg_chan c).akicks xs v.count);
      numbers =
          rw (self c) (
            renumber-Numbered fuel (append n (s.reg_chan c).akick) s.akick_index _ w (omega arith));
    }

-- While the autokicks of a channel are listed, counted in 32 bits and numbered from 1,
-- `delChanAkick` takes one of them out of the list, the others stay in their order, and count
-- and numbers are right again; the fuel is not less than their number before.
pub del_chan_akick-Akicks :
    (fuel c n : ℕ) (s : Register) (bs as' : List ℕ)
    → length (bs ++ n ∷ as') ≤ fuel
    → Akicks s c (bs ++ n ∷ as')
    → Akicks (del_chan_akick fuel c n s) c (bs ++ as')
unfolding del_chan_akick index_akick_items
del_chan_akick-Akicks fuel c n s bs as' h v =
    let l = length-append bs (n ∷ as') in
    let m = length-append bs as' in
    let w = remove-Rep n (s.reg_chan c).akick bs as' v.list in
    record {
      list = rw (self c) w;
      count = rw (self c) (decr-length n (s.reg_chan c).akicks bs as' v.count);
      numbers =
          rw (self c) (
            renumber-Numbered fuel (remove n (s.reg_chan c).akick) s.akick_index _ w (omega arith));
    }

-- While the autokicks of a channel, which is not NULL, are kept, and the fuel is not less than their number,
-- `getChanAkick` finds the first with this mask, or NULL.
pub get_chan_akick_lem :
    (fuel c : ℕ) (s : Register) (xs : List ℕ) (akick : Bytes)
    → 0 < c
    → Akicks s c xs
    → length xs ≤ fuel
    → get_chan_akick fuel c (some akick) s ≡ first_such (λ n. same_name akick (s.mask n)) xs
unfolding get_chan_akick
get_chan_akick_lem fuel c s xs akick pos_c v h =
    let d = (s.reg_chan c).akick in
    rw (pos_test c pos_c, v.list.first_eq)
      (walk-first_such d.next d.prev (λ n. same_name akick (s.mask n)) fuel 0 xs v.list.chain
        v.list.no_null h)

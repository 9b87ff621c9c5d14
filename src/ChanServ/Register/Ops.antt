-- ===== src/ChanServ/Register/Ops.antt =====
-- addChanOp, delChanOp and getChanOpData of services/chanserv.c against a list of operators.
use snservices.Base.{
  ℕ, ◌<◌, ◌≤◌, ◌%◌, ◌^◌, ◌≡◌, refl, ap, true, some, List, [], ◌∷◌, ◌++◌, ◌==◌, if◌then◌else◌, Bytes,
  length, length-append, arith, ==_iff,
}
use snservices.Registry.Chain.{NotIn}
use snservices.Registry.Refine.{pos_test}
use snservices.Registry.Table.{enlist, delist}
use snservices.Registry.Buckets.{RepT, enlist-RepT}
use snservices.Registry.Lookup.{first_such, find-first_such, delist-RepT}
use snservices.NickServ.{id_equal, id_key, get_reg_nick_data}
use snservices.NickServ.Ids.{id_equal-same}
use snservices.ChanServ.Register.{
  Register, op_hash, ophashsize, index_op_items, add_chan_op, del_chan_op, get_chan_op_data,
}
use snservices.ChanServ.Register.Numbers.{Numbered, renumber-Numbered, incr-length, decr-length}

-- The operators of a channel: list and table, their number (in 32 bits), and the numbers from 1.
pub record Ops (s : Register) (c : ℕ) (xs : List ℕ) : Type 0 where
  pub table : RepT (op_hash s) (s.reg_chan c).op xs
  pub count : (s.reg_chan c).ops ≡ length xs % 2 ^ 32
  pub numbers : Numbered s.op_index 1 xs

self : (c : ℕ) → (c == c) ≡ true
self c = (==_iff c c).1 refl

-- `addChanOp` of an item that is not in the list of a channel, neither being NULL, puts it behind the others, counts it, and
-- numbers all anew; the fuel is greater than the number of operators.
pub add_chan_op-Ops :
    (fuel c n : ℕ) (s : Register) (xs : List ℕ)
    → 0 < c
    → 0 < n
    → NotIn n xs
    → length xs < fuel
    → Ops s c xs
    → Ops (add_chan_op fuel c n s) c (xs ++ n ∷ [])
unfolding add_chan_op index_op_items
add_chan_op-Ops fuel c n s xs pos_c pos_n out h v =
    let l = length-append xs (n ∷ []) in
    let w = enlist-RepT (op_hash s) n (s.reg_chan c).op xs pos_n out v.table in
    rw (pos_test c pos_c, pos_test n pos_n)
      (record {
        table = rw (self c) w;
        count = rw (self c) (incr-length n (s.reg_chan c).ops xs v.count);
        numbers = rw (self c) (
            renumber-Numbered fuel (enlist (op_hash s) n (s.reg_chan c).op).main s.op_index _ w.list
              (omega arith));
      })

-- While the operators of a channel are listed, in the table, counted in 32 bits and numbered
-- from 1, `delChanOp` takes one of them out of list and table, the others stay in their order,
-- and count and numbers are right again; the fuel is not less than their number before.
pub del_chan_op-Ops :
    (fuel c n : ℕ) (s : Register) (bs as' : List ℕ)
    → length (bs ++ n ∷ as') ≤ fuel
    → Ops s c (bs ++ n ∷ as')
    → Ops (del_chan_op fuel c n s) c (bs ++ as')
unfolding del_chan_op index_op_items
del_chan_op-Ops fuel c n s bs as' h v =
    let l = length-append bs (n ∷ as') in
    let m = length-append bs as' in
    let w = delist-RepT (op_hash s) fuel n (s.reg_chan c).op bs as' v.table h in
    record {
      table = rw (self c) w;
      count = rw (self c) (decr-length n (s.reg_chan c).ops bs as' v.count);
      numbers = rw (self c) (
          renumber-Numbered fuel (delist (op_hash s) fuel n (s.reg_chan c).op).main s.op_index _
            w.list (omega arith));
    }

-- While the operators of a channel, which is not NULL, are listed, in the table, counted and
-- numbered, and the fuel is not less than their number, `getChanOpData` finds the first
-- operator of the list with the number of the registered nickname, and NULL if there is none
-- or the nickname is not registered.
pub get_chan_op_data_lem :
    (fuel c : ℕ) (s : Register) (xs : List ℕ) (nick : Bytes)
    → 0 < c
    → Ops s c xs
    → length xs ≤ fuel
    → get_chan_op_data fuel c (some nick) s ≡ (
        if get_reg_nick_data (some nick) s.nicks == 0
        then 0
        else first_such
            (λ n.
              id_equal
                (s.access n).nick_id
                (s.nicks.reg_nick (get_reg_nick_data (some nick) s.nicks)).regnum)
            xs)
unfolding get_chan_op_data
get_chan_op_data_lem fuel c s xs nick pos_c v h =
    let i = (s.nicks.reg_nick (get_reg_nick_data (some nick) s.nicks)).regnum in
    rw (pos_test c pos_c) (
      ap (λ z. if get_reg_nick_data (some nick) s.nicks == 0 then 0 else z)
        (find-first_such (op_hash s) (id_key i % ophashsize) (λ n. id_equal (s.access n).nick_id i)
          fuel (s.reg_chan c).op xs
          (λ n e. ap (λ z. id_key z % ophashsize) (id_equal-same (s.access n).nick_id i e)) v.table
          h))

-- ===== src/ChanServ/Register/Examples.antt =====
-- Tests of the registered channels, and the theorems at concrete inputs.
use snservices.Base.{ℕ, ◌≡◌, refl, true, false, none, some, [], ◌∷◌, arith}
use snservices.Registry.{Dll}
use snservices.Registry.Names.{same_name}
use snservices.Registry.Refine.{Rep}
use snservices.Registry.Table.{Table}
use snservices.Registry.Buckets.{RepT}
use snservices.NickServ.{Nicks, RegId, get_reg_nick_data}
use snservices.ChanServ.Register.{
  Register, add_reg_chan, del_reg_chan, add_chan_akick, del_chan_akick, add_chan_op, del_chan_op,
  get_chan_op_data,
}
use snservices.ChanServ.Register.Listing.{
  IsRegistered, add_reg_chan-IsRegistered, del_reg_chan-IsRegistered,
}
use snservices.ChanServ.Register.Akicks.{Akicks, add_chan_akick-Akicks, del_chan_akick-Akicks}
use snservices.ChanServ.Register.Ops.{Ops, add_chan_op-Ops, del_chan_op-Ops, get_chan_op_data_lem}
use snservices.ChanServ.Register.Rights.{Checks, level, get_misc_chan_op}
use snservices.ChanServ.Register.Rights.Ident.{AtMost, get_misc_chan_op-AtMost}

abbrev no_list : Dll
no_list = record { first = 0; last = 0; next = λ k. 0; prev = λ k. 0 }

abbrev no_table : Table
no_table = record {
  main = no_list;
  heads = λ k. 0;
  tails = λ k. 0;
  hashnext = λ k. 0;
  hashprev = λ k. 0;
}

no_list-Rep : Rep no_list []
no_list-Rep = record { first_eq = refl; last_eq = refl; chain = tt; distinct = tt; no_null = tt }

no_table-RepT : (hash : ℕ → ℕ) → RepT hash no_table []
no_table-RepT hash = record { list = no_list-Rep; buckets = λ k. no_list-Rep }

abbrev zero_id : RegId
zero_id = record { a = 0; b = 0 }

-- User 1 is online as "A", and nickname 1 is registered as "A".
abbrev nicks : Nicks
nicks = record {
  user = λ n. record {
    nick = 65 ∷ [];
    user = [];
    host = [];
    chan = [];
    reg = 1;
    id_nick = none;
    idnum = zero_id;
    timestamp = 0;
  };
  reg_nick = λ n. record { nick = 65 ∷ []; regnum = record { a = n; b = 0 }; chans = 0 };
  user_hash = λ k. 1 ∷ [];
  reg_nick_hash = λ k. 1 ∷ [];
  id_hash = λ k. [];
  totalusers = 1;
}

-- The channel at address n has the name of the one letter n.
abbrev blank : Register
blank = record {
  listed = no_table;
  reg_chan = λ n. record {
    name = n ∷ [];
    founder_id = zero_id;
    facc = 0;
    flags = 0;
    id = record { nick = 0; idnum = zero_id; timestamp = 0 };
    url = 0;
    autogreet = 0;
    markby = 0;
    ops = 0;
    akicks = 0;
    op = no_table;
    akick = no_list;
  };
  mask = λ n. [];
  akick_index = λ n. 0;
  access = λ n. record { nick_id = record { a = 1; b = 0 }; uflags = n };
  op_index = λ n. 0;
  nicks = nicks;
  text = λ p. [];
  freed = [];
}

-- Channel "C" is registered.
abbrev one : Register
one = add_reg_chan 5 67 blank

one-IsRegistered : IsRegistered one (67 ∷ [])
one-IsRegistered =
    add_reg_chan-IsRegistered 5 blank [] (record { table = no_table-RepT _; unique = tt })
      (omega arith) 67 (omega arith) tt

del_reg_chan-IsRegistered_example : IsRegistered (del_reg_chan 5 67 one) []
del_reg_chan-IsRegistered_example =
    del_reg_chan-IsRegistered 5 67 one [] [] one-IsRegistered (omega arith)

-- Two autokicks, the first of which is deleted: the second is then number 1.
abbrev kicking : Register
kicking = add_chan_akick 5 67 4 (add_chan_akick 5 67 3 blank)

kicking-Akicks : Akicks kicking 67 (3 ∷ 4 ∷ [])
kicking-Akicks =
    add_chan_akick-Akicks 5 67 4 (add_chan_akick 5 67 3 blank) (3 ∷ []) (omega arith) (refl, tt)
      (omega arith)
      (add_chan_akick-Akicks 5 67 3 blank [] (omega arith) tt (omega arith)
        (record { list = no_list-Rep; count = refl; numbers = tt }))

del_chan_akick-Akicks_example : Akicks (del_chan_akick 5 67 3 kicking) 67 (4 ∷ [])
del_chan_akick-Akicks_example =
    del_chan_akick-Akicks 5 67 3 kicking [] (4 ∷ []) (omega arith) kicking-Akicks

-- An operator of level 10, whose nickname has the number (1, 0).
abbrev opped : Register
opped = add_chan_op 5 67 10 blank

opped-Ops : Ops opped 67 (10 ∷ [])
opped-Ops =
    add_chan_op-Ops 5 67 10 blank [] (omega arith) (omega arith) tt (omega arith)
      (record { table = no_table-RepT _; count = refl; numbers = tt })

del_chan_op-Ops_test : Ops (del_chan_op 5 67 10 opped) 67 []
del_chan_op-Ops_test = del_chan_op-Ops 5 67 10 opped [] [] (omega arith) opped-Ops

get_chan_op_data_lem_test : get_chan_op_data 5 67 (some (97 ∷ [])) opped ≡ 10
unfolding add_chan_op get_reg_nick_data same_name
get_chan_op_data_lem_test =
    get_chan_op_data_lem 5 67 opped (10 ∷ []) (97 ∷ []) (omega arith) opped-Ops (omega arith)

-- Recognized, with mode +R, but identified to nothing.
abbrev checks : Checks
checks = record {
  is_oper = λ u. false;
  is_identified = λ u r. false;
  is_recognized = λ u r. true;
  has_valid_mode_r = λ u. true;
  overrides = λ u. false;
  check_access = λ user host r. false;
  matches = λ mask text. false;
  gen_host_mask = λ host. host;
  get_nick = λ i. some (65 ∷ []);
}

get_misc_chan_op-AtMost_example :
    AtMost
      (get_misc_chan_op checks 5 67 (some (65 ∷ [])) true opped).result
      (get_misc_chan_op checks 5 67 (some (65 ∷ [])) false opped).result
get_misc_chan_op-AtMost_example =
    get_misc_chan_op-AtMost checks 5 (λ u r e. refl) 67 (some (65 ∷ [])) opped

-- With the demand for identification mode +R gives at most level 5.
with_demand : (get_misc_chan_op checks 5 67 (some (65 ∷ [])) true opped).result ≡ level 5
unfolding get_misc_chan_op add_chan_op same_name get_reg_nick_data
with_demand = refl

without_demand : (get_misc_chan_op checks 5 67 (some (65 ∷ [])) false opped).result ≡ level 10
unfolding get_misc_chan_op add_chan_op same_name get_reg_nick_data
without_demand = refl

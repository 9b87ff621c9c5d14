-- ===== src/ChanServ/Examples.antt =====
-- Tests of the records of the channel services, and the theorems at concrete inputs.
use snservices.Base.{ℕ, ◌≡◌, refl, true, none, some, [], ◌∷◌, ◌==◌, if◌then◌else◌, arith}
use snservices.Registry.{Dll}
use snservices.Registry.Names.{same_name, get_hash_key}
use snservices.Registry.Refine.{Rep}
use snservices.Registry.Table.{Table}
use snservices.Registry.Buckets.{RepT}
use snservices.ChanServ.Online.{
  Online, ban_cell, get_chan_data, add_chan, del_chan, add_chan_user, del_chan_user, add_chan_ban,
  del_chan_ban,
}
use snservices.ChanServ.Online.Listed.{
  IsListed, add_chan-IsListed, del_chan-IsListed, get_chan_data-add_chan, get_chan_data-del_chan,
}
use snservices.ChanServ.Online.Members.{
  Members, add_chan_user-Members, add_chan_user-IsListed, del_chan_user-Members,
}
use snservices.ChanServ.Online.Bans.{
  Bans, add_chan_ban-Bans, del_chan_ban-Bans, del_chan_ban_unlinked,
}

abbrev no_list : Dll
no_list = record { first = 0; last = 0; next = λ k. 0; prev = λ k. 0 }

abbrev no_table : Table
no_table = record {
  main = no_list;
  heads = λ k. 0;
  tails = λ k. 0;
  hashnext = λ k. 0;
  hashprev = λ k. 0;
}

no_list-Rep : Rep no_list []
no_list-Rep = record { first_eq = refl; last_eq = refl; chain = tt; distinct = tt; no_null = tt }

no_table-RepT : (hash : ℕ → ℕ) → RepT hash no_table []
no_table-RepT hash = record { list = no_list-Rep; buckets = λ k. no_list-Rep }

-- The channel at address n has the name of the one letter n.
abbrev blank : Online
blank = record {
  listed = no_table;
  chan = λ n. record { name = n ∷ []; bans = no_list; users = no_table };
  user = λ n. record {
    nick = n ∷ [];
    user = [];
    host = [];
    chan = 65 ∷ [];
    reg = 0;
    id_nick = none;
    idnum = record { a = 0; b = 0 };
    timestamp = 0;
  };
  person = λ n. n;
  ban = λ n. n ∷ [];
  freed = [];
}

blank-IsListed : IsListed blank []
blank-IsListed = record { table = no_table-RepT _; unique = tt }

-- Channel "A".
abbrev one : Online
one = add_chan 5 65 blank

one-IsListed : IsListed one (65 ∷ [])
one-IsListed = add_chan-IsListed 5 blank [] blank-IsListed (omega arith) 65 (omega arith) tt

-- "a" is the name of channel "A" already.
add_chan-IsListed_example : IsListed (add_chan 5 97 one) (65 ∷ [])
unfolding add_chan same_name
add_chan-IsListed_example =
    add_chan-IsListed 5 one (65 ∷ []) one-IsListed (omega arith) 97 (omega arith) (refl, tt)

-- Channels "A" and "B".
abbrev two : Online
two = add_chan 5 66 one

two-IsListed : IsListed two (65 ∷ 66 ∷ [])
unfolding add_chan same_name
two-IsListed =
    add_chan-IsListed 5 one (65 ∷ []) one-IsListed (omega arith) 66 (omega arith) (refl, tt)

del_chan-IsListed_example : IsListed (del_chan 5 65 two) (66 ∷ [])
del_chan-IsListed_example = del_chan-IsListed 5 two 65 [] (66 ∷ []) two-IsListed (omega arith)

get_chan_data-add_chan_example : get_chan_data 5 (some (98 ∷ [])) two ≡ (
    if get_chan_data 5 (some (98 ∷ [])) one == 0
    then (if same_name (66 ∷ []) (98 ∷ []) then 66 else 0)
    else get_chan_data 5 (some (98 ∷ [])) one)
unfolding add_chan
get_chan_data-add_chan_example =
    get_chan_data-add_chan 5 one 66 (65 ∷ []) one-IsListed (omega arith) (refl, tt) (omega arith)
      (98 ∷ [])

get_chan_data-del_chan_test : get_chan_data 5 (some (97 ∷ [])) (del_chan 5 65 two) ≡ 0
unfolding add_chan same_name get_hash_key
get_chan_data-del_chan_test =
    get_chan_data-del_chan 5 two 65 [] (66 ∷ []) two-IsListed (omega arith) (97 ∷ [])

-- User 7 is the only member of channel "A".
abbrev joined : Online
joined = add_chan_user 65 7 two

joined-Members : Members joined 65 (7 ∷ [])
unfolding add_chan get_hash_key
joined-Members = add_chan_user-Members 65 7 two [] (omega arith) tt (no_table-RepT _)

joined-IsListed : IsListed joined (65 ∷ 66 ∷ [])
joined-IsListed = add_chan_user-IsListed 65 7 two (65 ∷ 66 ∷ []) two-IsListed

del_chan_user-Members_example :
    Members (del_chan_user 5 65 7 true joined) 65 []
    × IsListed (del_chan_user 5 65 7 true joined) (66 ∷ [])
del_chan_user-Members_example =
    del_chan_user-Members 5 65 7 true joined [] [] [] (66 ∷ []) joined-Members joined-IsListed
      (omega arith) (omega arith)

-- Two bans on channel "A".
abbrev banned : Online
banned = add_chan_ban 65 4 (add_chan_ban 65 3 blank)

banned-Bans : Bans banned 65 (3 ∷ 4 ∷ [])
banned-Bans =
    add_chan_ban-Bans 65 4 (add_chan_ban 65 3 blank) (3 ∷ []) (omega arith) (refl, tt)
      (add_chan_ban-Bans 65 3 blank [] (omega arith) tt no_list-Rep)

del_chan_ban-Bans_test :
    (s' : Online) × (del_chan_ban 65 3 banned ≡ some s')
    × Bans s' 65 (4 ∷ [])
    × (s'.freed ≡ ban_cell 3 ∷ banned.freed)
    × ((s'.chan 65).bans.next 3 ≡ 0)
    × ((s'.chan 65).bans.prev 3 ≡ 0)
del_chan_ban-Bans_test = del_chan_ban-Bans 65 3 banned [] (4 ∷ []) banned-Bans

del_chan_ban_unlinked_test : del_chan_ban 65 9 banned ≡ none
unfolding add_chan_ban
del_chan_ban_unlinked_test =
    del_chan_ban_unlinked 65 9 banned (3 ∷ 4 ∷ []) (omega arith) (refl, (refl, tt)) banned-Bans refl
      refl

-- ===== src/NickServ/Examples.antt =====
-- Tests of the tables of nicknames, and the theorems at concrete inputs.
use snservices.Base.{◌≡◌, refl, true, ◌%◌, none, some, [], ◌∷◌}
use snservices.Registry.{set}
use snservices.Registry.Names.{key, same_name}
use snservices.NickServ.{
  Nicks, nickhashsize, id_greater, id_key, idhashsize, get_nick_data, add_nick, get_id_map,
  add_reg_nick,
}
use snservices.NickServ.Ids.{get_id_map-add_reg_nick}
use snservices.NickServ.Users.{get_nick_data-add_nick}

abbrev blank : Nicks
blank = record {
  user = λ x. record {
    nick = 97 ∷ 66 ∷ [];
    user = [];
    host = [];
    chan = [];
    reg = 0;
    id_nick = none;
    idnum = record { a = 0; b = 0 };
    timestamp = 0;
  };
  reg_nick = λ x. record { nick = 97 ∷ 66 ∷ []; regnum = record { a = x; b = 3 }; chans = 0 };
  user_hash = λ k. [];
  reg_nick_hash = λ k. [];
  id_hash = λ k. [];
  totalusers = 0;
}

-- The nickname at address 5 is registered.
abbrev registered : Nicks
registered = record blank {
  reg_nick_hash = set blank.reg_nick_hash (key nickhashsize (97 ∷ 66 ∷ [])) (5 ∷ []);
  id_hash =
      set blank.id_hash (id_key (record { a = 5; b = 3 }) % idhashsize)
        (record { id = record { a = 5; b = 3 }; nick = 5 } ∷ []);
}

registered_done : add_reg_nick 5 blank ≡ some registered
unfolding add_reg_nick
registered_done = refl

blank_free : get_id_map (record { a = 5; b = 3 }) blank ≡ none
unfolding get_id_map
blank_free = refl

-- A number whose `a` is above its `b` counts as greater than itself.
greater_itself : id_greater (record { a = 5; b = 3 }) (record { a = 5; b = 3 }) ≡ true
unfolding id_greater
greater_itself = refl

get_id_map-add_reg_nick_example :
    get_id_map (record { a = 5; b = 3 }) registered
    ≡ some (record { id = record { a = 5; b = 3 }; nick = 5 })
get_id_map-add_reg_nick_example =
    get_id_map-add_reg_nick 5 blank registered registered_done blank_free (record { a = 5; b = 3 })

found_test : get_nick_data (65 ∷ 98 ∷ []) (add_nick 2 blank) ≡ 2
unfolding add_nick same_name
found_test = get_nick_data-add_nick 2 blank (65 ∷ 98 ∷ [])

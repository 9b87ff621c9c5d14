-- ===== src/Clone/Examples.antt =====
-- Tests of clone detection, and the theorems at concrete inputs.
use snservices.Base.{◌≡◌, refl, false, none, some, [], ◌∷◌, Bytes, arith, Bool}
use snservices.Registry.{Dll}
use snservices.Registry.Names.{same_name, get_hash_key}
use snservices.Registry.Refine.{Rep}
use snservices.Clone.{Clones, is_there, add_crule, remove_crule}
use snservices.Clone.Hosts.{
  init_clone_data, new_alert, update_clone_alerts, add_user_clone, count_off,
}
use snservices.Clone.Signon.{add_clone}
use snservices.Clone.Counts.{Users, count_off-Users, add_user_clone-Users}
use snservices.Clone.Lists.{remove_crule-add_crule, update_clone_alerts_again}

abbrev no_list : Dll
no_list = record { first = 0; last = 0; next = λ k. 0; prev = λ k. 0 }

no_list-Rep : Rep no_list []
no_list-Rep = record { first_eq = refl; last_eq = refl; chain = tt; distinct = tt; no_null = tt }

abbrev no_match : Bytes → Bytes → Bool
no_match mask text = false

-- Nobody is online, and rules 1 and 2 are there.
abbrev blank : Clones
blank = record {
  listed = record {
    main = no_list;
    heads = λ k. 0;
    tails = λ k. 0;
    hashnext = λ k. 0;
    hashprev = λ k. 0;
  };
  host = λ n. record init_clone_data { host = 104 ∷ []; clones = 1 };
  user = λ n. record { user = []; clones = 0; trigger = 0; uflags = 0 };
  rules = 1 ∷ 2 ∷ [];
  rule = λ n. record {
    mask = 42 ∷ [];
    trigger = 0;
    utrigger = 0;
    flags = 0;
    kill_msg = none;
    warn_msg = none;
  };
  alerts = 6 ∷ [];
  alert = λ n. new_alert 7 100;
  now = 2000;
  sent = [];
  freed = [];
}

-- User "u" is the first client of host 7.
add_user_clone-Users_example : Users (add_user_clone no_match 5 7 3 (117 ∷ []) blank).1 7 (3 ∷ [])
add_user_clone-Users_example =
    add_user_clone-Users no_match 5 7 3 (117 ∷ []) blank [] (omega arith) tt (omega arith)
      no_list-Rep refl tt

-- Then the client leaves.
count_off-Users_test :
    Users (count_off no_match 5 7 3 (add_user_clone no_match 5 7 3 (117 ∷ []) blank).1) 7 []
unfolding add_user_clone
count_off-Users_test =
    count_off-Users no_match 5 7 3 (add_user_clone no_match 5 7 3 (117 ∷ []) blank).1 [] [] (
      add_user_clone-Users no_match 5 7 3 (117 ∷ []) blank [] (omega arith) tt (omega arith)
        no_list-Rep refl tt)

-- Rule 9 comes to the second place, and goes.
second_place : (add_crule 9 (some 2) blank).rules ≡ 1 ∷ 9 ∷ 2 ∷ []
unfolding add_crule
second_place = refl

remove_crule-add_crule_test : (remove_crule 9 (add_crule 9 (some 2) blank)).rules ≡ 1 ∷ 2 ∷ []
unfolding is_there
remove_crule-add_crule_test = remove_crule-add_crule 9 (some 2) blank (omega arith) refl

update_clone_alerts_again_test :
    update_clone_alerts 5 (6 ∷ []) (update_clone_alerts 5 (6 ∷ []) blank)
    ≡ update_clone_alerts 5 (6 ∷ []) blank
update_clone_alerts_again_test = update_clone_alerts_again 5 (6 ∷ []) blank

-- The first client of a host is let in.
let_in : (add_clone no_match 5 8 3 4 [] (117 ∷ []) (104 ∷ []) blank).0 ≡ false
unfolding add_clone same_name get_hash_key
let_in = refl

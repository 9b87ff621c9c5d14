-- ===== src/ConnClass/Examples.antt =====
-- Tests of the connection classes, and the theorems at concrete inputs.
use snservices.Base.{ℕ, ◌≡◌, refl, false, none, some, [], ◌∷◌, Bytes, arith}
use snservices.Base.Int.{ℤ, pos, negsuc}
use snservices.ConnClass.{
  ConnClass, Classes, ConfNode, Defaults, same_class_name, class_get, class_free, add_found,
  conf_class_add,
}
use snservices.ConnClass.Freed.{without, class_free-Chain}
use snservices.ConnClass.Listed.{
  linked, Chain, ends, first_named, conf_class_add-Chain, conf_class_add_again,
}

abbrev atoi : Bytes → ℤ
atoi text = pos 7

abbrev defaults : Defaults
defaults = record {
  pingfrequency = pos 120;
  connectfrequency = pos 600;
  maxconnections = pos 50;
  maxsendqlength = pos 9000;
  maxchannelsperuser = pos 10;
}

-- A node with the name `u`.
abbrev node : ConfNode
node = record {
  conf_name = some (117 ∷ []);
  ping_frequency = none;
  connect_frequency = none;
  max_connections = none;
  send_queue = some (49 ∷ []);
  max_channels = none;
}

abbrev blank : ConnClass
blank = record {
  name = [];
  conns = 0;
  refs = 0;
  maxconns = pos 0;
  pingfreq = pos 0;
  connfreq = pos 0;
  maxsendq = pos 0;
  maxchannels = pos 0;
  next = 0;
}

abbrev no_classes : Classes
no_classes = record { class_at = λ k. blank; classlist = 0 }

-- A class that was removed while a connection still refers to it.
abbrev in_use : Classes
in_use = record {
  class_at = λ k. record blank { name = 117 ∷ []; refs = 1; maxconns = negsuc 0 };
  classlist = 5;
}

conf_class_add-Chain_example :
    (s' : Classes) × (conf_class_add atoi defaults 3 5 node no_classes ≡ some (5, s'))
    × Chain s'.class_at s'.classlist (5 ∷ [])
    × (class_get 3 (117 ∷ []) s' ≡ some 5)
unfolding first_named
conf_class_add-Chain_example =
    conf_class_add-Chain atoi defaults 3 5 (117 ∷ []) node no_classes [] ends (omega arith) refl
      refl (λ e. omega (arith, e)) tt

conf_class_add_again_example :
    (s' : Classes) × (add_found atoi defaults 9 (117 ∷ []) node 5 in_use ≡ some (5, s'))
    × ((other : Bytes)
        → same_class_name (117 ∷ []) other ≡ false
        → (rounds : ℕ) → class_get rounds other s' ≡ none)
conf_class_add_again_example =
    conf_class_add_again atoi defaults 9 4 (117 ∷ []) node in_use refl refl

-- The class 5 alone on the list.
abbrev last_use : Classes
last_use = record { class_at = λ k. record blank { refs = 1; maxconns = negsuc 0 }; classlist = 5 }

class_free-Chain_example :
    Chain
      (class_free 1 5 last_use).class_at
      (class_free 1 5 last_use).classlist
      (without 5 (5 ∷ []))
class_free-Chain_example =
    class_free-Chain 1 5 last_use (5 ∷ []) (linked (λ e. omega (arith, e)) ends) (tt, tt)
      (omega arith) refl refl

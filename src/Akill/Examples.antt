-- ===== src/Akill/Examples.antt =====
-- Tests of the autokills, and the theorems at concrete inputs.
use snservices.Base.{
  ℕ, ◌+◌, ◌≡◌, ◌≢◌, refl, sym, ap, Bool, true, false, false≢true, Option, none, some, List, [], ◌∷◌,
  Bytes, All,
}
use snservices.Base.Int.{pos}
use snservices.Timer.{Call, next_tid}
use snservices.Akill.{
  AkillItem, Akills, Outcome, returned, fault, equal_text, split_mask, addakill, remove_akill,
  remove_akill_type, auto_remove_akill,
}
use snservices.Akill.Removal.{remove_akill-addakill}
use snservices.Akill.Compare.{IsFull, SameMask}
use snservices.Akill.Exact.{May, Wanted, Removes, remove_akill-Removes}

-- `*!a@b`
abbrev mask : Bytes
mask = 42 ∷ 33 ∷ 97 ∷ 64 ∷ 98 ∷ []

-- The names `O`, for OperServ, and `x`.
abbrev operserv : Bytes
operserv = 79 ∷ []

abbrev oper : Bytes
oper = 120 ∷ []

abbrev same_only : Bytes → Bytes → ℕ
same_only m t = 1

has_part : {t : Bytes} → some t ≢ none
has_part e = false≢true (ap filled (sym e))
  where
    filled : Option Bytes → Bool
    filled none = false
    filled (some _) = true

abbrev never : Bytes → Bytes → Bool
never a b = false

abbrev lacks_flag : Bytes → Bool
lacks_flag from = false

abbrev quiet : Call
quiet func args t = t

abbrev no_akills : Akills
no_akills = record { first = []; top_akill_stamp = 0; timers = record { curtid = 0; first = [] } }

abbrev hurt : Akills
hurt = addakill quiet 100 9 60 mask oper 4 [] no_akills

-- A lasting autokill of the same mask.
abbrev hurt_and_kill : Akills
hurt_and_kill = addakill quiet 110 10 0 mask oper 1 [] hurt

-- When the autohurt runs out, the lasting autokill is taken out in its place.
abbrev left : Outcome → List ℕ
left fault = []
left (returned _ s) = kinds s.first
  where
    kinds : List AkillItem → List ℕ
    kinds [] = []
    kinds (ak ∷ r) = ak.kind ∷ kinds r

wrong_one_left :
    left (auto_remove_akill same_only never lacks_flag operserv mask hurt_and_kill) ≡ 4 ∷ []
unfolding addakill remove_akill
wrong_one_left = refl

remove_akill-addakill_example :
    remove_akill same_only never lacks_flag operserv oper mask hurt
    ≡ returned (pos 0) (record {
      first = [];
      top_akill_stamp = 0 + 1;
      timers = record { curtid = next_tid 0; first = [] };
    })
unfolding remove_akill equal_text
remove_akill-addakill_example =
    remove_akill-addakill same_only never lacks_flag operserv quiet 100 9 59 mask oper oper
      (97 ∷ []) (98 ∷ []) 4 [] no_akills refl refl refl refl tt

-- The autohurt of `hurt_and_kill` is the second entry of the mask; `x` made it.
hurt_and_kill-IsFull : All IsFull hurt_and_kill.first
unfolding addakill
hurt_and_kill-IsFull = ((has_part, has_part), ((has_part, has_part), tt))

remove_akill-Removes_example :
    Removes
      (SameMask (split_mask mask))
      (May same_only never lacks_flag operserv oper)
      oper
      operserv
      hurt_and_kill
      (remove_akill same_only never lacks_flag operserv oper mask hurt_and_kill)
    × Removes
        (Wanted same_only never lacks_flag operserv oper 4 (split_mask mask))
        (λ ak. Unit)
        oper
        operserv
        hurt_and_kill
        (remove_akill_type same_only never lacks_flag operserv oper mask 4 hurt_and_kill)
unfolding split_mask
remove_akill-Removes_example =
    remove_akill-Removes same_only never lacks_flag operserv oper mask (97 ∷ []) (98 ∷ []) 4
      hurt_and_kill refl refl hurt_and_kill-IsFull

-- ===== src/ChanServ/Register/Rights/Ident.antt =====
-- getMiscChanOp of services/chanserv.c with and without the demand that the user be identified.
use snservices.Base.{
  ℕ, ◌≤◌, ◌≡◌, refl, sym, ap, ◌∙◌, Bool, true, false, not, ◌&&◌, ◌||◌, Option, none, some, ◌==◌,
  if◌then◌else◌, Bytes, arith, false≢true, subst₂,
}
use snservices.NickServ.{get_nick_data}
use snservices.ChanServ.Register.{Register}
use snservices.ChanServ.Register.Rights.{
  Checks, Found, Level, autokicked, level, Answer, exact_match, mask_match, is_founder,
  matching_akick, finish, get_misc_chan_op, cbanish_cclose, cforcexfer, has_flag,
}
use snservices.ChanServ.Register.Rights.Highest.{exact_match_le}

-- At most: an autokick is below no access.
abbrev pub AtMost : Level → Level → Type 0
AtMost autokicked _ = Unit
AtMost (level _) autokicked = ⊥
AtMost (level m) (level n) = m ≤ n

abbrev ending : Bool → ℕ → ℕ → Level
ending forced highest ak =
    if forced
    then level 0
    else if (if highest == 0 then ak else 0) == 0
    then level highest
    else autokicked

both_end :
    (q : Bool) (m n : ℕ)
    → m ≤ n
    → AtMost (if q then level m else autokicked) (if q then level n else autokicked)
both_end true m n h = h
both_end false m n h = tt

one_ends : (q : Bool) (m n : ℕ) → m ≤ n → AtMost (if q then level m else autokicked) (level n)
one_ends true m n h = h
one_ends false m n h = tt

at_end :
    (z w : Bool) (m n ak : ℕ)
    → (z ≡ false → w ≡ false)
    → m ≤ n
    → AtMost
        (if (if z then ak else 0) == 0 then level m else autokicked)
        (if (if w then ak else 0) == 0 then level n else autokicked)
at_end true true m n ak g h = both_end (ak == 0) m n h
at_end true false m n ak g h = one_ends (ak == 0) m n h
at_end false true m n ak g h = absurd (false≢true (sym (g refl)))
at_end false false m n ak g h = h

ending-AtMost :
    (forced : Bool) (m n ak : ℕ) → m ≤ n → AtMost (ending forced m ak) (ending forced n ak)
ending-AtMost true m n ak h = omega arith
ending-AtMost false m n ak h = at_end (m == 0) (n == 0) m n ak (λ e. more e) h
  where
    more : (m == 0) ≡ false → (n == 0) ≡ false
    more e = ground arith

result_of :
    (b : Bool) (x y : Answer) → (if b then x else y).result ≡ (if b then x.result else y.result)
result_of true x y = refl
result_of false x y = refl

AtMost-refl : (l : Level) → AtMost l l
AtMost-refl autokicked = tt
AtMost-refl (level n) = omega arith

same_guard :
    (b : Bool) (a x y : Answer)
    → AtMost x.result y.result
    → AtMost (if b then a else x).result (if b then a else y).result
same_guard true a x y h = AtMost-refl a.result
same_guard false a x y h = h

module _ (k : Checks) (fuel : ℕ) where
  finish-ending :
      (chan u : ℕ) (f : Found) (s : Register)
      → (finish k fuel chan u f s).result
        ≡ ending
            (has_flag (s.reg_chan chan).flags cforcexfer && not (k.overrides u))
            f.highest
            (matching_akick k fuel chan u s)
  unfolding finish
  finish-ending chan u f s =
      let forced = has_flag (s.reg_chan chan).flags cforcexfer && not (k.overrides u) in
      let ak = (if f.highest == 0 then matching_akick k fuel chan u s else 0) in
      result_of forced _ _ ∙ ap (λ z. if forced then level 0 else z) (result_of (ak == 0) _ _)

  -- If every user who is identified to a nickname is recognized for it, then the access that a
  -- user has when identification is demanded is at most the access without the demand, where
  -- being autokicked is less than no access.
  pub get_misc_chan_op-AtMost :
      ((u r : ℕ) → k.is_identified u r ≡ true → k.is_recognized u r ≡ true)
      → (chan : ℕ) (nick : Option Bytes) (s : Register)
      → AtMost
          (get_misc_chan_op k fuel chan nick true s).result
          (get_misc_chan_op k fuel chan nick false s).result
  unfolding get_misc_chan_op
  get_misc_chan_op-AtMost g chan none s = omega arith
  get_misc_chan_op-AtMost g chan (some nick) s = same_guard (chan == 0) _ _ _ (
      same_guard (u == 0 || (has_flag (s.reg_chan chan).flags cbanish_cclose && not (k.is_oper u)))
        _ _ _ (same_guard (is_founder k fuel chan u s).0 _ _ _ last))
    where
      u : ℕ
      u = get_nick_data nick s.nicks

      s' : Register
      s' = (is_founder k fuel chan u s).1

      last :
          AtMost
            (finish k fuel chan u (exact_match k fuel chan u nick s') s').result
            (finish k fuel chan u (mask_match k fuel chan u nick s') s').result
      last =
          subst₂ AtMost (sym (finish-ending chan u (exact_match k fuel chan u nick s') s'))
            (sym (finish-ending chan u (mask_match k fuel chan u nick s') s'))
            (ending-AtMost _ _ _ _ (exact_match_le k fuel chan u nick s' (g u)))

-- ===== src/ChanServ/Register/Rights/Highest.antt =====
-- The access levels that getMiscChanOp of services/chanserv.c finds with and without identification.
use snservices.Base.{
  ℕ, zero, suc, ◌≤◌, min, ◌≡◌, refl, inl, inr, Bool, true, false, not, ◌&&◌, Option, none, some,
  ◌==◌, if◌then◌else◌, Bytes, arith, Bool-cases, false≢true,
}
use snservices.NickServ.{User, get_reg_nick_data}
use snservices.ChanServ.Register.{Register, get_chan_op_data}
use snservices.ChanServ.Register.Rights.{
  Checks, Found, process_op_item_level, grant, item_name, id_record, by_id, exact_match, mask_match,
  by_mask, is_some,
}

module _ (k : Checks) (fuel : ℕ) where
  grant_more : (o : Option Bytes) (l : ℕ) (f : Found) → f.highest ≤ (grant k fuel o l f).highest
  unfolding grant process_op_item_level
  grant_more none l f = omega arith
  grant_more (some name) l f = ground arith

  grant_level :
      (o : Option Bytes) (l : ℕ) (f : Found)
      → is_some k fuel o ≡ true
      → l ≤ (grant k fuel o l f).highest
  unfolding grant process_op_item_level
  grant_level none l f h = absurd (false≢true h)
  grant_level (some name) l f h = ground arith

  grant_bound :
      (o : Option Bytes) (l b : ℕ) (f : Found)
      → f.highest ≤ b
      → (is_some k fuel o ≡ true → l ≤ b)
      → (grant k fuel o l f).highest ≤ b
  unfolding grant process_op_item_level
  grant_bound none l b f h g = h
  grant_bound (some name) l b f h g = let g' = g refl in ground arith

  either :
      (b : Bool) (m : ℕ) (f g : Found)
      → m ≤ f.highest
      → m ≤ g.highest
      → m ≤ (if b then f else g).highest
  either true m f g h _ = h
  either false m f g _ h = h

  by_mask_more :
      (n x : ℕ) (next : ℕ → ℕ) (u : ℕ) (s : Register) (f : Found)
      → f.highest ≤ (by_mask k fuel n x next u s f).highest
  unfolding by_mask
  by_mask_more zero x next u s f = omega arith
  by_mask_more (suc n) x next u s f =
      let name = item_name k fuel s x in
      let c =
        k.check_access (s.nicks.user u).user (s.nicks.user u).host
          (get_reg_nick_data name s.nicks) in
      let one =
        either c f.highest (grant k fuel name (s.access x).uflags f) f
          (grant_more name (s.access x).uflags f) (omega arith) in
      let rest =
        by_mask_more n (next x) next u s
          (if c then grant k fuel name (s.access x).uflags f else f) in
      either (x == 0) f.highest f _ (omega arith) (omega arith)

  -- The choice between recognition, mode +R and masks.
  abbrev chosen : Bool → Bool → Option Bytes → ℕ → Found → Found → Found
  chosen r m o l f rest =
      if r && is_some k fuel o
      then grant k fuel o l f
      else if m && is_some k fuel o
      then grant k fuel o (min 5 l) f
      else rest

  chosen_more :
      (r m : Bool) (o : Option Bytes) (l : ℕ) (f rest : Found)
      → f.highest ≤ rest.highest
      → f.highest ≤ (chosen r m o l f rest).highest
  chosen_more r m o l f rest h = elim (Bool-cases (r && is_some k fuel o)) [
    | inl e ↦ rw e (grant_more o l f)
    | inr e ↦ elim (Bool-cases (m && is_some k fuel o)) [
      | inl q ↦ rw (e, q) (grant_more o (min 5 l) f)
      | inr q ↦ rw (e, q) h
    ]
  ]

  chosen_recognized :
      (m : Bool) (o : Option Bytes) (l : ℕ) (f rest : Found)
      → is_some k fuel o ≡ true
      → l ≤ (chosen true m o l f rest).highest
  chosen_recognized m o l f rest h = rw h (grant_level o l f h)

  chosen_mode :
      (r : Bool) (o : Option Bytes) (l : ℕ) (f rest : Found)
      → is_some k fuel o ≡ true
      → min 5 l ≤ (chosen r true o l f rest).highest
  chosen_mode true o l f rest h =
      let full = grant_level o l f h in let less : min 5 l ≤ l = ground arith in rw h (omega arith)
  chosen_mode false o l f rest h = rw h (grant_level o (min 5 l) f h)

  -- The nickname itself, when the user has to be identified.
  abbrev nick_part : Bool → Bool → Bool → Option Bytes → ℕ → Found → Found
  nick_part unreg r m o l f =
      if unreg
      then f
      else if r
      then grant k fuel o l f
      else if m
      then grant k fuel o (min 5 l) f
      else f

  nick_part_bound :
      (unreg r r' m : Bool) (o : Option Bytes) (l : ℕ) (f0 f rest : Found)
      → f0.highest ≡ 0
      → f.highest ≤ rest.highest
      → (r ≡ true → r' ≡ true)
      → (nick_part unreg r m o l f0).highest ≤ (chosen r' m o l f rest).highest
  nick_part_bound true r r' m o l f0 f rest z h g = omega arith
  nick_part_bound false true r' m o l f0 f rest z h g = rw (g refl) (
      grant_bound o l (chosen true m o l f rest).highest f0 (omega arith)
        (λ e. chosen_recognized m o l f rest e))
  nick_part_bound false false r' true o l f0 f rest z h g =
      grant_bound o (min 5 l) (chosen r' true o l f rest).highest f0 (omega arith)
        (λ e. chosen_mode r' o l f rest e)
  nick_part_bound false false r' false o l f0 f rest z h g = omega arith

  -- The nickname that the user is identified to.
  id_part_bound :
      (p q : Bool) (o : Option Bytes) (l b : ℕ) (f f0 : Found)
      → f.highest ≤ b
      → (if p then grant k fuel o l f0 else f0).highest ≤ b
      → (if p && q then grant k fuel o l f else f).highest ≤ b
  id_part_bound false q o l b f f0 h g = h
  id_part_bound true false o l b f f0 h g = h
  id_part_bound true true o l b f f0 h g =
      grant_bound o l b f h (λ e. let full = grant_level o l f0 e in omega arith)

  pub exact_match_le :
      (chan u : ℕ) (nick : Bytes) (s : Register)
      → ((r : ℕ) → k.is_identified u r ≡ true → k.is_recognized u r ≡ true)
      → (exact_match k fuel chan u nick s).highest ≤ (mask_match k fuel chan u nick s).highest
  unfolding exact_match mask_match
  exact_match_le chan u nick s g =
      id_part_bound (not (reg2 == 0) && k.is_identified u reg2) _ (item_name k fuel s y)
        (s.access y).uflags _ _ f0
        (nick_part_bound (user.reg == 0) (k.is_identified u user.reg) (k.is_recognized u user.reg)
          (k.has_valid_mode_r u) (item_name k fuel s x) (s.access x).uflags f0 f1 rest refl more
          (g user.reg))
        (chosen_more (k.is_recognized u user.reg) (k.has_valid_mode_r u) (item_name k fuel s x)
          (s.access x).uflags f1 rest more)
    where
      user : User
      user = s.nicks.user u

      x : ℕ
      x = get_chan_op_data fuel chan (some nick) s

      reg2 : ℕ
      reg2 = id_record k fuel user.id_nick s

      y : ℕ
      y = by_id k fuel chan reg2 s

      f0 : Found
      f0 = record { highest = 0; via = none }

      f1 : Found
      f1 =
          if not (reg2 == 0) && k.is_identified u reg2
          then grant k fuel (item_name k fuel s y) (s.access y).uflags f0
          else f0

      rest : Found
      rest =
          by_mask k fuel fuel (s.reg_chan chan).op.main.first (s.reg_chan chan).op.main.next u s f1

      more : f1.highest ≤ rest.highest
      more = by_mask_more fuel (s.reg_chan chan).op.main.first (s.reg_chan chan).op.main.next u s f1

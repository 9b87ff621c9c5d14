-- ===== src/ChanServ/Register/Rights.antt =====
-- The access of a user to a registered channel: isFounder and getMiscChanOp of services/chanserv.c. What
-- other parts of the services answer about a user is in `Checks`. A level of -1, for who is autokicked, is
-- `autokicked`; the levels of operators are not negative. Walks run on fuel.
pub mod Highest
pub mod Ident
use Prim.Native.Nat.{bit_and}
use snservices.Base.{
  ℕ, zero, suc, ◌+◌, min, Bool, true, false, not, ◌&&◌, ◌||◌, Option, none, some, List, [], ◌∷◌,
  ◌++◌, ltb, ◌==◌, if◌then◌else◌, Bytes, take,
}
use snservices.Registry.Names.{same_name}
use snservices.Registry.Table.{walk}
use snservices.NickServ.{
  RegId, User, RegNick, Nicks, id_equal, get_nick_data, get_reg_nick_data, nicklen,
}
use snservices.ChanServ.Register.{
  Register, RegChan, Access, IdentifyData, get_chan_op_data, clear_chan_ident,
}

-- `isOper(user)`, `isIdentified(user, reg)`, `isRecognized(user, reg)`, `hasValidModeR(user)`,
-- `opFlagged(user, OVERRIDE)`, `checkAccess(user, host, reg) == 1`, `!match(mask, text)`, `genHostMask` and
-- `RegId::getNick`.
pub record Checks : Type 0 where
  pub is_oper : ℕ → Bool
  pub is_identified : ℕ → ℕ → Bool
  pub is_recognized : ℕ → ℕ → Bool
  pub has_valid_mode_r : ℕ → Bool
  pub overrides : ℕ → Bool
  pub check_access : Bytes → Bytes → ℕ → Bool
  pub matches : Bytes → Bytes → Bool
  pub gen_host_mask : Bytes → Bytes
  pub get_nick : RegId → Option Bytes

-- `CBANISH | CCLOSE`, `CFORCEXFER`, `CIDENT` and `FOUNDER`.
abbrev pub cbanish_cclose : ℕ
cbanish_cclose = 2304

abbrev pub cforcexfer : ℕ
cforcexfer = 4096

abbrev pub cident : ℕ
cident = 32

abbrev pub founder : ℕ
founder = 15

-- `HOSTLEN + USERLEN + NICKLEN`, less the NUL.
abbrev pub hostmask_len : ℕ
hostmask_len = 92

abbrev pub has_flag : ℕ → ℕ → Bool
has_flag flags f = not (bit_and flags f == 0)

pub data Level : Type 0 where
  autokicked : Level
  level : ℕ → Level

-- `highest`, and what is written to `checkAccessNick`.
pub record Found : Type 0 where
  pub highest : ℕ
  pub via : Option Bytes

-- The answer, what is written to `*akickRecord`, and the state.
pub record Answer : Type 0 where
  pub result : Level
  pub akick_record : Option ℕ
  pub via : Option Bytes
  pub after : Register

-- "founder(PW)"
abbrev founder_pw : Bytes
founder_pw = 102 ∷ 111 ∷ 117 ∷ 110 ∷ 100 ∷ 101 ∷ 114 ∷ 40 ∷ 80 ∷ 87 ∷ 41 ∷ []

-- `process_op_item_level`
unfoldable pub process_op_item_level : Bytes → ℕ → Found → Found
process_op_item_level name l f = record {
  highest = if ltb f.highest l then l else f.highest;
  via = some (take 17 name);
}

module _ (k : Checks) (fuel : ℕ) where
  -- The item, if there is one, and its nickname.
  abbrev pub item_name : Register → ℕ → Option Bytes
  item_name s x = if x == 0 then none else k.get_nick (s.access x).nick_id

  -- What is done with an item of this nickname; without one, nothing.
  unfoldable pub grant : Option Bytes → ℕ → Found → Found
  unfolding process_op_item_level
  grant none l f = f
  grant (some name) l f = process_op_item_level name l f

  -- The founder by password, whose identification is dropped when it is out of date.
  unfoldable pub is_founder : ℕ → ℕ → Register → Bool × Register
  unfolding clear_chan_ident get_nick_data
  is_founder chan u s =
      let r = s.reg_chan chan in
      let user = s.nicks.user u in
      let name = s.text r.id.nick in
      let t = get_nick_data name s.nicks in
      let tmp = s.nicks.user t in
      let mine = same_name user.nick name in
      let current = ltb tmp.timestamp r.id.timestamp && id_equal tmp.idnum r.id.idnum && mine in
      let s' =
        (if r.id.nick == 0
          then s
          else if t == 0
          then clear_chan_ident chan s
          else if mine
          then clear_chan_ident chan s
          else s) in
      let owns =
        not (user.reg == 0)
        && id_equal r.founder_id (s.nicks.reg_nick user.reg).regnum
        && k.is_recognized u user.reg
        && not (r.facc == 0) in
      if has_flag r.flags cforcexfer && not (k.overrides u)
      then (false, s)
      else if not (r.id.nick == 0) && not (t == 0) && current
      then (true, s)
      else (owns, s')

  -- The record of the nickname that the user is identified to.
  abbrev pub id_record : Option Bytes → Register → ℕ
  id_record none s = 0
  id_record (some idn) s = get_reg_nick_data (some idn) s.nicks

  abbrev pub by_id : ℕ → ℕ → Register → ℕ
  by_id chan reg2 s = get_chan_op_data fuel chan (some (s.nicks.reg_nick reg2).nick) s

  -- The user has to be identified.
  unfoldable pub exact_match : ℕ → ℕ → Bytes → Register → Found
  unfolding get_chan_op_data grant get_reg_nick_data
  exact_match chan u nick s =
      let check = s.nicks.user u in
      let x = get_chan_op_data fuel chan (some nick) s in
      let f0 : Found = record { highest = 0; via = none } in
      let f1 =
        (if check.reg == 0
          then f0
          else if k.is_identified u check.reg
          then grant (item_name s x) (s.access x).uflags f0
          else if k.has_valid_mode_r u
          then grant (item_name s x) (min 5 (s.access x).uflags) f0
          else f0) in
      let reg2 = id_record check.id_nick s in
      let y = by_id chan reg2 s in
      if not (reg2 == 0) && k.is_identified u reg2 && ltb f1.highest (s.access y).uflags
      then grant (item_name s y) (s.access y).uflags f1
      else f1

  -- Along the list of operators: everybody whose access list has the user's address.
  unfoldable pub by_mask : ℕ → ℕ → (ℕ → ℕ) → ℕ → Register → Found → Found
  unfolding grant get_reg_nick_data
  by_mask zero tmpnick next u s f = f
  by_mask (suc n) tmpnick next u s f =
      let user = s.nicks.user u in
      let name = item_name s tmpnick in
      let f' =
        (if k.check_access user.user user.host (get_reg_nick_data name s.nicks)
          then grant name (s.access tmpnick).uflags f
          else f) in
      let rest = by_mask n (next tmpnick) next u s f' in if tmpnick == 0 then f else rest

  abbrev pub is_some : Option Bytes → Bool
  is_some none = false
  is_some (some _) = true

  -- The user need not be identified.
  unfoldable pub mask_match : ℕ → ℕ → Bytes → Register → Found
  unfolding get_chan_op_data grant get_reg_nick_data by_mask
  mask_match chan u nick s =
      let tmp = s.nicks.user u in
      let x = get_chan_op_data fuel chan (some nick) s in
      let f0 : Found = record { highest = 0; via = none } in
      let reg2 = id_record tmp.id_nick s in
      let y = by_id chan reg2 s in
      let f1 =
        (if not (reg2 == 0) && k.is_identified u reg2
          then grant (item_name s y) (s.access y).uflags f0
          else f0) in
      let d = (s.reg_chan chan).op.main in
      if k.is_recognized u tmp.reg && is_some (item_name s x)
      then grant (item_name s x) (s.access x).uflags f1
      else if k.has_valid_mode_r u && is_some (item_name s x)
      then grant (item_name s x) (min 5 (s.access x).uflags) f1
      else by_mask fuel d.first d.next u s f1

  -- The autokicks are looked at only if there is no access: the first whose mask matches the user's address, or
  -- the address with its host masked.
  unfoldable pub matching_akick : ℕ → ℕ → Register → ℕ
  unfolding walk
  matching_akick chan u s =
      let tmp = s.nicks.user u in
      let mask : Bytes → Bytes =
        λ host. take hostmask_len (tmp.nick ++ 33 ∷ tmp.user ++ 64 ∷ host) in
      let hostmask = mask tmp.host in
      let hostmask2 = mask (k.gen_host_mask tmp.host) in
      let d = (s.reg_chan chan).akick in
      walk (λ a. k.matches (s.mask a) hostmask || k.matches (s.mask a) hostmask2) fuel d.first
        d.next

  -- From the access found on.
  unfoldable pub finish : ℕ → ℕ → Found → Register → Answer
  unfolding matching_akick
  finish chan u f s =
      let ak = (if f.highest == 0 then matching_akick chan u s else 0) in
      if has_flag (s.reg_chan chan).flags cforcexfer && not (k.overrides u)
      then record { result = level 0; akick_record = some 0; via = f.via; after = s }
      else if ak == 0
      then record { result = level f.highest; akick_record = some 0; via = f.via; after = s }
      else record { result = autokicked; akick_record = some ak; via = f.via; after = s }

  -- `id` asks for identification.
  unfoldable pub get_misc_chan_op : ℕ → Option Bytes → Bool → Register → Answer
  unfolding get_nick_data is_founder exact_match mask_match finish
  get_misc_chan_op chan none id s = record {
    result = level 0;
    akick_record = none;
    via = none;
    after = s;
  }
  get_misc_chan_op chan (some nick) id s =
      let tmp = get_nick_data nick s.nicks in
      let flags = (s.reg_chan chan).flags in
      let no : Option ℕ → Answer =
        λ a. record { result = level 0; akick_record = a; via = none; after = s } in
      let (owner, s') = is_founder chan tmp s in
      let f = (if id then exact_match chan tmp nick s' else mask_match chan tmp nick s') in
      if chan == 0
      then no none
      else if tmp == 0 || (has_flag flags cbanish_cclose && not (k.is_oper tmp))
      then no (some 0)
      else if owner
      then record {
        result = level founder;
        akick_record = some 0;
        via = some founder_pw;
        after = s';
      }
      else finish chan tmp f s'

  unfoldable pub get_chan_op : ℕ → Option Bytes → Register → Level × Register
  unfolding get_misc_chan_op
  get_chan_op chan nick s =
      let a = get_misc_chan_op chan nick (has_flag (s.reg_chan chan).flags cident) s in
      if chan == 0 then (level 0, s) else (a.result, a.after)

  unfoldable pub get_chan_op_id : ℕ → Option Bytes → Register → Level × Register
  unfolding get_misc_chan_op
  get_chan_op_id chan nick s =
      let a = get_misc_chan_op chan nick true s in
      if chan == 0 then (level 0, s) else (a.result, a.after)

-- ===== src/ChanServ/Register.antt =====
-- Registered channels, services/chanserv.c: their list and hash table, and the operators and autokicks of
-- each, which are numbered from 1. `FREE` is written down in `freed`; walks run on fuel. The counters are
-- the 32 bits of an `int` and an `unsigned int`.
pub mod Listing
pub mod Numbers
pub mod Akicks
pub mod Ops
pub mod Rights
mod Examples
use snservices.Base.{
  ℕ, zero, suc, ◌+◌, ◌-◌, ◌%◌, ◌^◌, Bool, true, false, not, ◌&&◌, ◌||◌, Option, none, some, List,
  [], ◌∷◌, ◌++◌, ◌==◌, if◌then◌else◌, Bytes,
}
use snservices.Registry.{Dll, set, append, remove}
use snservices.Registry.Names.{same_name, key}
use snservices.Registry.Table.{Table, walk, find, enlist, delist}
use snservices.NickServ.{
  RegId, RegNick, IdMap, Nicks, id_equal, id_key, get_id_map, get_reg_nick_data,
}
use snservices.ChanServ.Online.{chanhashsize}

abbrev pub ophashsize : ℕ
ophashsize = 53

-- `++` and `--` on 32 bits.
abbrev pub incr : ℕ → ℕ
incr n = (n + 1) % 2 ^ 32

abbrev pub decr : ℕ → ℕ
decr n = (n + (2 ^ 32 - 1)) % 2 ^ 32

-- `IdentifyData`; the nickname is a pointer.
pub record IdentifyData : Type 0 where
  pub nick : ℕ
  pub idnum : RegId
  pub timestamp : ℕ

-- `RegChanList`, as far as it is used here; the texts are pointers.
pub record RegChan : Type 0 where
  pub name : Bytes
  pub founder_id : RegId
  pub facc : ℕ
  pub flags : ℕ
  pub id : IdentifyData
  pub url : ℕ
  pub autogreet : ℕ
  pub markby : ℕ
  pub ops : ℕ
  pub akicks : ℕ
  pub op : Table
  pub akick : Dll

-- `cAccessList`
pub record Access : Type 0 where
  pub nick_id : RegId
  pub uflags : ℕ

pub data Cell : Type 0 where
  reg_chan_cell : ℕ → Cell
  akick_cell : ℕ → Cell
  access_cell : ℕ → Cell
  text_cell : ℕ → Cell

-- What stands at the addresses of registered channels, autokicks (mask and index), operators and texts.
pub record Register : Type 0 where
  pub listed : Table
  pub reg_chan : ℕ → RegChan
  pub mask : ℕ → Bytes
  pub akick_index : ℕ → ℕ
  pub access : ℕ → Access
  pub op_index : ℕ → ℕ
  pub nicks : Nicks
  pub text : ℕ → Bytes
  pub freed : List Cell

abbrev pub reg_chan_hash : Register → ℕ → ℕ
reg_chan_hash s n = key chanhashsize (s.reg_chan n).name

abbrev pub reg_chan_test : Register → Bytes → ℕ → Bool
reg_chan_test s name n = same_name (s.reg_chan n).name name

abbrev pub op_hash : Register → ℕ → ℕ
op_hash s n = id_key (s.access n).nick_id % ophashsize

abbrev pub free_cell : Cell → Register → Register
free_cell c s = record s { freed = c ∷ s.freed }

-- `if (p) FREE(p);`
abbrev pub free_text : ℕ → Register → Register
free_text p s = if p == 0 then s else free_cell (text_cell p) s

unfoldable pub free_reg_chan : ℕ → Register → Register
free_reg_chan killme s =
    let r = s.reg_chan killme in
    free_cell (reg_chan_cell killme)
      (free_text r.markby (free_text r.autogreet (free_text r.url (free_text r.id.nick s))))

-- `ptrMap->nick->chans--`
unfoldable pub leave_founder : Option IdMap → Register → Register
leave_founder none s = s
leave_founder (some m) s = if m.nick == 0 then s else record s {
  nicks = record s.nicks {
    reg_nick =
        set s.nicks.reg_nick m.nick
          (record (s.nicks.reg_nick m.nick) { chans = decr (s.nicks.reg_nick m.nick).chans });
  };
}

-- From `tmp` on, the items are numbered from `i`.
unfoldable pub renumber : ℕ → ℕ → (ℕ → ℕ) → ℕ → (ℕ → ℕ) → ℕ → ℕ
renumber zero tmp next i index = index
renumber (suc fuel) tmp next i index =
    let rest = renumber fuel (next tmp) next (i + 1) (set index tmp i) in
    if tmp == 0 then index else rest

module _ (fuel : ℕ) where
  unfoldable pub get_reg_chan_data : Option Bytes → Register → ℕ
  unfolding find
  get_reg_chan_data none s = 0
  get_reg_chan_data (some name) s =
      find (key chanhashsize name) (reg_chan_test s name) fuel s.listed

  unfoldable pub add_reg_chan : ℕ → Register → Register
  unfolding get_reg_chan_data enlist free_reg_chan
  add_reg_chan newchan s =
      if get_reg_chan_data (some (s.reg_chan newchan).name) s == 0
      then record s { listed = enlist (reg_chan_hash s) newchan s.listed }
      else free_reg_chan newchan s

  unfoldable pub del_reg_chan : ℕ → Register → Register
  unfolding delist free_reg_chan leave_founder get_id_map
  del_reg_chan killme s =
      if killme == 0
      then s
      else (let unlinked = record s { listed = delist (reg_chan_hash s) fuel killme s.listed } in
          free_reg_chan killme
            (leave_founder (get_id_map (s.reg_chan killme).founder_id s.nicks) unlinked))

  unfoldable pub index_akick_items : ℕ → Register → Register
  unfolding renumber
  index_akick_items chan s =
      let d = (s.reg_chan chan).akick in
      record s { akick_index = renumber fuel d.first d.next 1 s.akick_index }

  unfoldable pub index_op_items : ℕ → Register → Register
  unfolding renumber
  index_op_items chan s =
      let d = (s.reg_chan chan).op.main in
      record s { op_index = renumber fuel d.first d.next 1 s.op_index }

  unfoldable pub add_chan_akick : ℕ → ℕ → Register → Register
  unfolding append index_akick_items
  add_chan_akick channel item s =
      let c = s.reg_chan channel in
      index_akick_items channel (record s {
        reg_chan =
            set s.reg_chan channel
              (record c { akick = append item c.akick; akicks = incr c.akicks });
      })

  unfoldable pub del_chan_akick : ℕ → ℕ → Register → Register
  unfolding remove index_akick_items
  del_chan_akick channel item s =
      let c = s.reg_chan channel in
      index_akick_items channel (
        free_cell (akick_cell item) (record s {
          reg_chan =
              set s.reg_chan channel
                (record c { akick = remove item c.akick; akicks = decr c.akicks });
        }))

  unfoldable pub add_chan_op : ℕ → ℕ → Register → Register
  unfolding enlist index_op_items
  add_chan_op channel item s =
      if channel == 0 || item == 0
      then s
      else (let c = s.reg_chan channel in
          index_op_items channel (record s {
            reg_chan =
                set s.reg_chan channel
                  (record c { op = enlist (op_hash s) item c.op; ops = incr c.ops });
          }))

  unfoldable pub del_chan_op : ℕ → ℕ → Register → Register
  unfolding delist index_op_items
  del_chan_op channel item s =
      let c = s.reg_chan channel in
      index_op_items channel (
        free_cell (access_cell item) (record s {
          reg_chan =
              set s.reg_chan channel
                (record c { op = delist (op_hash s) fuel item c.op; ops = decr c.ops });
        }))

  unfoldable pub get_chan_op_data : ℕ → Option Bytes → Register → ℕ
  unfolding find get_reg_nick_data
  get_chan_op_data chan none s = 0
  get_chan_op_data chan (some nick) s =
      let r = get_reg_nick_data (some nick) s.nicks in
      let i = (s.nicks.reg_nick r).regnum in
      if chan == 0 || r == 0
      then 0
      else find (id_key i % ophashsize) (λ n. id_equal (s.access n).nick_id i) fuel
          (s.reg_chan chan).op

  unfoldable pub get_chan_akick : ℕ → Option Bytes → Register → ℕ
  unfolding walk
  get_chan_akick chan none s = 0
  get_chan_akick chan (some akick) s =
      let d = (s.reg_chan chan).akick in
      if chan == 0 then 0 else walk (λ n. same_name akick (s.mask n)) fuel d.first d.next

-- The nickname is given back, and nobody is identified any more.
unfoldable pub clear_chan_ident : ℕ → Register → Register
clear_chan_ident chan s =
    if chan == 0
    then s
    else (let r = s.reg_chan chan in
        let cleared : IdentifyData = record {
          nick = 0;
          idnum = record { a = 0; b = 0 };
          timestamp = 0;
        } in
        record (free_text r.id.nick s) {
          reg_chan = set s.reg_chan chan (record r { id = cleared });
        })

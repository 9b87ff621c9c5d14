-- ===== src/ChanServ/Online.antt =====
-- Channels in use, services/chanserv.c: their list and hash table, the members of each channel and its
-- bans. `FREE` is written down in `freed`. The pointers by which the members and the bans of a channel
-- are linked are kept with the channel; walks along a bucket run on fuel.
pub mod Listed
pub mod Members
pub mod Bans
use snservices.Base.{
  ℕ, zero, suc, Bool, true, false, not, ◌&&◌, ◌||◌, Option, none, some, List, [], ◌∷◌, map, ◌==◌,
  if◌then◌else◌, Bytes,
}
use snservices.Registry.{Dll, set, append, remove}
use snservices.Registry.Names.{same_name, key}
use snservices.Registry.Table.{Table, walk, find, enlist, delist}
use snservices.NickServ.{User}

abbrev pub chanhashsize : ℕ
chanhashsize = 523

abbrev pub chanuserhashsize : ℕ
chanuserhashsize = 53

-- `ChanList`, as far as it is used here.
pub record Chan : Type 0 where
  pub name : Bytes
  pub bans : Dll
  pub users : Table

pub data Cell : Type 0 where
  chan_cell : ℕ → Cell
  member_cell : ℕ → Cell
  ban_cell : ℕ → Cell

-- What stands at the addresses of channels, users, members (`cNickList.person`) and bans.
pub record Online : Type 0 where
  pub listed : Table
  pub chan : ℕ → Chan
  pub user : ℕ → User
  pub person : ℕ → ℕ
  pub ban : ℕ → Bytes
  pub freed : List Cell

abbrev pub chan_hash : Online → ℕ → ℕ
chan_hash s n = key chanhashsize (s.chan n).name

abbrev pub chan_test : Online → Bytes → ℕ → Bool
chan_test s name n = same_name (s.chan n).name name

abbrev pub member_hash : Online → ℕ → ℕ
member_hash s n = key chanuserhashsize (s.user (s.person n)).nick

abbrev pub with_users : ℕ → Table → Online → Online
with_users c t s = record s { chan = set s.chan c (record (s.chan c) { users = t }) }

abbrev pub with_bans : ℕ → Dll → Online → Online
with_bans c d s = record s { chan = set s.chan c (record (s.chan c) { bans = d }) }

abbrev pub free_cell : Cell → Online → Online
free_cell c s = record s { freed = c ∷ s.freed }

unfoldable pub add_chan_user : ℕ → ℕ → Online → Online
unfolding enlist
add_chan_user channel newnick s =
    if newnick == 0
    then s
    else with_users channel (enlist (member_hash s) newnick (s.chan channel).users) s

-- The table of the channels that a user is on forgets the channel.
unfoldable pub forget : ℕ → List ℕ → List ℕ
forget channel l = map (λ c. if c == channel then 0 else c) l

unfoldable pub leave : ℕ → ℕ → Online → Online
unfolding forget
leave channel p s = record s {
  user =
      if p == 0
      then s.user
      else set s.user p (record (s.user p) { chan = forget channel (s.user p).chan });
}

module _ (fuel : ℕ) where
  unfoldable pub get_chan_data : Option Bytes → Online → ℕ
  unfolding find
  get_chan_data none s = 0
  get_chan_data (some name) s = find (key chanhashsize name) (chan_test s name) fuel s.listed

  unfoldable pub add_chan : ℕ → Online → Online
  unfolding get_chan_data enlist
  add_chan newchan s =
      if get_chan_data (some (s.chan newchan).name) s == 0
      then record s { listed = enlist (chan_hash s) newchan s.listed }
      else free_cell (chan_cell newchan) s

  unfoldable pub del_chan : ℕ → Online → Online
  unfolding delist
  del_chan killme s =
      if killme == 0
      then s
      else free_cell (chan_cell killme)
          (record s { listed = delist (chan_hash s) fuel killme s.listed })

  unfoldable pub del_chan_user : ℕ → ℕ → Bool → Online → Online
  unfolding delist leave del_chan
  del_chan_user channel nick do_clean_chan s =
      if nick == 0 || channel == 0
      then s
      else (let unlinked =
            with_users channel (delist (member_hash s) fuel nick (s.chan channel).users) s in
          let s' = free_cell (member_cell nick) (leave channel (s.person nick) unlinked) in
          if do_clean_chan && (s'.chan channel).users.main.first == 0
          then del_chan channel s'
          else s')

  -- The person is compared by its address.
  unfoldable pub get_chan_user_data : ℕ → ℕ → Online → ℕ
  unfolding find
  get_chan_user_data chan data' s =
      if data' == 0 || chan == 0
      then 0
      else find (key chanuserhashsize (s.user data').nick)
          (λ n. not (s.person n == 0) && s.person n == data') fuel (s.chan chan).users

  unfoldable pub get_chan_ban : ℕ → Option Bytes → Online → ℕ
  unfolding walk
  get_chan_ban chan none s = 0
  get_chan_ban chan (some ban) s =
      if chan == 0
      then 0
      else walk (λ n. same_name ban (s.ban n)) fuel (s.chan chan).bans.first (s.chan chan).bans.next

unfoldable pub add_chan_ban : ℕ → ℕ → Online → Online
unfolding append
add_chan_ban channel item s = with_bans channel (append item (s.chan channel).bans) s

-- The item's own pointers after the removal.
abbrev pub clear : ℕ → Dll → Dll
clear n d = record d { next = set d.next n 0; prev = set d.prev n 0 }

-- `raise(SIGSEGV)` is `none`.
unfoldable pub del_chan_ban : ℕ → ℕ → Online → Option Online
unfolding remove
del_chan_ban channel item s =
    let d = (s.chan channel).bans in
    if d.next item == 0 && d.prev item == 0 && not (d.first == item)
    then none
    else some (free_cell (ban_cell item) (with_bans channel (clear item (remove item d)) s))

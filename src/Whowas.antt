-- ===== src/Whowas.antt =====
-- ircd/src/whowas.c: the history of nicknames, a ring of `size` entries (NICKNAMEHISTORYLENGTH). Clients
-- and user records are numbers in place of addresses, 0 for NULL; pointers into `was` are indices.
pub mod Newest
pub mod Added
pub mod Refs
pub mod Users
mod Examples
use Prim.Native.Nat.{bit_or}
use snservices.Base.{
  ℕ, zero, suc, ◌+◌, ◌-◌, Bool, true, false, not, ◌&&◌, ◌||◌, Option, none, some, List, [], ◌∷◌,
  leb, ltb, ◌==◌, if◌then◌else◌, Bytes, take,
}
use snservices.Ban.{same_text}
use snservices.Channel.{Channel}
use snservices.Channel.Ops.{is_chan_op, has_voice}

pub record WwChan : Type 0 where
  pub chname : Bytes
  pub pub_chan : Bool
  pub ucflags : ℕ

pub record Name : Type 0 where
  pub ww_user : ℕ
  pub ww_online : ℕ
  pub ww_logout : ℕ
  pub ww_nick : Bytes
  pub ww_info : Bytes
  pub ww_chans : List WwChan

-- `was` and `ww_index`, the `refcnt` of the user records, and which of these records have been freed.
pub record History : Type 0 where
  pub was : ℕ → Name
  pub ww_index : ℕ
  pub refcnt : ℕ → ℕ
  pub is_freed : ℕ → Bool

-- A channel of the client, its name and whether it is public.
pub record On : Type 0 where
  pub name : Bytes
  pub is_pub : Bool
  pub chptr : Channel

-- What is read of the client: `connected` says that `from` is not NULL.
pub record Who : Type 0 where
  pub id : ℕ
  pub name : Bytes
  pub info : Bytes
  pub user : ℕ
  pub connected : Bool
  pub channels : List On

abbrev pub put_at {ℓ} : {A : Type ℓ} → ℕ → A → (ℕ → A) → ℕ → A
put_at k a f j = if j == k then a else f j

-- `ucflags`, whose memory held `held` when the block was allocated.
pub uc_flags : ℕ → ℕ → Channel → ℕ
unfolding is_chan_op has_voice
uc_flags held id ch =
    if not (is_chan_op id ch == 0)
    then bit_or held 1
    else if not (has_voice id ch == 0)
    then bit_or held 2
    else held

-- The links are put in front, one after the other.
pub note_chans : ℕ → ℕ → List On → List WwChan → List WwChan
unfolding uc_flags
note_chans held id [] chans = chans
note_chans held id (on ∷ r) chans = note_chans held id r (
    record { chname = take 31 on.name; pub_chan = on.is_pub; ucflags = uc_flags held id on.chptr }
    ∷ chans)

-- `free_user` for a user record that is not NULL: the count after it, and whether the record is freed, for
-- which a count below 0 is as one of 0.
abbrev pub let_go : ℕ → (ℕ → ℕ) → ℕ → ℕ
let_go user refcnt = if user == 0 then refcnt else put_at user (refcnt user - 1) refcnt

abbrev pub free_at_0 : ℕ → (ℕ → ℕ) → (ℕ → Bool) → ℕ → Bool
free_at_0 user refcnt is_freed =
    if not (user == 0) && leb (refcnt user) 1 then put_at user true is_freed else is_freed

pub entry_of : ℕ → ℕ → Who → Name
unfolding note_chans
entry_of held now c = record {
  ww_user = c.user;
  ww_online = if c.connected then c.id else 0;
  ww_logout = now;
  ww_nick = take 17 c.name;
  ww_info = take 50 c.info;
  ww_chans = note_chans held c.id c.channels [];
}

module _ (size : ℕ) where
  unfoldable pub add_history : ℕ → ℕ → Who → History → History
  unfolding entry_of
  add_history held now c h =
      let old = (h.was h.ww_index).ww_user in
      let refcnt = let_go old h.refcnt in
      let index = h.ww_index + 1 in
      record {
        was = put_at h.ww_index (entry_of held now c) h.was;
        ww_index = if leb size index then 0 else index;
        refcnt = put_at c.user (refcnt c.user + 1) refcnt;
        is_freed = free_at_0 old h.refcnt h.is_freed;
      }

  -- The first test of the loop; `since` is `NOW - timelimit`.
  abbrev pub is_hit : Bytes → ℕ → Name → Bool
  is_hit nick since e = same_text nick e.ww_nick && leb since e.ww_logout

  -- `wp` and `i`.
  pub record Walk : Type 0 where
    pub wp : ℕ
    pub i : Bool

  abbrev pub step_back : Walk → Walk
  step_back w =
      if w.wp == 0 then record { wp = size - 1; i = true } else record { wp = w.wp - 1; i = w.i }

  -- The loop, on fuel.
  pub walk : (ℕ → Bool) → ℕ → ℕ → Walk → Option Walk
  walk hit wp2 zero w = none
  walk hit wp2 (suc fuel) w =
      let further = walk hit wp2 fuel (step_back w) in
      if hit w.wp then some w else if (step_back w).wp == wp2 then some (step_back w) else further

  abbrev pub newest : ℕ → ℕ
  newest ww_index = if ww_index == 0 then size - 1 else ww_index - 1

  abbrev pub online_at : History → ℕ → Option Walk → Option ℕ
  online_at h wp2 none = none
  online_at h wp2 (some w) =
      some (if not (w.wp == wp2) || not w.i then (h.was w.wp).ww_online else 0)

  -- The client, 0 for NULL; `none` would be a loop that is not at its end after `size` rounds.
  unfoldable pub get_history : Bytes → ℕ → ℕ → History → Option ℕ
  unfolding walk same_text
  get_history nick timelimit now h =
      let wp2 = newest h.ww_index in
      online_at h wp2 (
        walk (λ k. is_hit nick (now - timelimit) (h.was k)) wp2 size
          (record { wp = wp2; i = false }))

  unfoldable pub off_history : ℕ → History → History
  off_history cptr h = record h {
    was = λ k.
        if ltb k size && (h.was k).ww_online == cptr
        then record (h.was k) { ww_online = 0 }
        else h.was k;
  }

abbrev pub no_name : Name
no_name = record {
  ww_user = 0;
  ww_online = 0;
  ww_logout = 0;
  ww_nick = [];
  ww_info = [];
  ww_chans = [];
}

-- The table is cleared; `ww_index` is 0 from the start.
abbrev pub initwhowas : (ℕ → ℕ) → History
initwhowas refcnt = record {
  was = λ k. no_name;
  ww_index = 0;
  refcnt = refcnt;
  is_freed = λ u. false;
}

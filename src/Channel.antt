-- ===== src/Channel.antt =====
-- ircd/src/channel.c: who is on a channel and who is invited. Each link stands twice, in a list of the
-- channel and in one of the client, and the code keeps the two in step. Clients and channels are
-- told apart by numbers, in place of their addresses, and are read from the world.
pub mod Links
pub mod Linked
pub mod Sub1
pub mod Leave
pub mod Remove
pub mod AddInvite
pub mod Ops
pub mod Invite
mod Examples
use snservices.Base.{
  ℕ, zero, suc, ◌+◌, ◌-◌, Bool, true, false, Option, none, some, List, [], ◌∷◌, ◌++◌, leb, ◌==◌,
  if◌then◌else◌, length,
}

-- A link of `members`, and what it says of the member.
pub record Member : Type 0 where
  pub cptr : ℕ
  pub flags : ℕ

-- The parts of `struct Channel` that these functions use. `live` is false before the channel is made
-- and after its block is freed.
pub record Channel : Type 0 where
  pub live : Bool
  pub users : ℕ
  pub members : List Member
  pub invites : List ℕ
  pub banlist : List ℕ

-- Those of `struct User` and of the client's class.
pub record User : Type 0 where
  pub channel : List ℕ
  pub joined : ℕ
  pub invited : List ℕ
  pub maxchannels : ℕ

-- `has_user` says whether a client has a `struct User`.
pub record World : Type 0 where
  pub channels : ℕ → Channel
  pub users : ℕ → User
  pub has_user : ℕ → Bool

abbrev pub set_channel : ℕ → Channel → World → World
set_channel ch x w = record w { channels = λ k. if k == ch then x else w.channels k }

abbrev pub set_user : ℕ → User → World → World
set_user c u w = record w { users = λ k. if k == c then u else w.users k }

-- The first link with this value is taken out of the list.
pub unlink {ℓ} : {A : Type ℓ} → (A → ℕ) → ℕ → List A → List A
unlink value v [] = []
unlink value v (tmp ∷ r) =
    let further = unlink value v r in if value tmp == v then r else tmp ∷ further

pub is_linked {ℓ} : {A : Type ℓ} → (A → ℕ) → ℕ → List A → Bool
is_linked value v [] = false
is_linked value v (tmp ∷ r) =
    let further = is_linked value v r in if value tmp == v then true else further

abbrev pub self : ℕ → ℕ
self c = c

pub add_user_to_channel : ℕ → ℕ → ℕ → World → World
add_user_to_channel ch who flags w =
    if w.has_user who
    then (let x = w.channels ch in
        let m : Member = record { cptr = who; flags = flags } in
        let w' = set_channel ch (record x { members = m ∷ x.members; users = x.users + 1 }) w in
        let u = w'.users who in
        set_user who (record u { channel = ch ∷ u.channel; joined = u.joined + 1 }) w')
    else w

pub del_invite : ℕ → ℕ → World → World
unfolding unlink
del_invite c ch w =
    let x = w.channels ch in
    let w' = set_channel ch (record x { invites = unlink self c x.invites }) w in
    let u = w'.users c in set_user c (record u { invited = unlink self ch u.invited }) w'

-- `while ((tmp = chptr->invites)) del_invite(tmp->value.cptr, chptr);`, on fuel.
pub clear_invites : ℕ → ℕ → World → World
unfolding del_invite
clear_invites zero ch w = w
clear_invites (suc fuel) ch w = elim (w.channels ch).invites [
  | [] ↦ w
  | c ∷ _ ↦ clear_invites fuel ch (del_invite c ch w)
]

-- `banlist` is emptied and the channel leaves the list and the hash table.
abbrev pub freed : Channel → Channel
freed x = record x { banlist = []; live = false }

pub sub1_from_channel : ℕ → World → World
unfolding clear_invites
sub1_from_channel ch w =
    let x = w.channels ch in
    let w' = set_channel ch (record x { users = x.users - 1 }) w in
    if leb x.users 1
    then (let w'' = clear_invites (length x.invites) ch w' in
        set_channel ch (freed (w''.channels ch)) w'')
    else w'

-- The channel's side: the link goes, and one user with it.
pub leave_channel : ℕ → ℕ → World → World
unfolding unlink is_linked sub1_from_channel
leave_channel sptr ch w =
    let x = w.channels ch in
    if is_linked Member.cptr sptr x.members
    then sub1_from_channel ch
        (set_channel ch (record x { members = unlink Member.cptr sptr x.members }) w)
    else w

-- The client's side.
pub forget_channel : ℕ → ℕ → World → World
unfolding unlink is_linked
forget_channel sptr ch w =
    let u = w.users sptr in
    if is_linked self ch u.channel
    then set_user sptr (record u { channel = unlink self ch u.channel; joined = u.joined - 1 }) w
    else w

pub remove_user_from_channel : ℕ → ℕ → World → World
unfolding leave_channel forget_channel
remove_user_from_channel sptr ch w = forget_channel sptr ch (leave_channel sptr ch w)

-- `none` for a read through the null pointer that an empty list of invitations is.
pub add_invite : ℕ → ℕ → World → Option World
unfolding del_invite
add_invite c ch w =
    let w1 = del_invite c ch w in
    let u1 = w1.users c in
    let room : Option World =
      (if leb u1.maxchannels (length u1.invited)
        then elim u1.invited [ [] ↦ none | oldest ∷ _ ↦ some (del_invite c oldest w1) ]
        else some w1) in
    elim room [
      | none ↦ none
      | some w2 ↦
          let x = w2.channels ch in
          let w3 = set_channel ch (record x { invites = c ∷ x.invites }) w2 in
          let u = w3.users c in some (set_user c (record u { invited = u.invited ++ ch ∷ [] }) w3)
    ]

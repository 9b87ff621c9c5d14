-- ===== src/Channel/Linked.antt =====
-- The two lists of a link agree, and the counts with them.
use snservices.Base.{
  ℕ, suc, ◌+◌, ◌-◌, ◌≡◌, refl, sym, ap, ◌∙◌, inl, inr, Bool, true, false, ◌&&◌, [], ◌∷◌, ◌==◌,
  length, arith, Bool-cases, ==_iff,
}
use snservices.Channel.{
  Member, Channel, User, World, set_channel, set_user, self, add_user_to_channel,
}
use snservices.Channel.Links.{plus, occurs, less}

-- Every link has its counterpart, the two counters are the lengths of their lists, and a channel that is
-- not live has neither members nor invitations.
pub record Linked (w : World) : Type 0 where
  pub members_eq :
      (ch c : ℕ) → occurs Member.cptr c (w.channels ch).members ≡ occurs self ch (w.users c).channel
  pub invites_eq :
      (ch c : ℕ) → occurs self c (w.channels ch).invites ≡ occurs self ch (w.users c).invited
  pub users_eq : (ch : ℕ) → (w.channels ch).users ≡ length (w.channels ch).members
  pub joined_eq : (c : ℕ) → (w.users c).joined ≡ length (w.users c).channel
  pub dead :
      (ch : ℕ)
      → (w.channels ch).live ≡ false
      → ((w.channels ch).members ≡ []) × ((w.channels ch).invites ≡ [])

-- A write that changes nothing that `f` looks at.
module _ {ℓ} {B : Type ℓ} (w : World) where
  pub channel_kept :
      (f : Channel → B) (ch k : ℕ) (x : Channel)
      → f x ≡ f (w.channels ch)
      → f ((set_channel ch x w).channels k) ≡ f (w.channels k)
  channel_kept f ch k x h = elim (Bool-cases (k == ch)) [
    | inl e ↦ let q = (==_iff k ch).0 e in rw e (h ∙ ap (λ z. f (w.channels z)) (sym q))
    | inr e ↦ rw e refl
  ]

  pub user_kept :
      (f : User → B) (c k : ℕ) (u : User)
      → f u ≡ f (w.users c)
      → f ((set_user c u w).users k) ≡ f (w.users k)
  user_kept f c k u h = elim (Bool-cases (k == c)) [
    | inl e ↦ let q = (==_iff k c).0 e in rw e (h ∙ ap (λ z. f (w.users z)) (sym q))
    | inr e ↦ rw e refl
  ]

  -- A write that changes what `f` looks at by `g`.
  pub channel_changed :
      (f : Channel → B) (g : Bool → B → B) (ch k : ℕ) (x : Channel)
      → f x ≡ g true (f (w.channels ch))
      → ((b : B) → b ≡ g false b)
      → f ((set_channel ch x w).channels k) ≡ g (k == ch) (f (w.channels k))
  channel_changed f g ch k x h l = elim (Bool-cases (k == ch)) [
    | inl e ↦ let q = (==_iff k ch).0 e in rw e (h ∙ ap (λ z. g true (f (w.channels z))) (sym q))
    | inr e ↦ rw e (l (f (w.channels k)))
  ]

  pub user_changed :
      (f : User → B) (g : Bool → B → B) (c k : ℕ) (u : User)
      → f u ≡ g true (f (w.users c))
      → ((b : B) → b ≡ g false b)
      → f ((set_user c u w).users k) ≡ g (k == c) (f (w.users k))
  user_changed f g c k u h l = elim (Bool-cases (k == c)) [
    | inl e ↦ let q = (==_iff k c).0 e in rw e (h ∙ ap (λ z. g true (f (w.users z))) (sym q))
    | inr e ↦ rw e (l (f (w.users k)))
  ]

-- The two sides name the place of a link in the two orders.
pub less_swap : (a b : Bool) (n m : ℕ) → n ≡ m → less (a && b) n ≡ less (b && a) m
less_swap true true n m h = ap (λ z. z - 1) h
less_swap true false n m h = h
less_swap false true n m h = h
less_swap false false n m h = h

pub plus_swap : (a b : Bool) (n m : ℕ) → n ≡ m → plus (a && b) n ≡ plus (b && a) m
plus_swap true true n m h = ap suc h
plus_swap true false n m h = h
plus_swap false true n m h = h
plus_swap false false n m h = h

pub ==_sym : (a b : ℕ) → (a == b) ≡ (b == a)
==_sym a b = ground arith

-- What holds of every channel, or of every user, holds after a write that keeps it.
pub channel_all :
    (P : Channel → Type 0) (w : World) (ch : ℕ) (x : Channel)
    → P x
    → ((k : ℕ) → P (w.channels k))
    → (k : ℕ) → P ((set_channel ch x w).channels k)
channel_all P w ch x h i k = elim (Bool-cases (k == ch)) [ inl e ↦ rw e h | inr e ↦ rw e (i k) ]

pub user_all :
    (P : User → Type 0) (w : World) (c : ℕ) (u : User)
    → P u
    → ((k : ℕ) → P (w.users k))
    → (k : ℕ) → P ((set_user c u w).users k)
user_all P w c u h i k = elim (Bool-cases (k == c)) [ inl e ↦ rw e h | inr e ↦ rw e (i k) ]

abbrev pub UsersCounted : Channel → Type 0
UsersCounted x = x.users ≡ length x.members

abbrev pub JoinedCounted : User → Type 0
JoinedCounted u = u.joined ≡ length u.channel

abbrev pub Dead : Channel → Type 0
Dead x = x.live ≡ false → (x.members ≡ []) × (x.invites ≡ [])

-- The world after a user was added.
abbrev added : ℕ → ℕ → ℕ → World → World
added ch who flags w =
    let x = w.channels ch in
    let m : Member = record { cptr = who; flags = flags } in
    let u = w.users who in
    set_user who (record u { channel = ch ∷ u.channel; joined = u.joined + 1 })
      (set_channel ch (record x { members = m ∷ x.members; users = x.users + 1 }) w)

module _ (ch who flags : ℕ) (w : World) where
  added_lem : w.has_user who ≡ true → add_user_to_channel ch who flags w ≡ added ch who flags w
  unfolding add_user_to_channel
  added_lem h = rw h refl

  not_added : w.has_user who ≡ false → add_user_to_channel ch who flags w ≡ w
  unfolding add_user_to_channel
  not_added h = rw h refl

  added_members :
      (k c : ℕ)
      → occurs Member.cptr c ((added ch who flags w).channels k).members
        ≡ plus (k == ch && who == c) (occurs Member.cptr c (w.channels k).members)
  added_members k c =
      channel_changed w (λ (x : Channel). occurs Member.cptr c x.members)
        (λ a n. plus (a && who == c) n) ch k _ refl (λ b. refl)

  added_channel :
      (k c : ℕ)
      → occurs self k ((added ch who flags w).users c).channel
        ≡ plus (c == who && ch == k) (occurs self k (w.users c).channel)
  added_channel k c =
      user_changed w (λ (u : User). occurs self k u.channel) (λ a n. plus (a && ch == k) n) who c _
        refl (λ b. refl)

  added-Linked : (w.channels ch).live ≡ true → Linked w → Linked (added ch who flags w)
  added-Linked live i = record {
    members_eq = λ k c.
        added_members k c
        ∙ rw (==_sym who c, ==_sym ch k) (plus_swap (k == ch) (c == who) _ _ (i.members_eq k c))
        ∙ sym (added_channel k c);
    invites_eq = λ k c.
        channel_kept w (λ (x : Channel). occurs self c x.invites) ch k _ refl
        ∙ i.invites_eq k c
        ∙ sym (user_kept w (λ (u : User). occurs self k u.invited) who c _ refl);
    users_eq = channel_all UsersCounted w ch _ (omega (arith, i.users_eq ch)) i.users_eq;
    joined_eq = user_all JoinedCounted w who _ (omega (arith, i.joined_eq who)) i.joined_eq;
    dead = channel_all Dead w ch _ (λ d. absurd cc) i.dead;
  }

-- To add a client to a channel that is live keeps the links in step, also for a client without a
-- `struct User`.
pub add_user_to_channel-Linked :
    (ch who flags : ℕ) (w : World)
    → (w.channels ch).live ≡ true
    → Linked w
    → Linked (add_user_to_channel ch who flags w)
add_user_to_channel-Linked ch who flags w live i = elim (Bool-cases (w.has_user who)) [
  | inr e ↦ rw (not_added ch who flags w e) i
  | inl e ↦ rw (added_lem ch who flags w e) (added-Linked ch who flags w live i)
]

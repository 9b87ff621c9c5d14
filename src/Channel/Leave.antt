-- ===== src/Channel/Leave.antt =====
-- A user leaves: the channel's side.
use snservices.Base.{
  ℕ, ◌-◌, ◌≡◌, refl, sym, ap, ◌∙◌, ◌⊎◌, inl, inr, Bool, true, false, ◌&&◌, List, [], ◌∷◌, ◌==◌,
  length, arith, Bool-cases, ==_iff,
}
use snservices.Channel.{
  Member, Channel, User, World, set_channel, unlink, is_linked, self, sub1_from_channel,
  leave_channel,
}
use snservices.Channel.Links.{occurs, less, occurs-unlink, length-unlink, occurs-not_linked}
use snservices.Channel.Linked.{
  Linked, channel_kept, channel_changed, channel_all, Dead, UsersCounted,
}
use snservices.Channel.Sub1.{
  sub1-channel, sub1-user, sub1-InvitesEq, sub1-Dead, decremented, AllDead,
}
use snservices.Channel.Invite.{InvitesEq}

pub less_zero : (b : Bool) (n : ℕ) → (b ≡ true → n ≡ 0) → n ≡ less b n
less_zero true n h = omega (arith, h refl)
less_zero false n h = refl

pub both : (a b : Bool) → (a && b) ≡ true → (a ≡ true) × (b ≡ true)
both true true h = (refl, refl)
both true false h = absurd cc
both false b h = absurd cc

nil_if : {A : Type 0} (xs : List A) → length xs ≡ 0 → xs ≡ []
nil_if [] h = refl
nil_if (x ∷ r) h = absurd (omega arith)

module _ (sptr ch : ℕ) (w : World) where
  abbrev pub members : List Member
  members = (w.channels ch).members

  abbrev left : World
  left = set_channel ch (record (w.channels ch) { members = unlink Member.cptr sptr members }) w

  leave_cases :
      ((is_linked Member.cptr sptr members ≡ true)
        × (leave_channel sptr ch w ≡ sub1_from_channel ch left))
      ⊎ ((is_linked Member.cptr sptr members ≡ false) × (leave_channel sptr ch w ≡ w))
  unfolding leave_channel
  leave_cases = elim (Bool-cases (is_linked Member.cptr sptr members)) [
    | inl e ↦ inl (e, rw e refl)
    | inr e ↦ inr (e, rw e refl)
  ]

  pub leave-members :
      (k c : ℕ)
      → occurs Member.cptr c ((leave_channel sptr ch w).channels k).members
        ≡ less (k == ch && c == sptr) (occurs Member.cptr c (w.channels k).members)
  leave-members k c = elim leave_cases [
    | inl (_, e) ↦ rw e (
        sub1-channel ch left f k (λ _ _. refl) (λ _. refl)
        ∙ channel_kept left f ch k _ refl
        ∙ channel_changed w f (λ a n. less (a && c == sptr) n) ch k _
            (occurs-unlink Member.cptr sptr c members) (λ b. refl))
    | inr (none_there, e) ↦ rw e (
        less_zero (k == ch && c == sptr) _ λ b.
          let (p, q) = both (k == ch) (c == sptr) b in
          rw ((==_iff k ch).0 p, (==_iff c sptr).0 q)
            (occurs-not_linked Member.cptr sptr members none_there))
  ]
    where
      f : Channel → ℕ
      f x = occurs Member.cptr c x.members

  pub leave-user :
      {B : Type 0} (f : User → B) (k : ℕ)
      → ((u : User) (l : List ℕ) → f (record u { invited = l }) ≡ f u)
      → f ((leave_channel sptr ch w).users k) ≡ f (w.users k)
  leave-user f k h = elim leave_cases [
    | inl (_, e) ↦ rw e (sub1-user ch left f k h)
    | inr (_, e) ↦ rw e refl
  ]

  pub leave-InvitesEq : InvitesEq w → InvitesEq (leave_channel sptr ch w)
  leave-InvitesEq i = elim leave_cases [
    | inl (_, e) ↦ rw e (
        sub1-InvitesEq ch left
          λ k j. channel_kept w (λ (x : Channel). occurs self j x.invites) ch k _ refl ∙ i k j)
    | inr (_, e) ↦ rw e i
  ]

  left_users : (left.channels ch).users ≡ (w.channels ch).users
  left_users = channel_kept w Channel.users ch ch _ refl

  left_members : (left.channels ch).members ≡ unlink Member.cptr sptr members
  left_members = let q : (ch == ch) ≡ true = (==_iff ch ch).1 refl in rw q refl

  pub leave-UsersCounted :
      ((k : ℕ) → UsersCounted (w.channels k))
      → (k : ℕ) → UsersCounted ((leave_channel sptr ch w).channels k)
  leave-UsersCounted i k = elim leave_cases [
    | inr (_, e) ↦ rw e (i k)
    | inl (h, e) ↦
        let l = (length-unlink Member.cptr sptr members h).0 in
        rw e (
          sub1-channel ch left Channel.users k (λ _ _. refl) (λ _. refl)
          ∙ counted (omega (arith, l, i ch, left_users, ap length left_members))
          ∙ sym (
              sub1-channel ch left (λ (x : Channel). length x.members) k (λ _ _. refl) (λ _. refl)))
  ]
    where
      counted :
          (left.channels ch).users - 1 ≡ length (left.channels ch).members
          → UsersCounted ((decremented ch left).channels k)
      counted h = elim (Bool-cases (k == ch)) [ inl e ↦ rw e h | inr e ↦ rw e (i k) ]

  pub leave-Dead : Linked w → AllDead ch w (leave_channel sptr ch w)
  leave-Dead i = elim leave_cases [
    | inr (_, e) ↦ rw e i.dead
    | inl (h, e) ↦
        let (l, o) = length-unlink Member.cptr sptr members h in
        rw e (
          sub1-Dead ch left
            (λ few. left_members ∙ nil_if _ (ground (arith, l, i.users_eq ch, left_users, few)))
            (channel_all Dead w ch _ (λ d. absurd (omega (arith, l, ap length (i.dead ch d).0)))
              i.dead))
  ]

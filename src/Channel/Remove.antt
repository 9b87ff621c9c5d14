-- ===== src/Channel/Remove.antt =====
-- A user leaves: both sides together.
use snservices.Base.{
  ℕ, ◌-◌, ◌≡◌, refl, sym, ap, ◌∙◌, ◌⊎◌, inl, inr, true, false, ◌&&◌, ◌==◌, length, arith,
  Bool-cases, ==_iff,
}
use snservices.Channel.{
  Member, Channel, User, World, set_user, unlink, is_linked, self, leave_channel, forget_channel,
  remove_user_from_channel,
}
use snservices.Channel.Links.{occurs, less, occurs-unlink, length-unlink, occurs-not_linked}
use snservices.Channel.Linked.{Linked, user_kept, user_changed, less_swap, user_all, JoinedCounted}
use snservices.Channel.Leave.{
  less_zero, both, leave-members, leave-user, leave-InvitesEq, leave-UsersCounted, leave-Dead,
}

module _ (sptr ch : ℕ) (w : World) where
  abbrev forgot : World
  forgot =
      let u = w.users sptr in
      set_user sptr (record u { channel = unlink self ch u.channel; joined = u.joined - 1 }) w

  forget_cases :
      ((is_linked self ch (w.users sptr).channel ≡ true) × (forget_channel sptr ch w ≡ forgot))
      ⊎ ((is_linked self ch (w.users sptr).channel ≡ false) × (forget_channel sptr ch w ≡ w))
  unfolding forget_channel
  forget_cases = elim (Bool-cases (is_linked self ch (w.users sptr).channel)) [
    | inl e ↦ inl (e, rw e refl)
    | inr e ↦ inr (e, rw e refl)
  ]

  forget-channels : (k : ℕ) → (forget_channel sptr ch w).channels k ≡ w.channels k
  forget-channels k = elim forget_cases [ inl (_, e) ↦ rw e refl | inr (_, e) ↦ rw e refl ]

  forget-channel :
      (k c : ℕ)
      → occurs self k ((forget_channel sptr ch w).users c).channel
        ≡ less (c == sptr && k == ch) (occurs self k (w.users c).channel)
  forget-channel k c = elim forget_cases [
    | inl (_, e) ↦ rw e (
        user_changed w (λ (u : User). occurs self k u.channel) (λ a n. less (a && k == ch) n) sptr c
          _ (occurs-unlink self ch k (w.users sptr).channel) (λ b. refl))
    | inr (none_there, e) ↦ rw e (
        less_zero (c == sptr && k == ch) _ λ b.
          let (p, q) = both (c == sptr) (k == ch) b in
          rw ((==_iff c sptr).0 p, (==_iff k ch).0 q)
            (occurs-not_linked self ch (w.users sptr).channel none_there))
  ]

  forget-invited : (c : ℕ) → ((forget_channel sptr ch w).users c).invited ≡ (w.users c).invited
  forget-invited c = elim forget_cases [
    | inl (_, e) ↦ rw e (user_kept w User.invited sptr c _ refl)
    | inr (_, e) ↦ rw e refl
  ]

  forget-JoinedCounted :
      ((c : ℕ) → JoinedCounted (w.users c))
      → (c : ℕ) → JoinedCounted ((forget_channel sptr ch w).users c)
  forget-JoinedCounted i = elim forget_cases [
    | inr (_, e) ↦ rw e i
    | inl (h, e) ↦
        let l = (length-unlink self ch (w.users sptr).channel h).0 in
        rw e (user_all JoinedCounted w sptr _ (omega (arith, l, i sptr)) i)
  ]

-- The links of members, one by one, after a user was removed.
remove-members :
    (sptr ch : ℕ) (w : World) (k c : ℕ)
    → occurs Member.cptr c ((remove_user_from_channel sptr ch w).channels k).members
      ≡ less (k == ch && c == sptr) (occurs Member.cptr c (w.channels k).members)
unfolding remove_user_from_channel
remove-members sptr ch w k c =
    ap (λ (x : Channel). occurs Member.cptr c x.members)
      (forget-channels sptr ch (leave_channel sptr ch w) k)
    ∙ leave-members sptr ch w k c

-- To remove a user from a channel keeps the links in step, whether or not the user is on it, and also
-- when the channel goes with its last user.
pub remove_user_from_channel-Linked :
    (sptr ch : ℕ) (w : World) → Linked w → Linked (remove_user_from_channel sptr ch w)
unfolding remove_user_from_channel
remove_user_from_channel-Linked sptr ch w i = record {
  members_eq = λ k c.
      remove-members sptr ch w k c
      ∙ less_swap (k == ch) (c == sptr) _ _ (i.members_eq k c)
      ∙ sym (
          forget-channel sptr ch v k c
          ∙ ap (less (c == sptr && k == ch))
              (leave-user sptr ch w (λ (u : User). occurs self k u.channel) c (λ _ _. refl)));
  invites_eq = λ k c.
      ap (λ (x : Channel). occurs self c x.invites) (forget-channels sptr ch v k)
      ∙ leave-InvitesEq sptr ch w i.invites_eq k c
      ∙ ap (occurs self k) (sym (forget-invited sptr ch v c));
  users_eq = λ k. rw (forget-channels sptr ch v k) (leave-UsersCounted sptr ch w i.users_eq k);
  joined_eq = forget-JoinedCounted sptr ch v λ c.
      leave-user sptr ch w User.joined c (λ _ _. refl)
      ∙ i.joined_eq c
      ∙ sym (leave-user sptr ch w (λ (u : User). length u.channel) c (λ _ _. refl));
  dead = λ k. rw (forget-channels sptr ch v k) (leave-Dead sptr ch w i k);
}
  where
    v : World
    v = leave_channel sptr ch w

-- When the links are in step, no client has a link to a channel that is not live: neither as a
-- channel that the client is on nor as one that it is invited to.
pub Linked-no_dangling :
    (w : World) (ch : ℕ)
    → Linked w
    → (w.channels ch).live ≡ false
    → (c : ℕ) → (occurs self ch (w.users c).channel ≡ 0) × (occurs self ch (w.users c).invited ≡ 0)
Linked-no_dangling w ch i d c = (
  sym (i.members_eq ch c) ∙ ap (occurs Member.cptr c) (i.dead ch d).0,
  sym (i.invites_eq ch c) ∙ ap (occurs self c) (i.dead ch d).1,
)

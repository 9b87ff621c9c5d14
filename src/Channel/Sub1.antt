-- ===== src/Channel/Sub1.antt =====
-- `sub1_from_channel`: the last user takes the channel along.
use snservices.Base.{
  ℕ, ◌-◌, ◌≡◌, refl, sym, ap, ◌∙◌, ◌⊎◌, inl, inr, true, false, List, [], leb, length, Bool-cases,
}
use snservices.Channel.{
  Channel, User, World, set_channel, self, clear_invites, freed, sub1_from_channel,
}
use snservices.Channel.Links.{occurs}
use snservices.Channel.Linked.{channel_kept, channel_all, Dead}
use snservices.Channel.Invite.{
  InvitesEq, del_invite-channel, del_invite-user, del_invite-InvitesEq, del_invite-Dead, clear_all,
  clear_invites-empty,
}

module _ (ch : ℕ) (w : World) where
  abbrev pub decremented : World
  decremented = let x = w.channels ch in set_channel ch (record x { users = x.users - 1 }) w

  abbrev cleared : World
  cleared = clear_invites (length (w.channels ch).invites) ch decremented

  abbrev emptied : World
  emptied = set_channel ch (freed (cleared.channels ch)) cleared

  sub1_cases :
      ((leb (w.channels ch).users 1 ≡ true) × (sub1_from_channel ch w ≡ emptied))
      ⊎ ((leb (w.channels ch).users 1 ≡ false) × (sub1_from_channel ch w ≡ decremented))
  unfolding sub1_from_channel
  sub1_cases = elim (Bool-cases (leb (w.channels ch).users 1)) [
    | inl e ↦ inl (e, rw e refl)
    | inr e ↦ inr (e, rw e refl)
  ]

  -- What depends neither on the invitations nor on what a freed channel loses.
  pub sub1-channel :
      {B : Type 0} (f : Channel → B) (k : ℕ)
      → ((x : Channel) (l : List ℕ) → f (record x { invites = l }) ≡ f x)
      → ((x : Channel) → f (freed x) ≡ f x)
      → f ((sub1_from_channel ch w).channels k) ≡ f (decremented.channels k)
  sub1-channel f k h hf = elim sub1_cases [
    | inr (_, e) ↦ rw e refl
    | inl (_, e) ↦ rw e (
        channel_kept cleared f ch k _ (hf _)
        ∙ clear_all ch (λ v. f (v.channels k) ≡ f (decremented.channels k))
            (λ c v p. del_invite-channel c ch v f k h ∙ p) _ decremented refl)
  ]

  pub sub1-user :
      {B : Type 0} (f : User → B) (k : ℕ)
      → ((u : User) (l : List ℕ) → f (record u { invited = l }) ≡ f u)
      → f ((sub1_from_channel ch w).users k) ≡ f (w.users k)
  sub1-user f k h = elim sub1_cases [
    | inr (_, e) ↦ rw e refl
    | inl (_, e) ↦ rw e (
        clear_all ch (λ v. f (v.users k) ≡ f (w.users k))
          (λ c v p. del_invite-user c ch v f k h ∙ p) _ decremented refl)
  ]

  decremented-InvitesEq : InvitesEq w → InvitesEq decremented
  decremented-InvitesEq i k j =
      channel_kept w (λ (x : Channel). occurs self j x.invites) ch k _ refl ∙ i k j

  pub sub1-InvitesEq : InvitesEq w → InvitesEq (sub1_from_channel ch w)
  sub1-InvitesEq i = elim sub1_cases [
    | inr (_, e) ↦ rw e (decremented-InvitesEq i)
    | inl (_, e) ↦ rw e λ k j.
        channel_kept cleared (λ (x : Channel). occurs self j x.invites) ch k _ refl
        ∙ clear_all ch InvitesEq (λ c v. del_invite-InvitesEq c ch v) _ decremented
            (decremented-InvitesEq i) k j
  ]

  abbrev pub AllDead : World → Type 0
  AllDead v = (k : ℕ) → Dead (v.channels k)

  decremented-Dead : AllDead w → AllDead decremented
  decremented-Dead i = channel_all Dead w ch _ (i ch) i

  pub sub1-Dead :
      (leb (w.channels ch).users 1 ≡ true → (w.channels ch).members ≡ [])
      → AllDead w
      → AllDead (sub1_from_channel ch w)
  sub1-Dead empty i = elim sub1_cases [
    | inr (_, e) ↦ rw e (decremented-Dead i)
    | inl (few, e) ↦ rw e (
        channel_all Dead cleared ch _ (λ _. (no_members few, no_invites))
          (clear_all ch AllDead (λ c v. del_invite-Dead c ch v) _ decremented (decremented-Dead i)))
  ]
    where
      no_invites : (cleared.channels ch).invites ≡ []
      no_invites =
          clear_invites-empty ch (length (w.channels ch).invites) decremented
            (ap length (sym (channel_kept w Channel.invites ch ch _ refl)))

      no_members : leb (w.channels ch).users 1 ≡ true → (cleared.channels ch).members ≡ []
      no_members few =
          clear_all ch (λ v. (v.channels ch).members ≡ (decremented.channels ch).members)
            (λ c v p. del_invite-channel c ch v Channel.members ch (λ _ _. refl) ∙ p) _ decremented
            refl
          ∙ channel_kept w Channel.members ch ch _ refl
          ∙ empty few

-- ===== src/Channel/Invite.antt =====
-- Invitations are taken back on both sides.
use snservices.Base.{
  ℕ, zero, suc, ◌≡◌, refl, sym, ap, ◌∙◌, inl, inr, true, ◌&&◌, List, [], ◌∷◌, ◌==◌, length, arith,
  List-cases, ==_iff, subst,
}
use snservices.Channel.{Member, Channel, User, World, unlink, self, del_invite, clear_invites}
use snservices.Channel.Links.{occurs, less, occurs-unlink}
use snservices.Channel.Linked.{
  Linked, channel_kept, user_kept, channel_changed, user_changed, less_swap, channel_all, Dead,
  UsersCounted, JoinedCounted,
}

abbrev pub InvitesEq : World → Type 0
InvitesEq w =
    (ch c : ℕ) → occurs self c (w.channels ch).invites ≡ occurs self ch (w.users c).invited

unlink-nil : (v : ℕ) (xs : List ℕ) → xs ≡ [] → unlink self v xs ≡ []
unfolding unlink
unlink-nil v xs e = rw e refl

unlink-head : (c : ℕ) (r : List ℕ) → unlink self c (c ∷ r) ≡ r
unfolding unlink
unlink-head c r = ground arith

module _ (c ch : ℕ) (w : World) where
  -- Nothing else of a channel or a user changes.
  pub del_invite-channel {ℓ} :
      {B : Type ℓ} (f : Channel → B) (k : ℕ)
      → ((x : Channel) (l : List ℕ) → f (record x { invites = l }) ≡ f x)
      → f ((del_invite c ch w).channels k) ≡ f (w.channels k)
  unfolding del_invite
  del_invite-channel f k h = channel_kept w f ch k _ (h _ _)

  pub del_invite-user {ℓ} :
      {B : Type ℓ} (f : User → B) (k : ℕ)
      → ((u : User) (l : List ℕ) → f (record u { invited = l }) ≡ f u)
      → f ((del_invite c ch w).users k) ≡ f (w.users k)
  unfolding del_invite
  del_invite-user f k h = user_kept w f c k _ (h _ _)

  del_invite-invites :
      (k j : ℕ)
      → occurs self j ((del_invite c ch w).channels k).invites
        ≡ less (k == ch && j == c) (occurs self j (w.channels k).invites)
  unfolding del_invite
  del_invite-invites k j =
      channel_changed w (λ (x : Channel). occurs self j x.invites) (λ a n. less (a && j == c) n) ch
        k _ (occurs-unlink self c j (w.channels ch).invites) (λ b. refl)

  del_invite-invited :
      (k j : ℕ)
      → occurs self k ((del_invite c ch w).users j).invited
        ≡ less (j == c && k == ch) (occurs self k (w.users j).invited)
  unfolding del_invite
  del_invite-invited k j =
      user_changed w (λ (u : User). occurs self k u.invited) (λ a n. less (a && k == ch) n) c j _
        (occurs-unlink self ch k (w.users c).invited) (λ b. refl)

  pub del_invite-InvitesEq : InvitesEq w → InvitesEq (del_invite c ch w)
  del_invite-InvitesEq i k j =
      del_invite-invites k j
      ∙ less_swap (k == ch) (j == c) _ _ (i k j)
      ∙ sym (del_invite-invited k j)

  pub del_invite-Dead :
      ((k : ℕ) → Dead (w.channels k)) → (k : ℕ) → Dead ((del_invite c ch w).channels k)
  unfolding del_invite
  del_invite-Dead i = channel_all Dead w ch _ (λ d. ((i ch d).0, unlink-nil c _ (i ch d).1)) i

  del_invite-head :
      (r : List ℕ) → (w.channels ch).invites ≡ c ∷ r → ((del_invite c ch w).channels ch).invites ≡ r
  unfolding del_invite
  del_invite-head r e =
      let q : (ch == ch) ≡ true = (==_iff ch ch).1 refl in rw (q, e) (unlink-head c r)

-- To take back an invitation keeps the links in step.
pub del_invite-Linked : (c ch : ℕ) (w : World) → Linked w → Linked (del_invite c ch w)
del_invite-Linked c ch w i = record {
  members_eq = λ k j.
      del_invite-channel c ch w (λ (x : Channel). occurs Member.cptr j x.members) k (λ _ _. refl)
      ∙ i.members_eq k j
      ∙ sym (del_invite-user c ch w (λ (u : User). occurs self k u.channel) j (λ _ _. refl));
  invites_eq = del_invite-InvitesEq c ch w i.invites_eq;
  users_eq = λ k.
      subst (λ z. z) (sym (del_invite-channel c ch w UsersCounted k (λ _ _. refl))) (i.users_eq k);
  joined_eq = λ k.
      subst (λ z. z) (sym (del_invite-user c ch w JoinedCounted k (λ _ _. refl))) (i.joined_eq k);
  dead = del_invite-Dead c ch w i.dead;
}

module _ (ch : ℕ) where
  clear_nil :
      (fuel : ℕ) (w : World) → (w.channels ch).invites ≡ [] → clear_invites (suc fuel) ch w ≡ w
  unfolding clear_invites
  clear_nil fuel w e = ground arith

  clear_cons :
      (fuel : ℕ) (w : World) (c : ℕ) (r : List ℕ)
      → (w.channels ch).invites ≡ c ∷ r
      → clear_invites (suc fuel) ch w ≡ clear_invites fuel ch (del_invite c ch w)
  unfolding clear_invites
  clear_cons fuel w c r e = ground arith

  -- What `del_invite` keeps, the loop keeps.
  pub clear_all :
      (P : World → Type 0)
      → ((c : ℕ) (w : World) → P w → P (del_invite c ch w))
      → (fuel : ℕ) (w : World) → P w
      → P (clear_invites fuel ch w)
  unfolding clear_invites
  clear_all P step zero w h = h
  clear_all P step (suc fuel) w h = elim (List-cases (w.channels ch).invites) [
    | inl e ↦ rw (clear_nil fuel w e) h
    | inr (c, r, e) ↦
        rw (clear_cons fuel w c r e) (clear_all P step fuel (del_invite c ch w) (step c w h))
  ]

  -- As many turns as there are invitations leave none.
  pub clear_invites-empty :
      (fuel : ℕ) (w : World)
      → fuel ≡ length (w.channels ch).invites
      → ((clear_invites fuel ch w).channels ch).invites ≡ []
  unfolding clear_invites
  clear_invites-empty zero w h = elim (List-cases (w.channels ch).invites) [
    | inl e ↦ e
    | inr (c, r, e) ↦ absurd (omega (arith, ap length e))
  ]
  clear_invites-empty (suc fuel) w h = elim (List-cases (w.channels ch).invites) [
    | inl e ↦ absurd (omega (arith, ap length e))
    | inr (c, r, e) ↦ rw (clear_cons fuel w c r e) (
        clear_invites-empty fuel (del_invite c ch w)
          (omega (arith, ap length e, ap length (del_invite-head c ch w r e))))
  ]

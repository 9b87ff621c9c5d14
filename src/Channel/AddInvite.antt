-- ===== src/Channel/AddInvite.antt =====
-- An invitation: on both sides, and never more of them than a client may be on channels.
use snservices.Base.{
  ℕ, suc, ◌+◌, ◌≤◌, ◌<◌, ◌≡◌, refl, sym, ap, ◌∙◌, inl, inr, Bool, true, false, ◌&&◌, some, List, [],
  ◌∷◌, ◌++◌, leb, ◌==◌, length, length-append, arith, Bool-cases, List-cases, ==_iff,
}
use snservices.Channel.{
  Member, Channel, User, World, set_channel, set_user, unlink, self, del_invite, add_invite,
}
use snservices.Channel.Links.{plus, occurs, occurs-append}
use snservices.Channel.Linked.{
  Linked, channel_kept, user_kept, channel_changed, user_changed, plus_swap, channel_all, user_all,
  Dead, UsersCounted, JoinedCounted, ==_sym,
}
use snservices.Channel.Invite.{del_invite-channel, del_invite-user, del_invite-Linked}

length-unlink_le : (v : ℕ) (xs : List ℕ) → length (unlink self v xs) ≤ length xs
unfolding unlink
length-unlink_le v [] = omega arith
length-unlink_le v (x ∷ r) = elim (Bool-cases (x == v)) [
  | inl e ↦ rw e (omega arith)
  | inr e ↦ let k = length-unlink_le v r in rw e (omega (arith, k))
]

length-unlink_head : (v : ℕ) (r : List ℕ) → length (unlink self v (v ∷ r)) ≡ length r
unfolding unlink
length-unlink_head v r = ground arith

plus_last : (b : Bool) (n : ℕ) → n + plus b 0 ≡ plus b n
plus_last true n = omega arith
plus_last false n = omega arith

module _ (c ch : ℕ) where
  -- The last part of `add_invite`.
  abbrev invite : World → World
  invite w =
      let x = w.channels ch in
      let w' = set_channel ch (record x { invites = c ∷ x.invites }) w in
      let u = w'.users c in set_user c (record u { invited = u.invited ++ ch ∷ [] }) w'

  module _ (w : World) where
    invite-invites :
        (k j : ℕ)
        → occurs self j ((invite w).channels k).invites
          ≡ plus (k == ch && c == j) (occurs self j (w.channels k).invites)
    invite-invites k j =
        channel_changed w (λ (x : Channel). occurs self j x.invites) (λ a n. plus (a && c == j) n)
          ch k _ refl (λ b. refl)

    invite-invited :
        (k j : ℕ)
        → occurs self k ((invite w).users j).invited
          ≡ plus (j == c && ch == k) (occurs self k (w.users j).invited)
    invite-invited k j =
        user_changed w (λ (u : User). occurs self k u.invited) (λ a n. plus (a && ch == k) n) c j _
          (occurs-append self k (w.users c).invited (ch ∷ []) ∙ plus_last (ch == k) _) (λ b. refl)

    invite-Linked : (w.channels ch).live ≡ true → Linked w → Linked (invite w)
    invite-Linked live i = record {
      members_eq = λ k j.
          channel_kept w (λ (x : Channel). occurs Member.cptr j x.members) ch k _ refl
          ∙ i.members_eq k j
          ∙ sym (user_kept w (λ (u : User). occurs self k u.channel) c j _ refl);
      invites_eq = λ k j.
          invite-invites k j
          ∙ rw (==_sym c j, ==_sym ch k) (plus_swap (k == ch) (j == c) _ _ (i.invites_eq k j))
          ∙ sym (invite-invited k j);
      users_eq = channel_all UsersCounted w ch _ (i.users_eq ch) i.users_eq;
      joined_eq = user_all JoinedCounted w c _ (i.joined_eq c) i.joined_eq;
      dead = channel_all Dead w ch _ (λ d. absurd cc) i.dead;
    }

    invite_length : length ((invite w).users c).invited ≡ suc (length (w.users c).invited)
    invite_length =
        let q : (c == c) ≡ true = (==_iff c c).1 refl in
        rw q (length-append (w.users c).invited (ch ∷ []) ∙ omega arith)

    invite_maxchannels : ((invite w).users c).maxchannels ≡ (w.users c).maxchannels
    invite_maxchannels = user_kept w User.maxchannels c c _ refl

    abbrev w1 : World
    w1 = del_invite c ch w

    room :
        leb (w1.users c).maxchannels (length (w1.users c).invited) ≡ false
        → add_invite c ch w ≡ some (invite w1)
    unfolding add_invite
    room e = ground arith

    full :
        (oldest : ℕ) (r : List ℕ)
        → leb (w1.users c).maxchannels (length (w1.users c).invited) ≡ true
        → (w1.users c).invited ≡ oldest ∷ r
        → add_invite c ch w ≡ some (invite (del_invite c oldest w1))
    unfolding add_invite
    full oldest r e q = ground arith

  del_invite-length :
      (d : ℕ) (w : World) → ((del_invite c d w).users c).invited ≡ unlink self d (w.users c).invited
  unfolding del_invite
  del_invite-length d w = let q : (c == c) ≡ true = (==_iff c c).1 refl in rw q refl

-- The client has at most as many invitations as its class allows channels.
abbrev pub Bounded : ℕ → World → Type 0
Bounded c w = length (w.users c).invited ≤ (w.users c).maxchannels

-- To invite a client to a live channel, if its class allows at least one channel: the result exists, the
-- links are in step, and the client has still no more invitations than it may have channels.
pub add_invite-Linked :
    (c ch : ℕ) (w : World)
    → (w.channels ch).live ≡ true
    → 0 < (w.users c).maxchannels
    → Linked w
    → Bounded c w
    → (w' : World) × (add_invite c ch w ≡ some w') × Linked w' × Bounded c w'
add_invite-Linked c ch w live some_room i b =
    elim (Bool-cases (leb (v.users c).maxchannels (length (v.users c).invited))) [
      | inl e ↦ elim (List-cases (v.users c).invited) [
        | inl q ↦ absurd (ground (arith, max_eq, ap length q))
        | inr (oldest, r, q) ↦
            finish (del_invite c oldest v) (del_invite-Linked c oldest v vi)
              (del_invite-channel c oldest v Channel.live ch (λ _ _. refl) ∙ live_v)
              (omega (
                arith,
                b,
                shorter,
                max_eq,
                del_invite-user c oldest v User.maxchannels c (λ _ _. refl),
                ap length (del_invite-length c ch oldest v),
                ap (λ l. length (unlink self oldest l)) q,
                length-unlink_head oldest r,
                ap length q,
                some_room,
              ))
              (full c ch w oldest r e q)
      ]
      | inr e ↦ finish v vi live_v (ground arith) (room c ch w e)
    ]
  where
    v : World
    v = del_invite c ch w

    max_eq : (v.users c).maxchannels ≡ (w.users c).maxchannels
    max_eq = del_invite-user c ch w User.maxchannels c (λ _ _. refl)

    vi : Linked v
    vi = del_invite-Linked c ch w i

    live_v : (v.channels ch).live ≡ true
    live_v = del_invite-channel c ch w Channel.live ch (λ _ _. refl) ∙ live

    shorter : length (v.users c).invited ≤ length (w.users c).invited
    shorter =
        omega
          (arith, ap length (del_invite-length c ch ch w), length-unlink_le ch (w.users c).invited)

    finish :
        (u : World)
        → Linked u
        → (u.channels ch).live ≡ true
        → length (u.users c).invited < (u.users c).maxchannels
        → add_invite c ch w ≡ some (invite c ch u)
        → (w' : World) × (add_invite c ch w ≡ some w') × Linked w' × Bounded c w'
    finish u k l h e = (
      invite c ch u,
      e,
      invite-Linked c ch u l k,
      omega (arith, invite_length c ch u, invite_maxchannels c ch u, h),
    )

-- ===== src/Ban/Removal.antt =====
-- `add_banid`, `del_banid` and `find_banid` of ircd/src/channel.c together.
use snservices.Base.{
  ℕ, ◌≡◌, refl, sym, ◌∙◌, ap, subst, inl, inr, true, false, Option, none, some, List, [], ◌∷◌,
  Bytes, Bool-cases, ==_iff, All, ◌⊎◌,
}
use snservices.Base.Int.{ℤ, pos, negsuc}
use snservices.Cmp.{smycmp, irc_toupper}
use snservices.Channel.{Member}
use snservices.Ban.{Ban, Client, same_text, is_zero}
use snservices.Ban.Rules.{Channels}
use snservices.Ban.Lists.{
  prepend, unban, find_banid, Changed, drop_ban, given, put_ban, add_banid, del_banid,
}
use snservices.Ban.Bounds.{added, add_put}

smycmp_refl : (s : Bytes) → smycmp s s ≡ pos 0
unfolding smycmp
smycmp_refl [] = refl
smycmp_refl (a ∷ s) =
    let e = (==_iff (irc_toupper a) (irc_toupper a)).1 refl in rw e (smycmp_refl s)

same_text_refl : (s : Bytes) → same_text s s ≡ true
unfolding same_text
same_text_refl s = ap is_zero (smycmp_refl s)

unban_head : (b : Ban) (r : List Ban) → unban b.banstr (b ∷ r) ≡ some r
unfolding unban
unban_head b r = rw (same_text_refl b.banstr) refl

abbrev answer : Option (List Ban) → ℤ
answer none = pos 0
answer (some _) = pos 1

answer-prepend : (b : Ban) (o : Option (List Ban)) → answer (prepend b o) ≡ answer o
answer-prepend b none = refl
answer-prepend b (some _) = refl

find_banid-unban :
    (banid : Bytes) (l : List Ban) → find_banid (some banid) l ≡ answer (unban banid l)
unfolding find_banid unban
find_banid-unban banid [] = refl
find_banid-unban banid (b ∷ r) = elim (Bool-cases (same_text banid b.banstr)) [
  | inl e ↦ rw e refl
  | inr e ↦ rw e (find_banid-unban banid r ∙ sym (answer-prepend b (unban banid r)))
]

-- One ban less of the list, the first of the text, up to case.
pub data Removed (banid : Bytes) : List Ban → List Ban → Type 0 where
  here : {b : Ban} {r : List Ban} → same_text banid b.banstr ≡ true → Removed banid (b ∷ r) r
  there :
      {b : Ban} {r r' : List Ban}
      → same_text banid b.banstr ≡ false
      → Removed banid r r'
      → Removed banid (b ∷ r) (b ∷ r')

abbrev Took : Bytes → List Ban → Option (List Ban) → Type 0
Took banid l none = All (λ b. same_text banid b.banstr ≡ false) l
Took banid l (some l') = Removed banid l l'

Took-cons :
    (banid : Bytes) (b : Ban) (r : List Ban) (o : Option (List Ban))
    → same_text banid b.banstr ≡ false
    → Took banid r o
    → Took banid (b ∷ r) (prepend b o)
Took-cons banid b r none e t = (e, t)
Took-cons banid b r (some r') e t = there e t

unban-Took : (banid : Bytes) (l : List Ban) → Took banid l (unban banid l)
unfolding unban
unban-Took banid [] = tt
unban-Took banid (b ∷ r) = elim (Bool-cases (same_text banid b.banstr)) [
  | inl e ↦ rw e (here e)
  | inr e ↦ rw e (Took-cons banid b r (unban banid r) e (unban-Took banid r))
]

module _ (gen_host_mask : Bytes → Bytes) (channels : Channels) (client : ℕ → Client) where
  abbrev pub Deleted : Bytes → List Ban → Changed → Type 0
  Deleted banid l after =
      (find_banid (some banid) l ≡ pos 1 × (after.result ≡ pos 0 × Removed banid l after.banlist))
      ⊎ (find_banid (some banid) l ≡ pos 0
          × (after.result ≡ negsuc 0
              × (after.banlist ≡ l × All (λ b. same_text banid b.banstr ≡ false) l)))

  deleted :
      (banid : Bytes) (l : List Ban) (members : List Member) (o : Option (List Ban))
      → find_banid (some banid) l ≡ answer o
      → Took banid l o
      → Deleted banid l (drop_ban gen_host_mask channels client l members o)
  unfolding drop_ban
  deleted banid l members none e t = inr (e, (refl, (refl, t)))
  deleted banid l members (some r) e t = inl (e, (refl, t))

  -- Either `find_banid` answers 1, and `del_banid` answers 0 and takes out the first ban of this text and
  -- no other, or it answers 0, no ban has the text, and `del_banid` answers -1 and changes nothing.
  pub del_banid-Deleted :
      (banid : Bytes) (l : List Ban) (members : List Member)
      → Deleted banid l (del_banid gen_host_mask channels client (some banid) l members)
  unfolding del_banid
  del_banid-Deleted banid l members =
      deleted banid l members (unban banid l) (find_banid-unban banid l) (unban-Took banid l)

  -- The ban is there, and to delete it gives the list `l`.
  pub record Restores (banid : Bytes) (l : List Ban) (after : Changed) : Type 0 where
    pub is_there : find_banid (some banid) after.banlist ≡ pos 1
    pub result :
        (del_banid gen_host_mask channels client (some banid) after.banlist after.members).result
        ≡ pos 0
    pub banlist :
        (del_banid gen_host_mask channels client (some banid) after.banlist after.members).banlist
        ≡ l

  put_ban-Restores :
      (who banid : Bytes) (now : ℕ) (l : List Ban) (members : List Member)
      → Restores banid l (put_ban gen_host_mask channels client who banid now l members)
  unfolding del_banid put_ban drop_ban
  put_ban-Restores who banid now l members =
      let b : Ban = record { banstr = banid; who = who; when = now } in
      let e = unban_head b l in
      let after = put_ban gen_host_mask channels client who banid now l members in
      record {
        is_there = find_banid-unban banid (b ∷ l) ∙ ap answer e;
        result =
            ap (λ o. (drop_ban gen_host_mask channels client (b ∷ l) after.members o).result) e;
        banlist =
            ap (λ o. (drop_ban gen_host_mask channels client (b ∷ l) after.members o).banlist) e;
      }

  -- A ban that was added is found under the text that was stored, and to delete that text at once gives
  -- back the ban list from before.
  pub add_banid-del :
      (c : Client) (banid : Bytes) (now : ℕ) (banlist : List Ban) (members : List Member)
      → (add_banid gen_host_mask channels client c banid now banlist members).result ≡ pos 0
      → Restores
          (given c banid)
          banlist
          (add_banid gen_host_mask channels client c banid now banlist members)
  add_banid-del c banid now banlist members r =
      subst (Restores (given c banid) banlist)
        (sym (
          add_put gen_host_mask channels client c banid now banlist members
            (added gen_host_mask channels client c banid now banlist members r)))
        (put_ban-Restores c.name (given c banid) now banlist members)

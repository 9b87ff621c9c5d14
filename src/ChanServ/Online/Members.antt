-- ===== src/ChanServ/Online/Members.antt =====
-- addChanUser, delChanUser and getChanUserData of services/chanserv.c against a list of members.
use mathlib.Core.Path.{fun_ext}
use snservices.Base.{
  ℕ, ◌<◌, ◌≤◌, ◌≡◌, refl, sym, ap, ◌∙◌, inl, inr, Bool, true, false, ◌&&◌, not, List, [], ◌∷◌, ◌++◌,
  ◌==◌, if◌then◌else◌, All, length, arith, subst, Bool-cases, ==_iff,
}
use snservices.Registry.{Dll}
use snservices.Registry.Names.{key}
use snservices.Registry.Chain.{NotIn}
use snservices.Registry.Refine.{All-split, Rep}
use snservices.Registry.Table.{Table, enlist, delist}
use snservices.Registry.Buckets.{RepT, enlist-RepT}
use snservices.Registry.Lookup.{first_such, find-first_such, delist-RepT}
use snservices.Registry.Unique.{Unique}
use snservices.ChanServ.Online.{
  Online, member_cell, member_hash, chanhashsize, chanuserhashsize, with_users, free_cell,
  add_chan_user, leave, del_chan, del_chan_user, get_chan_user_data,
}
use snservices.ChanServ.Online.Listed.{IsListed, chan_name, del_chan-IsListed}

-- The members of a channel, in the order in which they joined.
abbrev pub Members : Online → ℕ → List ℕ → Type 0
Members s c xs = RepT (member_hash s) (s.chan c).users xs

-- A new member of a channel, which is not NULL, comes behind the others, in the list and in the table.
pub add_chan_user-Members :
    (c n : ℕ) (s : Online) (xs : List ℕ)
    → 0 < n
    → NotIn n xs
    → Members s c xs
    → Members (add_chan_user c n s) c (xs ++ n ∷ [])
unfolding add_chan_user
add_chan_user-Members c n s xs pos_n out v =
    let z : (n == 0) ≡ false = ground arith in
    let e : (c == c) ≡ true = (==_iff c c).1 refl in
    rw (z, e) (enlist-RepT (member_hash s) n (s.chan c).users xs pos_n out v)

-- While a channel's members are kept, and the fuel is not less than their number, `getChanUserData` finds the
-- first member that belongs to the user, or NULL.
pub get_chan_user_data_lem :
    (fuel c p : ℕ) (s : Online) (xs : List ℕ)
    → 0 < c
    → 0 < p
    → Members s c xs
    → length xs ≤ fuel
    → get_chan_user_data fuel c p s ≡ first_such (λ n. s.person n == p) xs
unfolding get_chan_user_data
get_chan_user_data_lem fuel c p s xs pos_c pos_p v h =
    let z : (p == 0) ≡ false = ground arith in
    let y : (c == 0) ≡ false = ground arith in
    rw (z, y)
      (find-first_such (member_hash s) (key chanuserhashsize (s.user p).nick)
          (λ n. not (s.person n == 0) && s.person n == p) fuel (s.chan c).users xs
          (λ n e. ap (λ (q : ℕ). key chanuserhashsize (s.user q).nick) (theirs (s.person n) e)) v h
        ∙ ap (λ f. first_such f xs) (fun_ext (λ n. no_test (s.person n))))
  where
    theirs : (q : ℕ) → (not (q == 0) && q == p) ≡ true → q ≡ p
    theirs q e = ground arith

    no_test : (q : ℕ) → (not (q == 0) && q == p) ≡ (q == p)
    no_test q = ground arith

nick_kept : (c p : ℕ) (s : Online) (q : ℕ) → ((leave c p s).user q).nick ≡ (s.user q).nick
unfolding leave
nick_kept c p s q = elim (Bool-cases (p == 0)) [
  | inl e ↦ rw e refl
  | inr e ↦ rw e (elim (Bool-cases (q == p)) [
    | inl k ↦ rw k (ap (λ z. (s.user z).nick) (sym ((==_iff q p).0 k)))
    | inr k ↦ rw k refl
  ])
]

names_kept :
    (c : ℕ) (t : Table) (s : Online) (q : ℕ) → chan_name (with_users c t s) q ≡ chan_name s q
names_kept c t s q =
    elim (Bool-cases (q == c)) as (λ x. chan_name (with_users c t s) q ≡ chan_name s q) [
      | inl k ↦ rw (chan_name, k) (ap (λ z. (s.chan z).name) (sym ((==_iff q c).0 k)))
      | inr k ↦ rw (chan_name, k) refl
    ]

-- The list of the channels is the same whatever their members are.
with_users-IsListed :
    (c : ℕ) (t : Table) (s : Online) (xs : List ℕ) → IsListed s xs → IsListed (with_users c t s) xs
with_users-IsListed c t s xs v = record {
  table = subst (λ f. RepT (λ q. key chanhashsize (f q)) s.listed xs) same v.table;
  unique = subst (λ f. Unique f xs) same v.unique;
}
  where
    same : chan_name s ≡ chan_name (with_users c t s)
    same = fun_ext (λ q. sym (names_kept c t s q))

-- A new member leaves the list of the channels as it is.
pub add_chan_user-IsListed :
    (c n : ℕ) (s : Online) (xs : List ℕ) → IsListed s xs → IsListed (add_chan_user c n s) xs
unfolding add_chan_user
add_chan_user-IsListed c n s xs v = elim (Bool-cases (n == 0)) [
  | inl e ↦ rw e v
  | inr e ↦ rw e (with_users-IsListed c (enlist (member_hash s) n (s.chan c).users) s xs v)
]

module _ (fuel c n : ℕ) (s : Online) where
  -- The state before the test for an empty channel.
  abbrev pub left : Online
  left =
      free_cell (member_cell n)
        (leave c (s.person n) (with_users c (delist (member_hash s) fuel n (s.chan c).users) s))

  left_table : ((left).chan c).users ≡ delist (member_hash s) fuel n (s.chan c).users
  unfolding leave
  left_table = let e : (c == c) ≡ true = (==_iff c c).1 refl in rw e refl

  left_hash : member_hash s ≡ member_hash left
  unfolding leave
  left_hash = fun_ext (λ q. ap (key chanuserhashsize) (
      sym (
        nick_kept c (s.person n) (with_users c (delist (member_hash s) fuel n (s.chan c).users) s)
          (s.person q))))

  pub left-IsListed : (xs : List ℕ) → IsListed s xs → IsListed left xs
  unfolding leave
  left-IsListed xs v =
      let w = with_users-IsListed c (delist (member_hash s) fuel n (s.chan c).users) s xs v in
      record { table = w.table; unique = w.unique }

  pub left-Members :
      (bs as' : List ℕ)
      → Members s c (bs ++ n ∷ as')
      → length (bs ++ n ∷ as') ≤ fuel
      → Members left c (bs ++ as')
  left-Members bs as' v h =
      subst (λ t. RepT (member_hash left) t (bs ++ as')) (sym left_table)
        (subst (λ f. RepT f (delist (member_hash s) fuel n (s.chan c).users) (bs ++ as')) left_hash
          (delist-RepT (member_hash s) fuel n (s.chan c).users bs as' v h))

closed :
    (fuel c : ℕ) (s : Online) (xs : List ℕ)
    → (c == 0) ≡ false
    → Members s c xs
    → Members (del_chan fuel c s) c xs
unfolding del_chan
closed fuel c s xs e m = rw e m

abbrev is_empty : List ℕ → Bool
is_empty [] = true
is_empty (_ ∷ _) = false

first-is_empty : (d : Dll) (xs : List ℕ) → Rep d xs → (d.first == 0) ≡ is_empty xs
first-is_empty d [] v = rw v.first_eq refl
first-is_empty d (x ∷ r) v = let z = v.no_null.0 in rw v.first_eq (ground arith)

no_null_middle : (n : ℕ) (bs as' : List ℕ) → All (λ x. 0 < x) (bs ++ n ∷ as') → (n == 0) ≡ false
no_null_middle n bs as' z = let p = (All-split (λ x. 0 < x) bs (n ∷ as') z).1.0 in ground arith

del_chan_user_branches :
    (fuel c n : ℕ) (clean : Bool) (s : Online)
    → (n == 0) ≡ false
    → (c == 0) ≡ false
    → del_chan_user fuel c n clean s ≡ (
        if clean && (((left fuel c n s).chan c).users.main.first == 0)
        then del_chan fuel c (left fuel c n s)
        else left fuel c n s)
unfolding del_chan_user
del_chan_user_branches fuel c n clean s e f = rw (e, f) refl

-- While list and table hold the members of a channel, and list and hash table hold the
-- channels, no two of one name, `delChanUser` of a member takes it out of list and table;
-- exactly if it was the last one and the channel is to be cleaned up, the channel goes out of
-- the channels, and the others stay in their order. The fuel is not less than the number of
-- members and that of channels.
pub del_chan_user-Members :
    (fuel c n : ℕ) (clean : Bool) (s : Online) (bs as' cs ds : List ℕ)
    → Members s c (bs ++ n ∷ as')
    → IsListed s (cs ++ c ∷ ds)
    → length (bs ++ n ∷ as') ≤ fuel
    → length (cs ++ c ∷ ds) ≤ fuel
    → Members (del_chan_user fuel c n clean s) c (bs ++ as')
      × IsListed
          (del_chan_user fuel c n clean s)
          (if clean && is_empty (bs ++ as') then cs ++ ds else cs ++ c ∷ ds)
del_chan_user-Members fuel c n clean s bs as' cs ds v w h k =
    subst (λ r. Members r c (bs ++ as') × IsListed r (rest t)) (sym same) (branch t)
  where
    l : Online
    l = left fuel c n s

    m : Members l c (bs ++ as')
    m = left-Members fuel c n s bs as' v h

    u : IsListed l (cs ++ c ∷ ds)
    u = left-IsListed fuel c n s (cs ++ c ∷ ds) w

    no_n : (n == 0) ≡ false
    no_n = no_null_middle n bs as' v.list.no_null

    no_c : (c == 0) ≡ false
    no_c = no_null_middle c cs ds w.table.list.no_null

    t : Bool
    t = clean && is_empty (bs ++ as')

    rest : Bool → List ℕ
    rest b = if b then cs ++ ds else cs ++ c ∷ ds

    same : del_chan_user fuel c n clean s ≡ (if t then del_chan fuel c l else l)
    same =
        del_chan_user_branches fuel c n clean s no_n no_c
        ∙ ap (λ z. if clean && z then del_chan fuel c l else l)
            (first-is_empty (l.chan c).users.main (bs ++ as') m.list)

    branch :
        (b : Bool)
        → Members (if b then del_chan fuel c l else l) c (bs ++ as')
          × IsListed (if b then del_chan fuel c l else l) (rest b)
    branch true = (closed fuel c l (bs ++ as') no_c m, del_chan-IsListed fuel l c cs ds u k)
    branch false = (m, u)

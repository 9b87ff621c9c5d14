-- ===== src/ChanServ/Online/Bans.antt =====
-- addChanBan, delChanBan and getChanBan of services/chanserv.c against a list of bans.
use snservices.Base.{
  ℕ, ◌<◌, ◌≤◌, ◌≡◌, refl, Bool, true, false, ◌&&◌, not, none, some, List, [], ◌∷◌, ◌++◌, ◌==◌,
  Bytes, All, length, arith, ==_iff,
}
use snservices.Registry.{Dll, set, remove}
use snservices.Registry.Names.{same_name}
use snservices.Registry.Chain.{
  NotIn, Distinct-out, last_or, last_or-All, Chain-set_next, Chain-set_prev,
}
use snservices.Registry.Refine.{Rep, append-Rep, pos_test}
use snservices.Registry.Remove.{remove-Rep, prev_n, no_nulls}
use snservices.Registry.Lookup.{first_such, walk-first_such}
use snservices.ChanServ.Online.{
  Online, ban_cell, with_bans, free_cell, clear, add_chan_ban, del_chan_ban, get_chan_ban,
}

-- The bans of a channel, the oldest first.
abbrev pub Bans : Online → ℕ → List ℕ → Type 0
Bans s c xs = Rep (s.chan c).bans xs

self : (c : ℕ) → (c == c) ≡ true
self c = (==_iff c c).1 refl

-- A new ban, which is not NULL and not in the list, comes behind the others.
pub add_chan_ban-Bans :
    (c n : ℕ) (s : Online) (xs : List ℕ)
    → 0 < n
    → NotIn n xs
    → Bans s c xs
    → Bans (add_chan_ban c n s) c (xs ++ n ∷ [])
unfolding add_chan_ban
add_chan_ban-Bans c n s xs pos_n out v = rw (self c) (append-Rep n (s.chan c).bans xs pos_n out v)

-- While the bans of a channel, which is not NULL, are kept, and the fuel is not less than their number, `getChanBan`
-- finds the first with this mask, or NULL.
pub get_chan_ban_lem :
    (fuel c : ℕ) (s : Online) (xs : List ℕ) (ban : Bytes)
    → 0 < c
    → Bans s c xs
    → length xs ≤ fuel
    → get_chan_ban fuel c (some ban) s ≡ first_such (λ n. same_name ban (s.ban n)) xs
unfolding get_chan_ban
get_chan_ban_lem fuel c s xs ban pos_c v h =
    let test : ℕ → Bool = λ n. same_name ban (s.ban n) in
    let d = (s.chan c).bans in
    rw (pos_test c pos_c, v.first_eq)
      (walk-first_such d.next d.prev test fuel 0 xs v.chain v.no_null h)

-- The pointers of what is not in the list may change.
clear-Rep : (n : ℕ) (d : Dll) (xs : List ℕ) → NotIn n xs → Rep d xs → Rep (clear n d) xs
clear-Rep n d xs h v = record {
  first_eq = v.first_eq;
  last_eq = v.last_eq;
  chain =
      Chain-set_prev (set d.next n 0) d.prev n 0 0 xs 0 h
        (Chain-set_next d.next d.prev n 0 0 xs 0 h v.chain);
  distinct = v.distinct;
  no_null = v.no_null;
}

-- What the code takes for an item that is in no list.
abbrev looks_unlinked : Dll → ℕ → Bool
looks_unlinked d n = d.next n == 0 && d.prev n == 0 && not (d.first == n)

linked-looks_unlinked :
    (n : ℕ) (d : Dll) (bs as' : List ℕ) → Rep d (bs ++ n ∷ as') → looks_unlinked d n ≡ false
linked-looks_unlinked n d [] as' v = rw (v.first_eq, self n) (ands (d.next n == 0) (d.prev n == 0))
  where
    ands : (p q : Bool) → (p && q && false) ≡ false
    ands p q = ground arith
linked-looks_unlinked n d (b ∷ r) as' v =
    rw (prev_n n d (b ∷ r) as' v, pos_test (last_or b r) inside)
      (ands (d.next n == 0) (not (d.first == n)))
  where
    z : All (λ x. 0 < x) (b ∷ r)
    z = (no_nulls n d (b ∷ r) as' v).0

    inside : 0 < last_or b r
    inside = last_or-All (λ x. 0 < x) b r z.0 z.1

    ands : (p q : Bool) → (p && false && q) ≡ false
    ands p q = ground arith

-- What `delChanBan` leaves.
abbrev pub without_ban : ℕ → ℕ → Online → Online
without_ban c n s = free_cell (ban_cell n) (with_bans c (clear n (remove n (s.chan c).bans)) s)

-- `delChanBan` of a ban in the list of the channel returns, takes it out of the list, the
-- others stay in their order, and frees it once, with its pointers reset.
pub del_chan_ban-Bans :
    (c n : ℕ) (s : Online) (bs as' : List ℕ)
    → Bans s c (bs ++ n ∷ as')
    → (s' : Online) × (del_chan_ban c n s ≡ some s')
      × Bans s' c (bs ++ as')
      × (s'.freed ≡ ban_cell n ∷ s.freed)
      × ((s'.chan c).bans.next n ≡ 0)
      × ((s'.chan c).bans.prev n ≡ 0)
unfolding del_chan_ban
del_chan_ban-Bans c n s bs as' v = (
  without_ban c n s,
  rw (linked-looks_unlinked n (s.chan c).bans bs as' v) refl,
  rw (self c) (
      clear-Rep n (remove n (s.chan c).bans) (bs ++ as') (Distinct-out n bs as' v.distinct)
        (remove-Rep n (s.chan c).bans bs as' v)),
  refl,
  rw (self c, self n) refl,
  rw (self c, self n) refl,
)

-- `delChanBan` of an item that is not NULL, not in the list of the bans of the channel, and
-- has no neighbours, raises a signal.
pub del_chan_ban_unlinked :
    (c n : ℕ) (s : Online) (xs : List ℕ)
    → 0 < n
    → NotIn n xs
    → Bans s c xs
    → (s.chan c).bans.next n ≡ 0
    → (s.chan c).bans.prev n ≡ 0
    → del_chan_ban c n s ≡ none
unfolding del_chan_ban
del_chan_ban_unlinked c n s xs pos_n out v e f = rw (e, f, not_first xs out v) refl
  where
    not_first :
        (ys : List ℕ) → NotIn n ys → Rep (s.chan c).bans ys → ((s.chan c).bans.first == n) ≡ false
    not_first [] o w = rw w.first_eq (ground arith)
    not_first (y ∷ r) o w = rw w.first_eq o.0

-- ===== src/Akill/Removal.antt =====
-- `addakill` and `removeAkill` of services/akill.c together.
use snservices.Base.{
  ℕ, suc, ◌+◌, ◌≡◌, refl, ◌∙◌, ap, Bool, true, false, not, ◌&&◌, Option, some, List, [], ◌∷◌, Bytes,
  ==_iff,
}
use snservices.Base.Int.{pos}
use snservices.Timer.{Call, timer, cancel_timer, next_tid}
use snservices.Timer.Order.{Unused}
use snservices.Timer.Cancel.{cancel_timer-timer}
use snservices.Akill.{
  AkillItem, Akills, Parts, autoremove, new_akill, expire_in, behind_last, piece, split_mask,
  equal_text, equal_part, and_then, same_mask, returned, addakill, found, is_denied, find_akill,
  finish, remove_akill,
}

pub equal_text_refl : (s : Bytes) → equal_text s s ≡ true
unfolding equal_text
equal_text_refl [] = refl
equal_text_refl (a ∷ s) = let e = (==_iff a a).1 refl in rw (e, equal_text_refl s) refl

-- The parts of a mask that has a user and a host are the same as themselves.
parts_same :
    (nick user host : Bytes) (u h : Option Bytes)
    → u ≡ some user
    → h ≡ some host
    → and_then (equal_part h h) (and_then (equal_part u u) (some (equal_text nick nick)))
      ≡ some true
parts_same nick user host u h e f =
    rw (e, f, equal_text_refl nick, equal_text_refl user, equal_text_refl host) refl

module _ (match : Bytes → Bytes → ℕ) (nocase : Bytes → Bytes → Bool) (lacks_oakill : Bytes → Bool)
    (operserv : Bytes) where
  find_head :
      (from : Bytes) (p : Parts) (ak : AkillItem) (r : List AkillItem)
      → same_mask p ak ≡ some true
      → is_denied match nocase lacks_oakill operserv from ak ≡ false
      → find_akill match nocase lacks_oakill operserv from p (ak ∷ r) ≡ found ak r
  unfolding find_akill
  find_head from p ak r e d = rw (find_akill, e, d) refl

  finish_by_user :
      (from : Bytes) (ak : AkillItem) (rest : List AkillItem) (s : Akills)
      → equal_text from operserv ≡ false
      → finish match nocase lacks_oakill operserv from (found ak rest) s
        ≡ returned (pos 0) (record s { first = rest; timers = (cancel_timer ak.tid s.timers).1 })
  unfolding finish
  finish_by_user from ak rest s e = rw e refl

  -- An entry that expires, with a mask of all three parts, is taken out again by its mask by anyone but
  -- OperServ who is allowed to: the entries are those from before, and so are the timers, but for the
  -- numbers that have been used, as long as the number of the new timer is not in use.
  pub remove_akill-addakill :
      (call : Call) (now dup n : ℕ) (mask by from user host : Bytes) (kind : ℕ) (reason : Bytes)
      (s : Akills)
      → behind_last 33 mask ≡ some user
      → behind_last 64 mask ≡ some host
      → equal_text from operserv ≡ false
      → (not (nocase from operserv) && not (nocase from by) && lacks_oakill from) ≡ false
      → Unused (next_tid s.timers.curtid) s.timers.first
      → remove_akill match nocase lacks_oakill operserv from mask
          (addakill call now dup (suc n) mask by kind reason s)
        ≡ returned (pos 0) (record {
          first = s.first;
          top_akill_stamp = s.top_akill_stamp + 1;
          timers = record s.timers { curtid = next_tid s.timers.curtid };
        })
  unfolding remove_akill split_mask addakill new_akill expire_in same_mask
  remove_akill-addakill call now dup n mask by from user host kind reason s u h o d t =
      let timed = timer call now (pos (suc n)) autoremove dup s.timers in
      let id = s.top_akill_stamp + 1 in
      let ak = new_akill now (suc n) mask by kind reason id timed.0 in
      let after : Akills = record {
        first = ak ∷ s.first;
        top_akill_stamp = id;
        timers = timed.1;
      } in
      ap (λ x. finish match nocase lacks_oakill operserv from x after)
        (find_head from (split_mask mask) ak s.first (parts_same (piece mask) user host _ _ u h) d)
      ∙ finish_by_user from ak s.first after o
      ∙ ap (λ c. returned (pos 0) (record { first = s.first; top_akill_stamp = id; timers = c.1 }))
          (cancel_timer-timer call now n autoremove dup s.timers t)

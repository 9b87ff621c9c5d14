-- ===== src/Timer/Cancel.antt =====
-- `cancel_timer`, on every branch, and as the inverse of `timer`.
use snservices.Base.{
  ℕ, suc, ◌≡◌, refl, ap, ◌∙◌, inl, inr, true, none, some, List, [], ◌∷◌, ◌++◌, ltb, leb, ◌==◌,
  arith, Bool-cases, ==_iff,
}
use snservices.Base.Int.{ℤ, pos, negsuc}
use snservices.Timer.{
  Item, Timers, Call, next_tid, place_after, place, new_item, schedule, timer, unlink, cancel_timer,
}
use snservices.Timer.Order.{Unused, missing, at, find, unlink-Unused, unlink-append}

-- Nothing was found and nothing changes, or the first item with the identifier is gone.
pub data Cancelled : ℕ → Timers → ℤ × Timers → Type 0 where
  refused : {tid : ℕ} {s : Timers} → Unused tid s.first → Cancelled tid s (negsuc 0, s)
  removed :
      {tid : ℕ} {s : Timers} (before : List Item) (i : Item) (after : List Item)
      → s.first ≡ before ++ i ∷ after
      → Unused tid before
      → i.tid ≡ tid
      → Cancelled tid s (pos 0, record s { first = before ++ after })

cancel_found :
    (tid : ℕ) (s : Timers) (r : List Item)
    → unlink tid s.first ≡ some r
    → cancel_timer tid s ≡ (pos 0, record s { first = r })
unfolding cancel_timer
cancel_found tid s r e = ground arith

cancel_missing :
    (tid : ℕ) (s : Timers) → unlink tid s.first ≡ none → cancel_timer tid s ≡ (negsuc 0, s)
unfolding cancel_timer
cancel_missing tid s e = ground arith

-- `cancel_timer` answers -1 and changes nothing if no timer has the identifier; otherwise it answers 0
-- and takes out the first timer that has it, and no other.
pub cancel_timer-Cancelled : (tid : ℕ) (s : Timers) → Cancelled tid s (cancel_timer tid s)
cancel_timer-Cancelled tid s = elim (find tid s.first) [
  | missing h ↦ rw (cancel_missing tid s (unlink-Unused tid s.first h)) (refused h)
  | at before i after q h t ↦
      let e : unlink tid s.first ≡ some (before ++ after) =
        ap (unlink tid) q ∙ unlink-append tid before i after h t in
      rw (cancel_found tid s (before ++ after) e)
        (removed before i after q h ((==_iff i.tid tid).0 t))
]

unlink-place_after :
    (tid : ℕ) (tc temp : Item) (r : List Item)
    → (tc.tid == tid) ≡ true
    → Unused tid (temp ∷ r)
    → unlink tid (place_after tc temp r) ≡ some (temp ∷ r)
unfolding place_after unlink
unlink-place_after tid tc temp [] e (h, hs) = rw (h, e) refl
unlink-place_after tid tc temp (next ∷ r) e (h, hs) = elim (Bool-cases (leb next.run tc.run)) [
  | inl q ↦ rw (q, h, unlink-place_after tid tc next r e hs) refl
  | inr q ↦ rw (q, h, e) refl
]

unlink-place :
    (tid : ℕ) (tc : Item) (xs : List Item)
    → (tc.tid == tid) ≡ true
    → Unused tid xs
    → unlink tid (place tc xs) ≡ some xs
unfolding place unlink
unlink-place tid tc [] e h = rw e refl
unlink-place tid tc (first ∷ r) e h = elim (Bool-cases (ltb tc.run first.run)) [
  | inl q ↦ rw (q, e) refl
  | inr q ↦ rw q (unlink-place_after tid tc first r e h)
]

-- To cancel the timer that `timer` has just made, for a positive number of seconds, by the identifier
-- that it returned, answers 0 and leaves the list as it was before, if no timer of the list has that
-- identifier.
pub cancel_timer-timer :
    (call : Call) (now n func args : ℕ) (s : Timers)
    → Unused (next_tid s.curtid) s.first
    → (let (tid, s') = timer call now (pos (suc n)) func args s in
        cancel_timer tid s' ≡ (pos 0, record s { curtid = next_tid s.curtid }))
unfolding timer schedule new_item
cancel_timer-timer call now n func args s h = cancel_found (next_tid s.curtid) _ s.first (
    unlink-place (next_tid s.curtid) (new_item s.curtid now (suc n) func args) s.first
      ((==_iff (next_tid s.curtid) (next_tid s.curtid)).1 refl) h)

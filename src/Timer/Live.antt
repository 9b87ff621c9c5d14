-- ===== src/Timer/Live.antt =====
-- A timer that has been made is called once its time has come: `timer` and `timeralarm` of
-- services/timer.c together.
use snservices.Base.{
  ℕ, ◌+◌, ◌≤◌, ◌≡◌, ◌≢◌, ◌⊎◌, refl, sym, ap, subst, inl, inr, true, List, [], ◌∷◌, ◌++◌, leb, arith,
  Bool-cases,
}
use snservices.Timer.{
  Item, Timers, Call, Alarmed, ended, null_pointer, out_of_fuel, new_item, schedule, timeralarm,
}
use snservices.Timer.Due.{Schedules}
use snservices.Timer.Order.{IsSorted, due, pending, schedule_lem}
use snservices.Timer.Alarm.{Rang, timeralarm-Rang}

abbrev pub In : Item → List Item → Type 0
In i [] = ⊥
In i (x ∷ r) = (i ≡ x) ⊎ In i r

-- The alarm ends and has called the item.
abbrev pub Called : Item → Alarmed → Type 0
Called i (ended called s) = In i called
Called i null_pointer = ⊥
Called i out_of_fuel = ⊥

In-append : (i : Item) (xs ys : List Item) → In i (xs ++ i ∷ ys)
In-append i [] ys = inl refl
In-append i (x ∷ xs) ys = inr (In-append i xs ys)

In-due : (now : ℕ) (i : Item) (xs : List Item) → i.run ≤ now → In i xs → In i (due now xs)
In-due now i (x ∷ r) h (inl e) =
    let t : leb x.run now ≡ true = ground (arith, h, ap Item.run e) in rw t (inl e)
In-due now i (x ∷ r) h (inr k) = elim (Bool-cases (leb x.run now)) [
  | inl t ↦ rw t (inr (In-due now i r h k))
  | inr t ↦ rw t (In-due now i r h k)
]
In-due now i [] h k = k

Rang-Called :
    (now : ℕ) (Q : Type 0) (i : Item) (ds : List Item) (o : Alarmed)
    → ¬ Q
    → In i ds
    → Rang now Q ds o
    → Called i o
Rang-Called now Q i ds (ended called s) n k (e, l) = subst (In i) (sym e) k
Rang-Called now Q i ds null_pointer n k q = n q
Rang-Called now Q i ds out_of_fuel n k q = q

new_item-run :
    (curtid now seconds func args : ℕ) → (new_item curtid now seconds func args).run ≡ now + seconds
unfolding new_item
new_item-run curtid now seconds func args = refl

-- In a list in the order of the times: a timer that is made is called by any alarm at its time or later,
-- as long as the functions of timers do no more to the timers than to make ones of more than 0 seconds,
-- and a timer of the list is still in the future at that alarm.
pub timeralarm-schedule :
    (call : Call) (now seconds later func args : ℕ) (s : Timers)
    → IsSorted s.first
    → now + seconds ≤ later
    → ((f a : ℕ) (t : Timers) → Schedules later t (call f a t))
    → pending later (schedule now seconds func args s).first ≢ []
    → Called
        (new_item s.curtid now seconds func args)
        (timeralarm call later (schedule now seconds func args s))
timeralarm-schedule call now seconds later func args s h le calls more =
    let i = new_item s.curtid now seconds func args in
    let (e, sorted) = schedule_lem now seconds func args s h in
    let there : In i (schedule now seconds func args s).first =
      subst (In i) (sym e)
        (In-append i (due (now + seconds) s.first) (pending (now + seconds) s.first)) in
    Rang-Called later _ i _ _ more
      (In-due later i _ (omega (arith, le, new_item-run s.curtid now seconds func args)) there)
      (timeralarm-Rang later call (schedule now seconds func args s) calls sorted)

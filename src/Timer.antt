-- ===== src/Timer.antt =====
-- services/timer.c: the list of timers of the services, in the order of their `next` pointers (`prev`
-- is the way back). An identifier is an `int`, which is its 32 bits here; time is in seconds.
pub mod Order
pub mod Cancel
pub mod Due
pub mod Alarm
pub mod Live
mod Examples
use snservices.Base.{
  ℕ, zero, suc, ◌+◌, ◌*◌, ◌%◌, ◌^◌, Bool, true, false, Option, none, some, List, [], ◌∷◌, ◌++◌, ltb,
  leb, ◌==◌, if◌then◌else◌, length,
}
use snservices.Base.Int.{ℤ, pos, negsuc}

-- `struct t_chain`; functions and their arguments are told apart by numbers.
pub record Item : Type 0 where
  pub run : ℕ
  pub tid : ℕ
  pub func : ℕ
  pub args : ℕ

-- `curtid` and the list that begins with `firstTimerItem`.
pub record Timers : Type 0 where
  pub curtid : ℕ
  pub first : List Item

-- `curtid++`, once more if it gets to 0.
pub next_tid : ℕ → ℕ
next_tid curtid = let t = (curtid + 1) % 2 ^ 32 in if t == 0 then 1 else t

-- The loop from `temp` on: behind the last item whose successor is due no later.
pub place_after : Item → Item → List Item → List Item
place_after tc temp [] = temp ∷ tc ∷ []
place_after tc temp (next ∷ r) =
    let further = place_after tc next r in
    if leb next.run tc.run then temp ∷ further else temp ∷ tc ∷ next ∷ r

pub place : Item → List Item → List Item
unfolding place_after
place tc [] = tc ∷ []
place tc (first ∷ r) = if ltb tc.run first.run then tc ∷ first ∷ r else place_after tc first r

-- `timer` for more than 0 seconds: the item that it makes, and the list with it.
pub new_item : ℕ → ℕ → ℕ → ℕ → ℕ → Item
unfolding next_tid
new_item curtid now seconds func args = record {
  run = now + seconds;
  tid = next_tid curtid;
  func = func;
  args = args;
}

pub schedule : ℕ → ℕ → ℕ → ℕ → Timers → Timers
unfolding new_item place
schedule now seconds func args s =
    let tc = new_item s.curtid now seconds func args in
    record { curtid = tc.tid; first = place tc s.first }

-- What a timer's function does with the timers, which it may call itself.
abbrev pub Call : Type 0
Call = ℕ → ℕ → Timers → Timers

unfoldable pub timer : Call → ℕ → ℤ → ℕ → ℕ → Timers → ℕ × Timers
unfolding schedule
timer call now (negsuc _) func args s = (0, call func args s)
timer call now (pos zero) func args s = (0, call func args s)
timer call now (pos (suc n)) func args s =
    let s' = schedule now (suc n) func args s in (s'.curtid, s')

-- The list without the first item with the identifier.
pub unlink : ℕ → List Item → Option (List Item)
unlink tid [] = none
unlink tid (temp ∷ r) =
    let rest = unlink tid r in
    if temp.tid == tid then some r else elim rest [ none ↦ none | some r' ↦ some (temp ∷ r') ]

-- 0 if an item was cancelled, -1 if there was none.
unfoldable pub cancel_timer : ℕ → Timers → ℤ × Timers
unfolding unlink
cancel_timer tid s = elim (unlink tid s.first) [
  | none ↦ (negsuc 0, s)
  | some r ↦ (pos 0, record s { first = r })
]

-- `timeralarm` ends with the items that it called, or reads through a null pointer.
pub data Alarmed : Type 0 where
  ended : List Item → Timers → Alarmed
  null_pointer : Alarmed
  out_of_fuel : Alarmed

log_call : Item → Alarmed → Alarmed
log_call i (ended called s) = ended (i ∷ called) s
log_call i null_pointer = null_pointer
log_call i out_of_fuel = out_of_fuel

-- `firstTimerItem = firstTimerItem->next`, and then `firstTimerItem->prev`.
pop_first : Timers → Option Timers
pop_first s = elim s.first [
  | [] ↦ none
  | _ ∷ [] ↦ none
  | _ ∷ i ∷ r ↦ some (record s { first = i ∷ r })
]

-- The `while`, on fuel.
alarm_loop : Call → ℕ → ℕ → Timers → Alarmed
unfolding pop_first log_call
alarm_loop call now zero s = out_of_fuel
alarm_loop call now (suc fuel) s = elim s.first [
  | [] ↦ null_pointer
  | i ∷ _ ↦ elim (leb i.run now) [
    | true ↦ elim (pop_first (call i.func i.args s)) [
      | none ↦ null_pointer
      | some s' ↦ log_call i (alarm_loop call now fuel s')
    ]
    | false ↦ ended [] s
  ]
]

pub timeralarm : Call → ℕ → Timers → Alarmed
unfolding alarm_loop
timeralarm call now s = elim s.first [
  | [] ↦ ended [] s
  | _ ↦ alarm_loop call now (length s.first + 1) s
]

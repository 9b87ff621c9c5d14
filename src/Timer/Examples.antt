-- ===== src/Timer/Examples.antt =====
-- Tests of the timers, and the theorems at concrete inputs.
use snservices.Base.{ℕ, suc, ◌≡◌, refl, [], ◌∷◌, ◌++◌, ◌+◌, arith}
use snservices.Base.Int.{pos, negsuc}
use snservices.Timer.{
  Item, Timers, Call, next_tid, new_item, schedule, timer, cancel_timer, timeralarm, ended,
  null_pointer,
}
use snservices.Timer.Order.{IsSorted, due, pending, schedule_lem}
use snservices.Timer.Cancel.{Cancelled, cancel_timer-Cancelled, cancel_timer-timer}
use snservices.Timer.Due.{enough, one_more}
use snservices.Timer.Alarm.{Rang, timeralarm-Rang}
use snservices.Timer.Live.{Called, timeralarm-schedule}

abbrev item : ℕ → ℕ → Item
item run tid = record { run = run; tid = tid; func = tid; args = 0 }

abbrev three : Timers
three = record { curtid = 3; first = item 10 1 ∷ item 20 3 ∷ item 30 2 ∷ [] }

three-IsSorted : IsSorted three.first
three-IsSorted = ((omega arith, (omega arith, tt)), ((omega arith, tt), (tt, tt)))

-- A function that makes a new timer for one second after second 20.
abbrev again : Call
again f a t = schedule 20 1 f a t

abbrev quiet : Call
quiet f a t = t

timer_test : (timer quiet 5 (pos 15) 7 8 three).0 ≡ 4
unfolding timer
timer_test = refl

cancel_test : cancel_timer 9 three ≡ (negsuc 0, three)
unfolding cancel_timer
cancel_test = refl

alarm_test :
    timeralarm quiet 20 three
    ≡ ended (item 10 1 ∷ item 20 3 ∷ []) (record { curtid = 3; first = item 30 2 ∷ [] })
unfolding timeralarm
alarm_test = refl

-- If every timer is due and no function makes a new one, the end of the list is read through.
alarm_null : timeralarm quiet 40 three ≡ null_pointer
unfolding timeralarm
alarm_null = refl

schedule_lem_test :
    ((schedule 5 15 7 8 three).first
      ≡ due (5 + 15) three.first ++ new_item three.curtid 5 15 7 8 ∷ pending (5 + 15) three.first)
    × IsSorted (schedule 5 15 7 8 three).first
schedule_lem_test = schedule_lem 5 15 7 8 three three-IsSorted

cancel_timer-Cancelled_test : Cancelled 3 three (cancel_timer 3 three)
cancel_timer-Cancelled_test = cancel_timer-Cancelled 3 three

-- The identifier that follows 3.
three-fresh : (next_tid 3) ≡ 4
unfolding next_tid
three-fresh = refl

timeralarm-Rang_example :
    Rang 20 (pending 20 three.first ≡ []) (due 20 three.first) (timeralarm again 20 three)
timeralarm-Rang_example =
    timeralarm-Rang 20 again three (λ f a t. one_more 1 f a (omega arith) enough) three-IsSorted

cancel_timer-timer_test :
    (let (tid, s') = timer quiet 5 (pos (suc 14)) 7 8 three in
      cancel_timer tid s' ≡ (pos 0, record three { curtid = next_tid three.curtid }))
unfolding next_tid
cancel_timer-timer_test = cancel_timer-timer quiet 5 14 7 8 three (refl, (refl, (refl, tt)))

-- Made at second 5 for second 20, called at second 25, when a timer for second 30 is still to come.
timeralarm-schedule_example :
    Called (new_item 3 5 15 7 8) (timeralarm quiet 25 (schedule 5 15 7 8 three))
unfolding schedule
timeralarm-schedule_example =
    timeralarm-schedule quiet 5 15 25 7 8 three three-IsSorted (omega arith) (λ f a t. enough)
      (λ e. cc)

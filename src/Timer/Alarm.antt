-- ===== src/Timer/Alarm.antt =====
-- `timeralarm` runs the timers that are due, in order, whatever their functions schedule.
use snservices.Base.{
  ℕ, zero, suc, ◌+◌, ◌≤◌, ◌<◌, ◌≡◌, refl, sym, ap, ◌∙◌, inl, inr, true, false, none, some, List, [],
  ◌∷◌, ◌++◌, leb, length, arith, Bool-cases, List-cases, subst,
}
use snservices.Timer.{
  Item, Timers, Call, Alarmed, ended, null_pointer, out_of_fuel, log_call, pop_first, alarm_loop,
  timeralarm,
}
use snservices.Timer.Due.{Schedules, Split, Due, Later, Schedules-Split}
use snservices.Timer.Order.{due, pending, IsSorted, All-pending, All-above}

append_nil : (xs ys : List Item) → xs ++ ys ≡ [] → ys ≡ []
append_nil [] ys e = e
append_nil (x ∷ xs) ys e = cc

module _ (now : ℕ) where
  -- The items of `ds` were called, in this order, and nothing that is due is left; or nothing at all
  -- was left, and then `Q`.
  abbrev pub Rang : Type 0 → List Item → Alarmed → Type 0
  Rang Q ds (ended called s) = (called ≡ ds) × Later now s.first
  Rang Q ds null_pointer = Q
  Rang Q ds out_of_fuel = ⊥

  module _ (Q : Type 0) where
    Rang-cons :
        (i : Item) (ds : List Item) (o : Alarmed) → Rang Q ds o → Rang Q (i ∷ ds) (log_call i o)
    unfolding log_call
    Rang-cons i ds (ended called s) (e, l) = (ap (◌∷◌ i) e, l)
    Rang-cons i ds null_pointer q = q
    Rang-cons i ds out_of_fuel q = q

    pop_first_nil : (t : Timers) (i : Item) → t.first ≡ i ∷ [] → pop_first t ≡ none
    unfolding pop_first
    pop_first_nil t i e = ground arith

    pop_first_cons :
        (t : Timers) (i j : Item) (r : List Item)
        → t.first ≡ i ∷ j ∷ r
        → pop_first t ≡ some (record t { first = j ∷ r })
    unfolding pop_first
    pop_first_cons t i j r e = ground arith

    module _ (call : Call) (calls : (f a : ℕ) (s : Timers) → Schedules now s (call f a s)) where
      loop_step :
          (fuel : ℕ) (i : Item) (r : List Item) (s : Timers)
          → s.first ≡ i ∷ r
          → leb i.run now ≡ true
          → alarm_loop call now (suc fuel) s ≡ elim (pop_first (call i.func i.args s)) [
            | none ↦ null_pointer
            | some s' ↦ log_call i (alarm_loop call now fuel s')
          ]
      unfolding alarm_loop
      loop_step fuel i r s e h = ground arith

      loop_stop :
          (fuel : ℕ) (i : Item) (r : List Item) (s : Timers)
          → s.first ≡ i ∷ r
          → leb i.run now ≡ false
          → alarm_loop call now (suc fuel) s ≡ ended [] s
      unfolding alarm_loop
      loop_stop fuel i r s e h = ground arith

      loop_null :
          (fuel : ℕ) (s : Timers) → s.first ≡ [] → alarm_loop call now (suc fuel) s ≡ null_pointer
      unfolding alarm_loop
      loop_null fuel s e = ground arith

      after_call :
          (i : Item) (ds : List Item) (fuel : ℕ) (t : Timers)
          → ((s' : Timers) → Split now Q ds s' → Rang Q ds (alarm_loop call now fuel s'))
          → Split now Q (i ∷ ds) t
          → Rang Q (i ∷ ds) (elim (pop_first t) [
            | none ↦ null_pointer
            | some s' ↦ log_call i (alarm_loop call now fuel s')
          ])
      after_call i ds fuel t rest k = elim (List-cases (ds ++ k.behind)) [
        | inl e ↦
            rw (pop_first_nil t i (k.first_eq ∙ ap (◌∷◌ i) e)) (k.alone (append_nil ds k.behind e))
        | inr (j, r, e) ↦ rw (pop_first_cons t i j r (k.first_eq ∙ ap (◌∷◌ i) e)) (
            Rang-cons i ds _ (
              rest (record t { first = j ∷ r })
                (record { behind = k.behind; first_eq = sym e; later = k.later; alone = k.alone })))
      ]

      loop-Rang :
          (ds : List Item) (fuel : ℕ) (s : Timers)
          → Due now ds
          → Split now Q ds s
          → length ds < fuel
          → Rang Q ds (alarm_loop call now fuel s)
      loop-Rang ds zero s dd k lt = absurd (omega arith)
      loop-Rang [] (suc fuel) s dd k lt = elim (List-cases k.behind) [
        | inl e ↦ rw (loop_null fuel s (k.first_eq ∙ e)) (k.alone e)
        | inr (i, r, e) ↦
            let later = subst (Later now) e k.later in
            rw (loop_stop fuel i r s (k.first_eq ∙ e) (ground (arith, later.0)))
              (refl, subst (Later now) (sym k.first_eq) k.later)
      ]
      loop-Rang (i ∷ ds) (suc fuel) s (h, hs) k lt =
          rw (loop_step fuel i (ds ++ k.behind) s k.first_eq (ground arith)) (
            after_call i ds fuel (call i.func i.args s)
              (λ s' k'. loop-Rang ds fuel s' hs k' (omega arith))
              (Schedules-Split now Q (i ∷ ds) s _ (h, hs) (calls i.func i.args s) k))

  split :
      (xs : List Item)
      → IsSorted xs
      → (xs ≡ due now xs ++ pending now xs)
        × Due now (due now xs)
        × Later now (pending now xs)
        × (length (due now xs) ≤ length xs)
  split [] h = (refl, tt, tt, omega arith)
  split (i ∷ r) (h, hs) = elim (Bool-cases (leb i.run now)) [
    | inl e ↦
        let (q, dd, ll, le) = split r hs in
        let here : i.run ≤ now = ground arith in rw e (ap (◌∷◌ i) q, (here, dd), ll, omega arith)
    | inr e ↦
        let above : now < i.run = ground arith in
        let all = All-above now i.run r above h in
        let (d, p) = All-pending now r all in rw (e, d, p) (refl, tt, (above, all), omega arith)
  ]

  alarm_nil : (call : Call) (s : Timers) → s.first ≡ [] → timeralarm call now s ≡ ended [] s
  unfolding timeralarm
  alarm_nil call s e = ground arith

  alarm_cons :
      (call : Call) (s : Timers) (i : Item) (r : List Item)
      → s.first ≡ i ∷ r
      → timeralarm call now s ≡ alarm_loop call now (length s.first + 1) s
  unfolding timeralarm
  alarm_cons call s i r e = ground arith

  -- In a list in the order of the times, and with functions that do no more to the timers than to make
  -- timers of more than 0 seconds, an alarm calls exactly the timers that are due, in the order of the
  -- list, and leaves none that is due; or it reads through a null pointer, which happens only if no
  -- timer of the list is in the future.
  pub timeralarm-Rang :
      (call : Call) (s : Timers)
      → ((f a : ℕ) (t : Timers) → Schedules now t (call f a t))
      → IsSorted s.first
      → Rang (pending now s.first ≡ []) (due now s.first) (timeralarm call now s)
  timeralarm-Rang call s calls h = elim (List-cases s.first) [
    | inl e ↦ rw (alarm_nil call s e) (sym (ap (due now) e), subst (Later now) (sym e) tt)
    | inr (i, r, e) ↦
        let (q, dd, ll, le) = split s.first h in
        rw (alarm_cons call s i r e) (
          loop-Rang (pending now s.first ≡ []) call calls (due now s.first) (length s.first + 1) s
            dd (record { behind = pending now s.first; first_eq = q; later = ll; alone = λ z. z })
            (omega arith))
  ]

-- ===== src/Whowas/Examples.antt =====
-- Tests of the nickname history, and the theorems at concrete inputs.
use snservices.Base.{ℕ, ◌-◌, ◌≡◌, ◌≢◌, refl, true, some, [], ◌∷◌, arith}
use snservices.Cmp.{smycmp}
use snservices.Ban.{same_text}
use snservices.Whowas.{History, Who, initwhowas, add_history, get_history, off_history}
use snservices.Whowas.Newest.{Answered, get_history-Answered}
use snservices.Whowas.Added.{get_history-add_history, get_history-off_history}
use snservices.Whowas.Users.{Counted, Kept, Released, initwhowas-Counted, add_history-Counted}

-- Two clients that use the nicknames `joe` and `JIM`.
abbrev joe : Who
joe = record {
  id = 7;
  name = 106 ∷ 111 ∷ 101 ∷ [];
  info = [];
  user = 4;
  connected = true;
  channels = [];
}

abbrev jim : Who
jim = record joe { id = 8; user = 5; name = 74 ∷ 73 ∷ 77 ∷ [] }

abbrev no_refs : ℕ → ℕ
no_refs u = 0

-- Three entries.
abbrev both : History
both = add_history 3 0 20 jim (add_history 3 0 10 joe (initwhowas no_refs))

found_joe : get_history 3 (74 ∷ 111 ∷ 101 ∷ []) 60 30 both ≡ some 7
unfolding get_history add_history
found_joe = refl

too_late : get_history 3 joe.name 60 100 both ≡ some 0
unfolding get_history add_history
too_late = refl

-- The fourth client takes the place of the first.
overwritten :
    get_history 3 joe.name 60 30 (add_history 3 0 22 jim (add_history 3 0 21 jim both)) ≡ some 0
unfolding get_history add_history
overwritten = refl

get_history-Answered_example :
    Answered 3 both joe.name (30 - 60) (get_history 3 joe.name 60 30 both)
unfolding add_history
get_history-Answered_example = get_history-Answered 3 joe.name 60 30 both (omega arith)

get_history-add_history_example : get_history 3 jim.name 60 30 both ≡ some 8
unfolding add_history smycmp same_text
get_history-add_history_example =
    get_history-add_history 3 0 20 30 60 jim.name jim (add_history 3 0 10 joe (initwhowas no_refs))
      (omega arith) refl refl (omega arith)

get_history-off_history_example : get_history 3 joe.name 60 30 (off_history 3 7 both) ≢ some 7
unfolding add_history
get_history-off_history_example =
    get_history-off_history 3 60 30 7 joe.name both (omega arith) (λ e. omega (arith, e))

-- Each client refers to its user record.
abbrev one_ref : ℕ → ℕ
one_ref u = 1

-- With one entry, the record of `joe` is freed when `jim` takes the place of `joe`, who has left.
freed_joe : (add_history 1 0 20 jim (add_history 1 0 10 joe (initwhowas no_refs))).is_freed 4 ≡ true
unfolding add_history
freed_joe = refl

add_history-Counted_example :
    Counted 3 one_ref (add_history 3 0 10 joe (initwhowas one_ref))
    × Kept 3 one_ref (add_history 3 0 10 joe (initwhowas one_ref))
    × Released 3 one_ref 0 (add_history 3 0 10 joe (initwhowas one_ref))
add_history-Counted_example =
    add_history-Counted 3 one_ref 0 10 joe (initwhowas one_ref) (omega arith)
      (λ e. omega (arith, e)) (omega arith) (initwhowas-Counted 3 one_ref) (λ u n p. refl)

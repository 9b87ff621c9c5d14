-- ===== src/Whowas/Added.antt =====
-- `add_history` and `off_history` of ircd/src/whowas.c, as `get_history` sees them.
use snservices.Base.{
  ℕ, ◌-◌, ◌≡◌, ◌≢◌, ◌<◌, ◌≤◌, inl, inr, refl, sym, ◌∙◌, ap, subst, Bool, true, Option, none, some,
  leb, ltb, ◌==◌, if◌then◌else◌, Bytes, take, arith, Bool-cases, ==_iff, false≢true, zero_or_pos,
}
use snservices.Ban.{same_text}
use snservices.Whowas.{
  Name, History, Who, entry_of, add_history, newest, is_hit, get_history, off_history,
}
use snservices.Whowas.Newest.{older, Answered, get_history-Answered}

abbrev from_answer : Option ℕ → ℕ
from_answer none = 0
from_answer (some c) = c

module _ (size : ℕ) where
  -- `ww_index` stays inside the table.
  pub add_history_index :
      (held now : ℕ) (c : Who) (h : History)
      → 0 < size
      → (add_history size held now c h).ww_index < size
  unfolding add_history
  add_history_index held now c h p = ground (arith, p)

  newest-add_history :
      (held now : ℕ) (c : Who) (h : History)
      → h.ww_index < size
      → newest size (add_history size held now c h).ww_index ≡ h.ww_index
  unfolding add_history
  newest-add_history held now c h lt = ground (arith, lt)

  newest_entry :
      (held now : ℕ) (c : Who) (h : History)
      → (add_history size held now c h).was h.ww_index ≡ entry_of held now c
  unfolding add_history
  newest_entry held now c h = rw ((==_iff h.ww_index h.ww_index).1 refl) refl

  -- If the newest entry of all is hit, it is the one that `get_history` answers with.
  newest_hit :
      (h : History) (nick : Bytes) (since w : ℕ) (o : Option ℕ)
      → newest size h.ww_index ≡ w
      → 0 < size
      → is_hit size nick since (h.was w) ≡ true
      → Answered size h nick since o
      → o ≡ some (h.was w).ww_online
  newest_hit h nick since w o e p t a =
      let wp2 = newest size h.ww_index in
      let q : older size wp2 0 ≡ w = ground (arith, e) in
      let t' : is_hit size nick since (h.was (older size wp2 0)) ≡ true =
        subst (λ i. is_hit size nick since (h.was i) ≡ true) (sym q) t in
      elim a [
        | inl (k, x, r) ↦ elim (zero_or_pos k) [
          | inl z ↦
              r
              ∙ ap (λ i. some (h.was (older size wp2 i)).ww_online) z
              ∙ ap (λ i. some (h.was i).ww_online) q
          | inr z ↦ absurd (false≢true (sym (x.before 0 (omega arith) z) ∙ t'))
        ]
        | inr (n, r) ↦ absurd (false≢true (sym (n 0 (omega arith) p) ∙ t'))
      ]

  hit_by :
      (nick : Bytes) (since : ℕ) (x : Name)
      → same_text nick x.ww_nick ≡ true
      → since ≤ x.ww_logout
      → is_hit size nick since x ≡ true
  hit_by nick since x e k =
      let l : leb since x.ww_logout ≡ true = ground (arith, k) in rw (e, l) refl

  entry_nick : (held now : ℕ) (c : Who) → (entry_of held now c).ww_nick ≡ take 17 c.name
  unfolding entry_of
  entry_nick held now c = refl

  entry_logout : (held now : ℕ) (c : Who) → (entry_of held now c).ww_logout ≡ now
  unfolding entry_of
  entry_logout held now c = refl

  entry_online :
      (held now : ℕ) (c : Who) → c.connected ≡ true → (entry_of held now c).ww_online ≡ c.id
  unfolding entry_of
  entry_online held now c e = ap (λ (b : Bool). if b then c.id else 0) e

  -- A connected client that has just been added is what `get_history` answers for its nickname in any case
  -- of letters, as long as the time limit has not passed, whatever the history held before.
  pub get_history-add_history :
      (held now later timelimit : ℕ) (nick : Bytes) (c : Who) (h : History)
      → h.ww_index < size
      → c.connected ≡ true
      → same_text nick (take 17 c.name) ≡ true
      → later - timelimit ≤ now
      → get_history size nick timelimit later (add_history size held now c h) ≡ some c.id
  get_history-add_history held now later timelimit nick c h lt on same recent =
      let h' = add_history size held now c h in
      let e = newest_entry held now c h in
      let t : is_hit size nick (later - timelimit) (h'.was h.ww_index) ≡ true =
        subst (λ x. is_hit size nick (later - timelimit) x ≡ true) (sym e)
          (hit_by nick (later - timelimit) (entry_of held now c)
            (ap (same_text nick) (entry_nick held now c) ∙ same)
            (omega (arith, recent, entry_logout held now c))) in
      newest_hit h' nick (later - timelimit) h.ww_index _ (newest-add_history held now c h lt)
        (omega (arith, lt)) t
        (get_history-Answered size nick timelimit later h'
          (add_history_index held now c h (omega (arith, lt))))
      ∙ ap (λ x. some x.ww_online) e
      ∙ ap some (entry_online held now c on)

  off_index :
      (cptr : ℕ) (h : History) → h.ww_index < size → (off_history size cptr h).ww_index < size
  unfolding off_history
  off_index cptr h lt = lt

  off_entry :
      (cptr : ℕ) (h : History) (k : ℕ)
      → k < size
      → cptr ≢ 0
      → ((off_history size cptr h).was k).ww_online ≢ cptr
  unfolding off_history
  off_entry cptr h k lt n =
      let t : ltb k size ≡ true = ground (arith, lt) in
      elim (Bool-cases ((h.was k).ww_online == cptr)) [
        | inl e ↦ rw (t, e) (λ q. n (sym q))
        | inr e ↦ rw (t, e) (λ q. false≢true (sym e ∙ (==_iff _ _).1 q))
      ]

  -- A client that has been taken off the history is never what `get_history` answers.
  pub get_history-off_history :
      (timelimit now cptr : ℕ) (nick : Bytes) (h : History)
      → h.ww_index < size
      → cptr ≢ 0
      → get_history size nick timelimit now (off_history size cptr h) ≢ some cptr
  get_history-off_history timelimit now cptr nick h lt n e =
      let h' = off_history size cptr h in
      elim (get_history-Answered size nick timelimit now h' (off_index cptr h lt)) [
        | inl (k, x, r) ↦
            off_entry cptr h (older size (newest size h'.ww_index) k)
              (ground (arith, x.within, off_index cptr h lt)) n (ap from_answer (sym r ∙ e))
        | inr (x, r) ↦ n (sym (ap from_answer (sym r ∙ e)))
      ]

-- ===== src/Whowas/Users.antt =====
-- The user records that the history of ircd/src/whowas.c refers to: how often each is counted, and which
-- are freed.
use snservices.Base.{
  ℕ, ◌+◌, ◌≡◌, ◌≢◌, ◌<◌, ◌≤◌, inl, inr, refl, true, false, ◌==◌, ◌⊎◌, zero_or_pos, arith,
  Bool-cases, ==_iff,
}
use snservices.Whowas.{History, Who, initwhowas, put_at, let_go, entry_of, add_history}
use snservices.Whowas.Refs.{
  uses, uses-put_at, one_use, is_one, let_go_lem, counted_up, entry_user, uses_none, free_at_0_lem,
  free_at_0-freed,
}

-- The counts are right in the cleared table, where no record has been freed.
pub initwhowas-Counted :
    (size : ℕ) (outside : ℕ → ℕ) (u : ℕ)
    → u ≢ 0
    → outside u ≡ outside u + uses size u (initwhowas outside).was
initwhowas-Counted size outside u h = omega (arith, uses_none size u h)

module _ (size : ℕ) (outside : ℕ → ℕ) where
  -- `refcnt` is the number of references from outside of the history and from its entries.
  abbrev pub Counted : History → Type 0
  Counted h = (u : ℕ) → u ≢ 0 → h.refcnt u ≡ outside u + uses size u h.was

  -- A record to which an entry or something outside of the history refers has not been freed.
  abbrev pub Kept : History → Type 0
  Kept h = (u : ℕ) → u ≢ 0 → 0 < outside u + uses size u h.was → h.is_freed u ≡ false

  add_history_counts :
      (held now : ℕ) (c : Who) (h : History)
      → h.ww_index < size
      → c.user ≢ 0
      → Counted h
      → Counted (add_history size held now c h)
  unfolding add_history
  add_history_counts held now c h lt n w u nz =
      let i = h.ww_index in
      let old = (h.was i).ww_user in
      let e = entry_of held now c in
      let used : is_one old u ≤ h.refcnt u = omega (arith, w u nz, one_use size i u h.was lt) in
      omega (
        arith,
        counted_up c.user u (let_go old h.refcnt),
        let_go_lem old u h.refcnt nz used,
        uses-put_at size u i e h.was lt,
        w u nz,
        entry_user held now c u,
      )

  -- What is counted after `free_user` for a record that is counted in the end.
  still_used :
      (c : Who) (h : History) (u : ℕ)
      → h.ww_index < size
      → u ≢ 0
      → 0 < outside c.user
      → Counted h
      → 0
        < put_at c.user
            (let_go (h.was h.ww_index).ww_user h.refcnt c.user + 1)
            (let_go (h.was h.ww_index).ww_user h.refcnt)
            u
      → 0 < let_go (h.was h.ww_index).ww_user h.refcnt u
  still_used c h u lt nz out w p =
      let i = h.ww_index in
      let old = (h.was i).ww_user in
      let use_of_old = one_use size i u h.was lt in
      let used : is_one old u ≤ h.refcnt u = omega (arith, w u nz, use_of_old) in
      let after = let_go_lem old u h.refcnt nz used in
      elim (Bool-cases (c.user == u)) [
        | inl t ↦
            let by_client : 0 < outside u = rw ((==_iff c.user u).0 t) at out in
            omega (arith, by_client, w u nz, use_of_old, after)
        | inr t ↦
            let none_new : is_one c.user u ≡ 0 = rw t refl in
            omega (arith, p, counted_up c.user u (let_go old h.refcnt), none_new)
      ]

  -- The record of the entry that is overwritten is none, is still referred to, or is freed.
  abbrev pub Released : ℕ → History → Type 0
  Released old h = (old ≡ 0) ⊎ (0 < outside old + uses size old h.was) ⊎ (h.is_freed old ≡ true)

  freed :
      (held now : ℕ) (c : Who) (h : History)
      → h.ww_index < size
      → c.user ≢ 0
      → Counted h
      → (h.was h.ww_index).ww_user ≢ 0
      → outside (h.was h.ww_index).ww_user
          + uses size (h.was h.ww_index).ww_user (add_history size held now c h).was
        ≡ 0
      → (add_history size held now c h).is_freed (h.was h.ww_index).ww_user ≡ true
  unfolding add_history
  freed held now c h lt n w nz e =
      let old = (h.was h.ww_index).ww_user in
      let use_of_old = one_use size h.ww_index old h.was lt in
      let used : is_one old old ≤ h.refcnt old = omega (arith, w old nz, use_of_old) in
      let same : is_one old old ≡ 1 = rw ((==_iff old old).1 refl) refl in
      free_at_0-freed old h.refcnt h.is_freed nz (
        omega (
          arith,
          e,
          same,
          add_history_counts held now c h lt n w old nz,
          counted_up c.user old (let_go old h.refcnt),
          let_go_lem old old h.refcnt nz used,
        ))

  add_history-Released :
      (held now : ℕ) (c : Who) (h : History)
      → h.ww_index < size
      → c.user ≢ 0
      → Counted h
      → Released (h.was h.ww_index).ww_user (add_history size held now c h)
  add_history-Released held now c h lt n w =
      let old = (h.was h.ww_index).ww_user in
      let after = (add_history size held now c h).was in
      elim (Bool-cases (old == 0)) [
        | inl z ↦ inl ((==_iff old 0).0 z)
        | inr z ↦
            let nz : old ≢ 0 = λ q. ground (arith, z, q) in
            elim (zero_or_pos (outside old + uses size old after)) [
              | inr p ↦ inr (inl p)
              | inl e ↦ inr (inr (freed held now c h lt n w nz e))
            ]
      ]

  -- While `ww_index` is within the ring and the counts of all user records are right: to add a client,
  -- with a user record that something outside of the history refers to, keeps the counts right; no
  -- record to which an entry or something outside refers has been freed afterwards, if that was so
  -- before; and the record of the entry that is overwritten is freed, unless there was none or it is
  -- still referred to.
  pub add_history-Counted :
      (held now : ℕ) (c : Who) (h : History)
      → h.ww_index < size
      → c.user ≢ 0
      → 0 < outside c.user
      → Counted h
      → Kept h
      → Counted (add_history size held now c h)
        × Kept (add_history size held now c h)
        × Released (h.was h.ww_index).ww_user (add_history size held now c h)
  unfolding add_history
  add_history-Counted held now c h lt n out w k = (
    add_history_counts held now c h lt n w,
    λ u nz used.
        let counts = add_history_counts held now c h lt n w u nz in
        let left = still_used c h u lt nz out w (omega (arith, counts, used)) in
        let before =
          let_go_lem (h.was h.ww_index).ww_user u h.refcnt nz
            (omega (arith, w u nz, one_use size h.ww_index u h.was lt)) in
        free_at_0_lem (h.was h.ww_index).ww_user u h.refcnt h.is_freed
          (k u nz (omega (arith, w u nz, before, left))) left,
    add_history-Released held now c h lt n w,
  )

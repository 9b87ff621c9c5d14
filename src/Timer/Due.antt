-- ===== src/Timer/Due.antt =====
-- The timers that are due stay ahead of all that `timer` adds.
use snservices.Base.{
  ℕ, ◌≤◌, ◌<◌, ◌≡◌, ◌≢◌, refl, ap, ◌∙◌, inl, inr, true, false, List, [], ◌∷◌, ◌++◌, ltb, leb, All,
  arith, Bool-cases,
}
use snservices.Timer.{Item, Timers, place_after, place, new_item, schedule}
use snservices.Timer.Order.{All-place_after, All-place}

module _ (now : ℕ) where
  -- One state of the timers becomes another by calls of `timer` for more than 0 seconds.
  pub data Schedules : Timers → Timers → Type 0 where
    enough : {s : Timers} → Schedules s s
    one_more :
        {s t : Timers} (seconds func args : ℕ)
        → 0 < seconds
        → Schedules s t
        → Schedules s (schedule now seconds func args t)

  abbrev pub Later : List Item → Type 0
  Later xs = All (λ (i : Item). now < i.run) xs

  abbrev pub Due : List Item → Type 0
  Due xs = All (λ (i : Item). i.run ≤ now) xs

  -- The items `ds` that are due stay at the head of the list. If nothing is behind them then `Q`.
  pub record Split (Q : Type 0) (ds : List Item) (s : Timers) : Type 0 where
    pub behind : List Item
    pub first_eq : s.first ≡ ds ++ behind
    pub later : Later behind
    pub alone : behind ≡ [] → Q

  place_after_nonempty : (tc d : Item) (r : List Item) → place_after tc d r ≢ []
  unfolding place_after
  place_after_nonempty tc d [] e = cc
  place_after_nonempty tc d (x ∷ r) e = elim (Bool-cases (leb x.run tc.run)) [
    | inl q ↦ let e' = rw q at e in cc
    | inr q ↦ let e' = rw q at e in cc
  ]

  place_nonempty : (tc : Item) (r : List Item) → place tc r ≢ []
  unfolding place
  place_nonempty tc [] e = cc
  place_nonempty tc (x ∷ r) e = elim (Bool-cases (ltb tc.run x.run)) [
    | inl q ↦ let e' = rw q at e in cc
    | inr q ↦ place_after_nonempty tc x r (rw q at e)
  ]

  -- Where a new item goes: behind those that are due.
  record Behind (pre xs : List Item) : Type 0 where
    rest : List Item
    eq : xs ≡ pre ++ rest
    later : Later rest
    nonempty : rest ≢ []

  module _ (tc : Item) (l : now < tc.run) where
    place_after-Due :
        (d : Item) (ds later : List Item)
        → Due ds
        → Later later
        → Behind (d ∷ ds) (place_after tc d (ds ++ later))
    unfolding place_after
    place_after-Due d [] [] dd ll = record {
      rest = tc ∷ [];
      eq = refl;
      later = (l, tt);
      nonempty = λ e. cc;
    }
    place_after-Due d [] (x ∷ xs) dd (h, hs) = elim (Bool-cases (leb x.run tc.run)) [
      | inl e ↦ rw e (record {
        rest = place_after tc x xs;
        eq = refl;
        later = All-place_after (λ (i : Item). now < i.run) tc l x xs h hs;
        nonempty = place_after_nonempty tc x xs;
      })
      | inr e ↦
          rw e (record { rest = tc ∷ x ∷ xs; eq = refl; later = (l, (h, hs)); nonempty = λ e. cc })
    ]
    place_after-Due d (e ∷ es) later (h, hs) ll =
        let k = place_after-Due e es later hs ll in
        let le : leb e.run tc.run ≡ true = ground arith in
        rw le
          (record { rest = k.rest; eq = ap (◌∷◌ d) k.eq; later = k.later; nonempty = k.nonempty })

    place-Due : (ds later : List Item) → Due ds → Later later → Behind ds (place tc (ds ++ later))
    unfolding place
    place-Due [] later dd ll = record {
      rest = place tc later;
      eq = refl;
      later = All-place (λ (i : Item). now < i.run) tc l later ll;
      nonempty = place_nonempty tc later;
    }
    place-Due (d ∷ ds) later (h, hs) ll =
        let e : ltb tc.run d.run ≡ false = ground arith in rw e (place_after-Due d ds later hs ll)

  pub Schedules-Split :
      (Q : Type 0) (ds : List Item) (s t : Timers)
      → Due ds
      → Schedules s t
      → Split Q ds s
      → Split Q ds t
  unfolding schedule new_item
  Schedules-Split Q ds s _ dd enough h = h
  Schedules-Split Q ds s _ dd (one_more {t = t} seconds func args pos_s c) h =
      let k = Schedules-Split Q ds s t dd c h in
      let tc = new_item t.curtid now seconds func args in
      let b = place-Due tc (omega arith) ds k.behind dd k.later in
      record {
        behind = b.rest;
        first_eq = ap (place tc) k.first_eq ∙ b.eq;
        later = b.later;
        alone = λ e. absurd (b.nonempty e);
      }

-- ===== src/Whowas/Newest.antt =====
-- `get_history` of ircd/src/whowas.c: the loop ends, at the newest entry that fits.
use snservices.Base.{
  ℕ, zero, suc, ◌+◌, ◌-◌, ◌≡◌, ◌<◌, ◌≤◌, ◌⊎◌, inl, inr, refl, sym, ◌∙◌, ap, subst, Bool, true,
  false, not, ◌||◌, Option, some, leb, ltb, ◌==◌, if◌then◌else◌, Bytes, arith, Bool-cases, ==_iff,
}
use snservices.Whowas.{History, Walk, step_back, walk, newest, online_at, is_hit, get_history}

module _ (size : ℕ) where
  -- The index of the entry that is `k` entries older than the one at `wp2`.
  abbrev pub older : ℕ → ℕ → ℕ
  older wp2 k = if leb k wp2 then wp2 - k else wp2 + size - k

  abbrev walk_at : ℕ → ℕ → Walk size
  walk_at wp2 k = record { wp = older wp2 k; i = ltb wp2 k }

  -- Entry `k` is the first of those from `from` on that is hit, or none of them is.
  pub record First (hit : ℕ → Bool) (wp2 from k : ℕ) : Type 0 where
    pub within : k < size
    pub hits : hit (older wp2 k) ≡ true
    pub before : (j : ℕ) → from ≤ j → j < k → hit (older wp2 j) ≡ false

  abbrev pub NoHit : (ℕ → Bool) → ℕ → ℕ → Type 0
  NoHit hit wp2 from = (j : ℕ) → from ≤ j → j < size → hit (older wp2 j) ≡ false

  module _ (hit : ℕ → Bool) (wp2 : ℕ) (h2 : wp2 < size) where
    abbrev Ended : ℕ → Option (Walk size) → Type 0
    Ended from o =
        ((k : ℕ) × First hit wp2 from k × (o ≡ some (walk_at wp2 k)))
        ⊎ (NoHit hit wp2 from × (o ≡ some (walk_at wp2 size)))

    walk_path :
        {a b : ℕ} {i j : Bool}
        → a ≡ b
        → i ≡ j
        → ◌≡◌ {A = Walk size} (record { wp = a; i = i }) (record { wp = b; i = j })
    walk_path e f = rw (e, f) refl

    step_back-walk_at : (k : ℕ) → k < size → step_back size (walk_at wp2 k) ≡ walk_at wp2 (suc k)
    step_back-walk_at k h = elim (Bool-cases (leb k wp2)) [
      | inl e ↦ elim (Bool-cases (wp2 - k == 0)) [
        | inl f ↦ rw (e, f) (walk_path (ground arith) (ground arith))
        | inr f ↦ rw (e, f) (walk_path (ground arith) (ground arith))
      ]
      | inr e ↦ elim (Bool-cases (wp2 + size - k == 0)) [
        | inl f ↦ absurd (ground arith)
        | inr f ↦ rw (e, f) (walk_path (ground arith) (ground arith))
      ]
    ]

    at_or_behind :
        (k : ℕ)
        → hit (older wp2 k) ≡ false
        → (j : ℕ) → k ≤ j
        → (suc k ≤ j → hit (older wp2 j) ≡ false)
        → hit (older wp2 j) ≡ false
    at_or_behind k f j h g = elim (Bool-cases (j == k)) [
      | inl e ↦ subst (λ i. hit (older wp2 i) ≡ false) (sym ((==_iff j k).0 e)) f
      | inr e ↦ g (ground (arith, e, h))
    ]

    Ended-back :
        (k : ℕ) (o : Option (Walk size)) → hit (older wp2 k) ≡ false → Ended (suc k) o → Ended k o
    Ended-back k o f (inl (m, x, e)) = inl (
      m,
      record {
        within = x.within;
        hits = x.hits;
        before = λ j p q. at_or_behind k f j p (λ r. x.before j r q);
      },
      e,
    )
    Ended-back k o f (inr (x, e)) = inr ((λ j p q. at_or_behind k f j p (λ r. x j r q)), e)

    walk-Ended :
        (fuel k : ℕ) → k + fuel ≡ size → 0 < fuel → Ended k (walk size hit wp2 fuel (walk_at wp2 k))
    unfolding walk
    walk-Ended zero k e p = absurd (omega arith)
    walk-Ended (suc fuel) k e p = elim (Bool-cases (hit (older wp2 k))) [
      | inl f ↦ rw f (
          inl (
            k,
            record { within = omega arith; hits = f; before = λ j x y. absurd (omega arith) },
            refl,
          ))
      | inr f ↦
          rw (f, step_back-walk_at k (omega arith))
            (elim (Bool-cases (suc k == size)) [
              | inl g ↦
                  let t : (older wp2 (suc k) == wp2) ≡ true = ground (arith, g) in
                  let q : suc k ≡ size = (==_iff (suc k) size).0 g in
                  rw t (
                    inr (
                      (λ j x y. at_or_behind k f j x (λ z. absurd (omega (arith, z, y, q)))),
                      ap (λ n. some (walk_at wp2 n)) q,
                    ))
              | inr g ↦
                  let t : (older wp2 (suc k) == wp2) ≡ false = ground (arith, g) in
                  rw t
                    (Ended-back k _ f (walk-Ended fuel (suc k) (omega arith) (ground (arith, g))))
            ])
    ]

    first_walk : ◌≡◌ {A = Walk size} (record { wp = wp2; i = false }) (walk_at wp2 0)
    first_walk = walk_path (ground arith) (ground arith)

    Ended-online :
        (h : History) (o : Option (Walk size))
        → Ended 0 o
        → ((k : ℕ) × First hit wp2 0 k
            × (online_at size h wp2 o ≡ some (h.was (older wp2 k)).ww_online))
          ⊎ (NoHit hit wp2 0 × (online_at size h wp2 o ≡ some 0))
    Ended-online h o (inl (k, x, e)) =
        let t : (not (older wp2 k == wp2) || not (ltb wp2 k)) ≡ true =
          ground (arith, x.within, h2) in
        inl (k, x, ap (online_at size h wp2) e ∙ rw t refl)
    Ended-online h o (inr (x, e)) =
        let t : (not (older wp2 size == wp2) || not (ltb wp2 size)) ≡ false = ground (arith, h2) in
        inr (x, ap (online_at size h wp2) e ∙ rw t refl)

  -- What `get_history` answers: with a newest entry that is hit, its client, which may be NULL, and NULL if
  -- there is none.
  abbrev pub Answered : History → Bytes → ℕ → Option ℕ → Type 0
  Answered h nick since o =
      let hit : ℕ → Bool = λ k. is_hit size nick since (h.was k) in
      ((k : ℕ) × First hit (newest size h.ww_index) 0 k
        × (o ≡ some (h.was (older (newest size h.ww_index) k)).ww_online))
      ⊎ (NoHit hit (newest size h.ww_index) 0 × (o ≡ some 0))

  -- The loop of `get_history` is at its end after `size` rounds at most. It answers with the client of the
  -- newest of all entries that have the nickname and are recent enough, or with NULL if none of the entries
  -- is such.
  pub get_history-Answered :
      (nick : Bytes) (timelimit now : ℕ) (h : History)
      → h.ww_index < size
      → Answered h nick (now - timelimit) (get_history size nick timelimit now h)
  unfolding get_history
  get_history-Answered nick timelimit now h lt =
      let wp2 = newest size h.ww_index in
      let h2 : wp2 < size = ground (arith, lt) in
      let hit : ℕ → Bool = λ k. is_hit size nick (now - timelimit) (h.was k) in
      let e : Ended hit wp2 h2 0 (walk size hit wp2 size (record { wp = wp2; i = false })) =
        subst (λ w. Ended hit wp2 h2 0 (walk size hit wp2 size w)) (sym (first_walk hit wp2 h2))
          (walk-Ended hit wp2 h2 size 0 (omega arith) (omega (arith, lt))) in
      Ended-online hit wp2 h2 h _ e

-- ===== src/Match/Verdict.antt =====
-- `r_match` answers exactly the question whether the name matches.
use snservices.Base.{
  ℕ, zero, suc, ◌*◌, ◌≤◌, ◌<◌, ◌≡◌, ◌≢◌, refl, sym, ap, ◌∙◌, inl, inr, true, false, ◌&&◌, Option,
  none, some, List, [], ◌∷◌, ◌==◌, if◌then◌else◌, Bytes, length, arith, false≢true, Bool-cases,
  List-cases, drop_all, subst₂,
}
use snservices.Match.{
  State, Outcome, ret, go, overrun, star_byte, any_byte, backslash, is_wild, skip_stars, enter,
  back_star, retry, compare_byte, left_over, rest_of_round, round, loop, start, r_match,
}
use snservices.Match.Tokens.{
  Token, lit, any, star, tokens, Matches, done, stop, byte_at_end, star_at_end,
}
use snservices.Match.Stars.{NotStar}
use snservices.Match.Enter.{enter-Entered}
use snservices.Match.Search.{
  Inv, measure, Good, Good-if, compare_byte-Good, back_again-Good, retry-Good, NotStar-cons,
  nil_only,
}

tokens_nil : Matches (tokens []) []
unfolding tokens
tokens_nil = done

tokens-plain :
    (a : ℕ) (r : Bytes)
    → (a == star_byte) ≡ false
    → (t : Token) × (p : List Token) × (tokens (a ∷ r) ≡ t ∷ p) × (t ≢ star)
unfolding tokens
tokens-plain a [] ns = elim (Bool-cases (a == any_byte)) [
  | inl q ↦ (any, [], ground arith, λ e. cc)
  | inr q ↦ (lit a, [], ground arith, λ e. cc)
]
tokens-plain a (d ∷ r) ns = elim (Bool-cases (a == backslash && is_wild d)) [
  | inl h ↦ (lit d, tokens r, ground arith, λ e. cc)
  | inr h ↦ elim (Bool-cases (a == any_byte)) [
    | inl q ↦ (any, tokens (d ∷ r), ground arith, λ e. cc)
    | inr q ↦ (lit a, tokens (d ∷ r), ground arith, λ e. cc)
  ]
]

-- What the rest of a round does, case by case.
module _ (s : State) where
  round_ends : s.m.rest ≡ [] → s.n ≡ [] → rest_of_round s ≡ ret 0
  unfolding rest_of_round
  round_ends em en = ground arith

  round_mask_end :
      (c : ℕ) (n' : Bytes)
      → s.m.rest ≡ []
      → s.n ≡ c ∷ n'
      → rest_of_round s
        ≡ (if back_star s.m.before then ret 0 else if s.wild then retry s compare_byte else ret 1)
  unfolding rest_of_round
  round_mask_end c n' em en = ground arith

  round_name_end :
      (a : ℕ) (r : Bytes)
      → s.m.rest ≡ a ∷ r
      → s.n ≡ []
      → (a == star_byte) ≡ false
      → rest_of_round s ≡ ret 1
  unfolding rest_of_round skip_stars left_over
  round_name_end a r em en ns = ground arith

  round_compares :
      (a : ℕ) (r : Bytes) (c : ℕ) (n' : Bytes)
      → s.m.rest ≡ a ∷ r
      → s.n ≡ c ∷ n'
      → rest_of_round s ≡ compare_byte s
  unfolding rest_of_round
  round_compares a r c n' em en = ground arith

-- 0 where the answer is yes, 1 where it is no, and never an overrun.
abbrev pub Answers : Type 0 → Option ℕ → Type 0
Answers G (some zero) = G
Answers G (some (suc zero)) = ¬ G
Answers G _ = ⊥

module _ (G : Type 0) (k : ℕ) where
  end-Good :
      (b : ℕ) (s : State) (c : ℕ) (n' : Bytes)
      → Inv G k s
      → measure G k s ≤ b
      → s.m.rest ≡ []
      → s.n ≡ c ∷ n'
      → Good G k b (rest_of_round s)
  end-Good b s c n' i le em en = rw (round_mask_end s c n' em en) (
      Good-if G k b (back_star s.m.before) _ _
        (λ h. i.skip h (length s.n) (
          subst₂ (λ x y. Matches (tokens x) y) (sym em)
            (sym (drop_all (length s.n) s.n (omega arith))) tokens_nil))
        (λ _.
          Good-if G k b s.wild _ _
            (λ w.
              retry-Good G k s i b c n' compare_byte w en (nil_only s.m.rest s.n c n' em en)
                λ q size v.
                  back_again-Good G k b _ v (omega (arith, i.bound, ap (λ (z : ℕ). z * suc k) size))
                    refl w (full q size))
            (λ w g. nil_only s.m.rest s.n c n' em en (i.first w g))))
    where
      full : (q : Bytes) → length s.na ≡ suc (length q) → s.ma.rest ≢ [] → q ≢ []
      full q size more_mask e = elim (List-cases s.ma.rest) [
        | inl z ↦ more_mask z
        | inr (x, xs, z) ↦
            omega (
              arith,
              i.strict (omega (arith, ap length em, ap length z)),
              ap length en,
              ap length e,
            )
      ]

  rest-Good :
      (b : ℕ) (s : State)
      → Inv G k s
      → measure G k s ≤ b
      → NotStar s.m.rest
      → Good G k b (rest_of_round s)
  rest-Good b s i le ns = elim (List-cases s.m.rest) [
    | inl em ↦ elim (List-cases s.n) [
      | inl en ↦
          rw (round_ends s em en)
            (i.now (subst₂ (λ x y. Matches (tokens x) y) (sym em) (sym en) tokens_nil))
      | inr (c, n', en) ↦ end-Good b s c n' i le em en
    ]
    | inr (a, r, em) ↦
        let na = NotStar-cons s.m.rest a r em ns in
        elim (List-cases s.n) [
          | inl en ↦
              let (t, p, et, ne) = tokens-plain a r na in
              rw (round_name_end s a r em en na) (λ g. byte_at_end {p = p} t ne (
                star_at_end {p = t ∷ p}
                  (subst₂ (λ x y. Matches (star ∷ x) y) (ap tokens em ∙ et) en (i.later g))))
          | inr (c, n', en) ↦
              rw (round_compares s a r c n' em en)
                (compare_byte-Good G k b s a r c n' i le em en na)
        ]
  ]

  round-Good : (s : State) → Inv G k s → Good G k (measure G k s) (round s)
  unfolding round
  round-Good s i =
      let e = enter-Entered G k s i in
      rest-Good (measure G k s) (enter s) e.inv e.measure_le e.plain

  loop-Answers : (fuel : ℕ) (s : State) → Inv G k s → measure G k s < fuel → Answers G (loop fuel s)
  unfolding loop
  loop-Answers zero s i lt = absurd (omega arith)
  loop-Answers (suc fuel) s i lt = by_outcome (round s) (round-Good s i) (loop-Answers fuel)
    where
      by_outcome :
          (o : Outcome)
          → Good G k (measure G k s) o
          → ((t : State) → Inv G k t → measure G k t < fuel → Answers G (loop fuel t))
          → Answers G (elim o [ ret r ↦ some r | overrun ↦ none | go t ↦ loop fuel t ])
      by_outcome (ret zero) g later = g
      by_outcome (ret (suc zero)) g later = g
      by_outcome (ret (suc (suc n))) g later = g
      by_outcome (go t) g later = later t g.0 (omega (arith, g.1))
      by_outcome overrun g later = g

back_star_nil : ¬ (back_star [] ≡ true)
unfolding back_star
back_star_nil h = false≢true h

-- The search ends within its fuel and inside the name, and returns 0 exactly if the name matches.
pub r_match-Answers : (mask name : Bytes) → Answers (Matches (tokens mask) name) (r_match mask name)
unfolding r_match
r_match-Answers mask name =
    loop-Answers (Matches (tokens mask) name) (length mask) _ (start mask name)
      (record {
        now = λ d. d;
        later = stop;
        skip = λ h. absurd (back_star_nil h);
        first = λ _ d. d;
        saved = λ e. absurd (false≢true e);
        shorter = omega arith;
        strict = λ h. absurd (omega arith);
        mask_bound = omega arith;
        bound = omega arith;
      })
      (omega arith)

-- ===== src/Match/Search.antt =====
-- The rounds of `r_match`, and what they know about the question that was asked.
use snservices.Base.{
  ℕ, zero, suc, ◌+◌, ◌*◌, ◌≤◌, ◌<◌, ◌≡◌, ◌≢◌, refl, sym, ap, ◌∙◌, inl, inr, Bool, true, false, List,
  [], ◌∷◌, ◌==◌, if◌then◌else◌, Bytes, length, drop, arith, false≢true, List-cases, subst, subst₂,
}
use snservices.Match.{
  Pos, State, Outcome, ret, go, overrun, star_byte, back_star, retry, compare_byte,
}
use snservices.Match.Tokens.{
  Token, any, star, tokens, Accepts, Matches, byte, stop, more, byte_inv, star_on, star_drop,
  star_byte_on,
}
use snservices.Match.Stars.{NotStar, any_skip}
use snservices.Match.Compare.{fits, misses, compared, both_ended, mask_ended}

pub NotStar-cons :
    (m : Bytes) (a : ℕ) (r : Bytes) → m ≡ a ∷ r → NotStar m → (a == star_byte) ≡ false
NotStar-cons m a r e h = subst NotStar e h

pub nil_only : (m n : Bytes) (c : ℕ) (n' : Bytes) → m ≡ [] → n ≡ c ∷ n' → ¬ Matches (tokens m) n
unfolding tokens
nil_only m n c n' em en d = elim (subst₂ (λ x y. Matches (tokens x) y) em en d) [ ]

-- What a run knows of the question `G`, asked of the mask: `k` bounds the mask.
module _ (G : Type 0) (k : ℕ) where
  -- What the saved star is good for.
  pub record Saved (s : State) : Type 0 where
    pub sound : Matches (star ∷ tokens s.ma.rest) s.na → G
    pub complete : G → Matches (star ∷ tokens s.ma.rest) s.na
    pub plain : NotStar s.ma.rest
    pub down : Matches (tokens s.ma.rest) s.na → Matches (tokens s.m.rest) s.n

  pub record Inv (s : State) : Type 0 where
    pub now : Matches (tokens s.m.rest) s.n → G
    pub later : G → Matches (star ∷ tokens s.m.rest) s.n
    pub skip : back_star s.m.before ≡ true → (j : ℕ) → Matches (tokens s.m.rest) (drop j s.n) → G
    pub first : s.wild ≡ false → G → Matches (tokens s.m.rest) s.n
    pub saved : s.wild ≡ true → Saved s
    pub shorter : length s.n ≤ length s.na
    pub strict : length s.m.rest < length s.ma.rest → length s.n < length s.na
    pub mask_bound : length s.m.rest ≤ length s.ma.rest
    pub bound : length s.ma.rest ≤ k

  abbrev pub measure : State → ℕ
  measure s = length s.na * suc k + length s.m.rest

  -- A fresh start behind a star.
  pub restart-Inv :
      (p : Pos) (n : Bytes) (w : Bool)
      → w ≡ true
      → NotStar p.rest
      → (Matches (star ∷ tokens p.rest) n → G)
      → (G → Matches (star ∷ tokens p.rest) n)
      → length p.rest ≤ k
      → Inv (record { m = p; n = n; ma = p; na = n; wild = w })
  restart-Inv p n w ew ns sound complete b = record {
    now = λ d. sound (stop d);
    later = complete;
    skip = λ _ j d. sound (star_drop j n d);
    first = λ e. absurd (false≢true (sym e ∙ ew));
    saved = λ _. record { sound = sound; complete = complete; plain = ns; down = λ d. d };
    shorter = omega arith;
    strict = λ h. absurd (omega arith);
    mask_bound = omega arith;
    bound = b;
  }

  -- What a round may come to.
  abbrev pub Good : ℕ → Outcome → Type 0
  Good b (ret zero) = G
  Good b (ret (suc zero)) = ¬ G
  Good b (ret (suc (suc _))) = ⊥
  Good b (go s) = Inv s × (measure s < b)
  Good b overrun = ⊥

  pub Good-if :
      (b : ℕ) (w : Bool) (x y : Outcome)
      → (w ≡ true → Good b x)
      → (w ≡ false → Good b y)
      → Good b (if w then x else y)
  Good-if b true x y hx hy = hx refl
  Good-if b false x y hx hy = hy refl

  module _ (s : State) (i : Inv s) where
    fits-Inv :
        (t : Token) (m' : Pos) (c : ℕ) (n' : Bytes)
        → s.n ≡ c ∷ n'
        → tokens s.m.rest ≡ t ∷ tokens m'.rest
        → t ≢ star
        → Accepts t c
        → length m'.rest < length s.m.rest
        → (back_star m'.before ≡ true → (t ≡ any) × (back_star s.m.before ≡ true))
        → Inv (record s { m = m'; n = n' })
    fits-Inv t m' c n' en et ne ok lt back = record {
      now = λ d. i.now (rw (et, en) (byte ok d));
      later = λ g. star_byte_on t n' ne (rw (et, en) at (i.later g));
      skip = λ h j d.
          let (ea, eb) = back h in
          let (x, y) = any_skip (tokens m'.rest) j c n' d in i.skip eb x (rw (et, en, ea) y);
      first = λ w g. (byte_inv t ne (rw (et, en) at (i.first w g))).1;
      saved = λ w.
          let v = i.saved w in
          record {
            sound = v.sound;
            complete = v.complete;
            plain = v.plain;
            down = λ d. (byte_inv t ne (rw (et, en) at (v.down d))).1;
          };
      shorter = omega (arith, i.shorter, ap length en);
      strict = λ _. omega (arith, i.shorter, ap length en);
      mask_bound = omega (arith, i.mask_bound);
      bound = i.bound;
    }

    -- Going back to the star, which has to take a byte more.
    pub retry-Good :
        (b c : ℕ) (n' : Bytes) (next : State → Outcome)
        → s.wild ≡ true
        → s.n ≡ c ∷ n'
        → ¬ Matches (tokens s.m.rest) s.n
        → ((r : Bytes)
            → length s.na ≡ suc (length r)
            → Inv (record s { m = s.ma; n = r; na = r })
            → Good b (next (record s { m = s.ma; n = r; na = r })))
        → Good b (retry s next)
    unfolding retry
    retry-Good b c n' next w en miss go_on = elim (List-cases s.na) [
      | inl e ↦ absurd (omega (arith, i.shorter, ap length e, ap length en))
      | inr (x, r, e) ↦
          rw (e, retry)
            (go_on r (ap length e) (
              restart-Inv s.ma r s.wild w v.plain (λ d. v.sound (rw e (more d)))
                (λ g. star_on (rw e at (v.complete g)) (λ d. miss (v.down (rw e d)))) i.bound))
    ]
      where
        v : Saved s
        v = i.saved w

  -- A comparison keeps what is known, or answers the question.
  pub compare_byte-Good :
      (b : ℕ) (s : State) (a : ℕ) (r : Bytes) (c : ℕ) (n' : Bytes)
      → Inv s
      → measure s ≤ b
      → s.m.rest ≡ a ∷ r
      → s.n ≡ c ∷ n'
      → (a == star_byte) ≡ false
      → Good b (compare_byte s)
  compare_byte-Good b s a r c n' i le em en ns = elim (compared s a r c n' em en ns) [
    | fits t m' et ne ok lt back e ↦ rw e (fits-Inv s i t m' c n' en et ne ok lt back, omega arith)
    | misses t p et ne refused e ↦ rw e (
        Good-if b s.wild _ _
          (λ w.
            retry-Good s i b c n' go w en (missed t p et ne refused)
              λ q size v. (v, omega (arith, i.bound, ap (λ (z : ℕ). z * suc k) size)))
          (λ w g. missed t p et ne refused (i.first w g)))
  ]
    where
      missed :
          (t : Token) (p : List Token)
          → tokens s.m.rest ≡ t ∷ p
          → t ≢ star
          → ¬ Accepts t c
          → ¬ Matches (tokens s.m.rest) s.n
      missed t p et ne refused d = refused (byte_inv t ne (rw (et, en) at d)).0

  -- The comparison that follows at once when the end of the mask made the search go back.
  pub back_again-Good :
      (b : ℕ) (s : State)
      → Inv s
      → measure s < b
      → s.m ≡ s.ma
      → s.wild ≡ true
      → (s.ma.rest ≢ [] → s.n ≢ [])
      → Good b (compare_byte s)
  back_again-Good b s i lt same w full = elim (List-cases s.m.rest) [
    | inl em ↦ elim (List-cases s.n) [
      | inl en ↦ rw (both_ended s em en) (i, lt)
      | inr (c, n', en) ↦ rw (mask_ended s em c n' en) (
          Good-if b s.wild _ _
            (λ w.
              retry-Good s i b c n' go w en (nil_only s.m.rest s.n c n' em en)
                λ q size v. (v, omega (arith, i.bound, ap (λ (z : ℕ). z * suc k) size)))
            (λ w' g. absurd (nil_only s.m.rest s.n c n' em en (i.first w' g))))
    ]
    | inr (a, r, em) ↦ elim (List-cases s.n) [
      | inl en ↦ absurd (full (λ z. cc (ap (λ (x : Pos). x.rest) same)) en)
      | inr (c, n', en) ↦
          compare_byte-Good b s a r c n' i (omega arith) em en
            (NotStar-cons s.m.rest a r em (rw same (i.saved w).plain))
    ]
  ]

-- ===== src/Text/Prefix.antt =====
-- `index_left_part` looks for a text at the left end of another.
use snservices.Base.{
  ℕ, ◌+◌, ◌≡◌, refl, sym, ◌∙◌, ◌⊎◌, inl, inr, true, false, [], ◌∷◌, ◌==◌, Bytes, length, arith,
  Bool-cases, ==_iff, false≢true,
}
use snservices.Match.{irc_tolower}
use snservices.Match.Tokens.{SameCase}
use snservices.Text.{left_loop, index_left_part}

-- The second text begins the first, up to case.
pub data Begins : Bytes → Bytes → Type 0 where
  all : {text : Bytes} → Begins text []
  next : {t c : ℕ} {text s : Bytes} → SameCase t c → Begins text s → Begins (t ∷ text) (c ∷ s)

same : (t c : ℕ) → SameCase t c → (irc_tolower t == irc_tolower c) ≡ true
same t c e = (==_iff (irc_tolower t) (irc_tolower c)).1 e

-- `i` and the bytes of the second text if it begins the first, else 0.
left_loop_lem :
    (i : ℕ) (text s : Bytes)
    → (Begins text s × (left_loop i text s ≡ i + length s))
      ⊎ ((¬ Begins text s) × (left_loop i text s ≡ 0))
unfolding left_loop
left_loop_lem i text [] = inl (all, omega arith)
left_loop_lem i [] (c ∷ s) = inr (λ b. elim b [ ], refl)
left_loop_lem i (t ∷ text) (c ∷ s) = elim (Bool-cases (irc_tolower t == irc_tolower c)) [
  | inr e ↦ inr (λ b. differs b e, rw e refl)
  | inl e ↦ elim (left_loop_lem (i + 1) text s) [
    | inl (b, q) ↦
        inl (next ((==_iff (irc_tolower t) (irc_tolower c)).0 e) b, rw e (omega (arith, q)))
    | inr (n, q) ↦ inr (λ b. n (behind b), rw e q)
  ]
]
  where
    differs : Begins (t ∷ text) (c ∷ s) → (irc_tolower t == irc_tolower c) ≡ false → ⊥
    differs (next h _) e = false≢true (sym e ∙ same t c h)

    behind : Begins (t ∷ text) (c ∷ s) → Begins text s
    behind (next _ b) = b

-- If the second text begins the first up to case, its length is returned, else 0.
pub index_left_part_lem :
    (text substring : Bytes)
    → (Begins text substring × (index_left_part text substring ≡ length substring))
      ⊎ ((¬ Begins text substring) × (index_left_part text substring ≡ 0))
unfolding index_left_part
index_left_part_lem text substring = elim (left_loop_lem 0 text substring) [
  | inl (b, q) ↦ inl (b, omega (arith, q))
  | inr n ↦ inr n
]

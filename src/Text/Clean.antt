-- ===== src/Text/Clean.antt =====
-- What `clean_channelname` leaves.
use snservices.Base.{ℕ, ◌≡◌, refl, ap, inl, inr, true, false, [], ◌∷◌, ◌++◌, Bytes, All, Bool-cases}
use snservices.Text.{is_unclean, clean_channelname}

-- Nothing follows, or a byte that may not stand in a name.
abbrev pub Cut : Bytes → Type 0
Cut [] = Unit
Cut (c ∷ _) = is_unclean c ≡ true

clean_nil : clean_channelname [] ≡ []
unfolding clean_channelname
clean_nil = refl

cons_clean :
    (c : ℕ) (cn : Bytes)
    → is_unclean c ≡ false
    → clean_channelname (c ∷ cn) ≡ c ∷ clean_channelname cn
unfolding clean_channelname
cons_clean c cn e = rw e refl

cons_cut : (c : ℕ) (cn : Bytes) → is_unclean c ≡ true → clean_channelname (c ∷ cn) ≡ []
unfolding clean_channelname
cons_cut c cn e = rw e refl

-- The name that is left is free of the bytes that may not stand in a name, and it is the whole name or the
-- part in front of the first such byte.
pub clean_channelname_lem :
    (cn : Bytes)
    → All (λ c. is_unclean c ≡ false) (clean_channelname cn)
      × ((rest : Bytes) × (cn ≡ clean_channelname cn ++ rest) × Cut rest)
clean_channelname_lem [] = rw clean_nil (tt, ([], refl, tt))
clean_channelname_lem (c ∷ cn) = elim (Bool-cases (is_unclean c)) [
  | inl e ↦ rw (cons_cut c cn e) (tt, (c ∷ cn, refl, e))
  | inr e ↦
      let (clean, (rest, q, cut)) = clean_channelname_lem cn in
      rw (cons_clean c cn e) ((e, clean), (rest, ap (◌∷◌ c) q, cut))
]

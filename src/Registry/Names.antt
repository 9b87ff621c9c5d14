-- ===== src/Registry/Names.antt =====
-- The names by which records are found: `getHashKey` of services/hash.c, and `strcasecmp`.
use Prim.Native.Nat.{bit_or, bit_xor}
use snservices.Base.{
  ℕ, ◌+◌, ◌*◌, ◌/◌, ◌%◌, ◌^◌, ◌≡◌, refl, ap, ◌∙◌, inl, inr, Bool, true, false, ◌&&◌, [], ◌∷◌, leb,
  ◌==◌, if◌then◌else◌, Bytes, Bool-cases, ==_iff, map, sym, false≢true,
}

-- `tolower` of the C locale.
pub tolower : ℕ → ℕ
tolower c = if leb 65 c && leb c 90 then c + 32 else c

-- `strcasecmp(s, t) == 0`
unfoldable pub same_name : Bytes → Bytes → Bool
unfolding tolower
same_name [] [] = true
same_name (a ∷ s) (c ∷ t) =
    let rest = same_name s t in if tolower a == tolower c then rest else false
same_name [] (_ ∷ _) = false
same_name (_ ∷ _) [] = false

-- One turn of the loop, on a `u_int16_t`.
hash_step : ℕ → ℕ → ℕ
unfolding tolower
hash_step hash c = bit_xor (bit_or (hash * 2 ^ 3) (hash / 2 ^ 13) % 2 ^ 16) (tolower c) % 2 ^ 16

hash_loop : ℕ → Bytes → ℕ
unfolding hash_step
hash_loop hash [] = hash
hash_loop hash (c ∷ name) = hash_loop (hash_step hash c) name

unfoldable pub get_hash_key : Bytes → ℕ
unfolding hash_loop
get_hash_key hname = hash_loop 21845 hname

hash_step-same : (h a c : ℕ) → tolower a ≡ tolower c → hash_step h a ≡ hash_step h c
unfolding hash_step
hash_step-same h a c e = ap (λ z. bit_xor (bit_or (h * 2 ^ 3) (h / 2 ^ 13) % 2 ^ 16) z % 2 ^ 16) e

hash_loop-same : (h : ℕ) (s t : Bytes) → same_name s t ≡ true → hash_loop h s ≡ hash_loop h t
unfolding same_name hash_loop
hash_loop-same h [] [] e = refl
hash_loop-same h (a ∷ s) (c ∷ t) e = elim (Bool-cases (tolower a == tolower c)) [
  | inl q ↦
      ap (λ z. hash_loop z s) (hash_step-same h a c ((==_iff (tolower a) (tolower c)).0 q))
      ∙ hash_loop-same (hash_step h c) s t (rw q at e)
  | inr q ↦ let e' = rw q at e in absurd cc
]
hash_loop-same h [] (_ ∷ _) e = absurd cc
hash_loop-same h (_ ∷ _) [] e = absurd cc

-- Names that are equal without regard to case have the same hash key.
pub same_name-get_hash_key : (s t : Bytes) → same_name s t ≡ true → get_hash_key s ≡ get_hash_key t
unfolding get_hash_key
same_name-get_hash_key s t e = hash_loop-same 21845 s t e

-- The bucket of a name.
abbrev pub key : ℕ → Bytes → ℕ
key size s = get_hash_key s % size

pub same_name-key : (size : ℕ) (s t : Bytes) → same_name s t ≡ true → key size s ≡ key size t
same_name-key size s t e = ap (λ z. z % size) (same_name-get_hash_key s t e)

abbrev low : Bytes → Bytes
low s = map tolower s

same_name-low : (s t : Bytes) → same_name s t ≡ true → low s ≡ low t
unfolding same_name
same_name-low [] [] e = refl
same_name-low (a ∷ s) (c ∷ t) e = elim (Bool-cases (tolower a == tolower c)) [
  | inl q ↦
      let rest = same_name-low s t (rw q at e) in
      ap (λ z. z ∷ low s) ((==_iff (tolower a) (tolower c)).0 q) ∙ ap (◌∷◌ (tolower c)) rest
  | inr q ↦ let e' = rw q at e in absurd cc
]
same_name-low [] (_ ∷ _) e = absurd cc
same_name-low (_ ∷ _) [] e = absurd cc

heads_eq : (a c : ℕ) (s t : Bytes) → a ∷ s ≡ c ∷ t → (a ≡ c) × (s ≡ t)
heads_eq a c s t e = (cc, cc)

low-same_name : (s t : Bytes) → low s ≡ low t → same_name s t ≡ true
unfolding same_name
low-same_name [] [] e = refl
low-same_name (a ∷ s) (c ∷ t) e =
    let (p, q) = heads_eq (tolower a) (tolower c) (low s) (low t) e in
    rw ((==_iff (tolower a) (tolower c)).1 p) (low-same_name s t q)
low-same_name [] (_ ∷ _) e = absurd cc
low-same_name (_ ∷ _) [] e = absurd cc

-- Being the same name is an equivalence.
pub same_name_refl : (s : Bytes) → same_name s s ≡ true
same_name_refl s = low-same_name s s refl

pub same_name_sym : (s t : Bytes) → same_name s t ≡ same_name t s
same_name_sym s t = elim (Bool-cases (same_name s t)) [
  | inl e ↦ e ∙ sym (low-same_name t s (sym (same_name-low s t e)))
  | inr e ↦ elim (Bool-cases (same_name t s)) [
    | inl q ↦ absurd (false≢true (sym e ∙ low-same_name s t (sym (same_name-low t s q))))
    | inr q ↦ e ∙ sym q
  ]
]

pub same_name_trans :
    (s t u : Bytes) → same_name s t ≡ true → same_name t u ≡ true → same_name s u ≡ true
same_name_trans s t u e f = low-same_name s u (same_name-low s t e ∙ same_name-low t u f)

pub spelling : (r s t : Bytes) → same_name s t ≡ true → same_name r s ≡ same_name r t
spelling r s t e = elim (Bool-cases (same_name r s)) [
  | inl q ↦ q ∙ sym (same_name_trans r s t q e)
  | inr q ↦ elim (Bool-cases (same_name r t)) [
    | inl p ↦ absurd (false≢true (sym q ∙ same_name_trans r t s p (sym (same_name_sym s t) ∙ e)))
    | inr p ↦ q ∙ sym p
  ]
]

-- ===== src/Akill/Compare.antt =====
-- How services/akill.c compares a mask and a type with an entry.
use snservices.Base.{
  ℕ, ◌≡◌, ◌≢◌, ◌⊎◌, inl, inr, refl, sym, ap, ◌∙◌, true, false, ◌||◌, false≢true, Option, none, some,
  [], ◌∷◌, ◌==◌, Bytes, Bool-cases, ==_iff,
}
use snservices.Akill.{AkillItem, Parts, equal_text, equal_part, same_mask}
use snservices.Akill.Removal.{equal_text_refl}

-- The entry has a user and a host.
abbrev pub IsFull : AkillItem → Type 0
IsFull ak = (ak.user ≢ none) × (ak.host ≢ none)

-- The three parts of the mask are those of the entry.
abbrev pub SameMask : Parts → AkillItem → Type 0
SameMask p ak = (p.nick ≡ ak.nick) × (p.user ≡ ak.user) × (p.host ≡ ak.host)

equal_text_sound : (s t : Bytes) → equal_text s t ≡ true → s ≡ t
unfolding equal_text
equal_text_sound [] [] h = refl
equal_text_sound [] (a ∷ t) h = absurd (false≢true h)
equal_text_sound (a ∷ s) [] h = absurd (false≢true h)
equal_text_sound (a ∷ s) (b ∷ t) h = elim (Bool-cases (a == b)) [
  | inl e ↦ ap (◌∷◌ a) (equal_text_sound s t (rw e at h)) ∙ ap (λ c. c ∷ t) ((==_iff a b).0 e)
  | inr e ↦ absurd (false≢true (rw e at h))
]

pub compare_texts :
    (s t : Bytes) → ((equal_text s t ≡ true) × (s ≡ t)) ⊎ ((equal_text s t ≡ false) × (s ≢ t))
compare_texts s t = elim (Bool-cases (equal_text s t)) [
  | inl e ↦ inl (e, equal_text_sound s t e)
  | inr e ↦ inr (e, λ q. false≢true (sym e ∙ ap (equal_text s) (sym q) ∙ equal_text_refl s))
]

abbrev get_or : Bytes → Option Bytes → Bytes
get_or d none = d
get_or d (some s) = s

compare_parts :
    (s : Bytes) (o : Option Bytes)
    → o ≢ none
    → ((equal_part (some s) o ≡ some true) × (some s ≡ o))
      ⊎ ((equal_part (some s) o ≡ some false) × (some s ≢ o))
compare_parts s none h = absurd (h refl)
compare_parts s (some t) h = elim (compare_texts s t) [
  | inl (e, q) ↦ inl (ap some e, ap some q)
  | inr (e, q) ↦ inr (ap some e, λ f. q (ap (get_or []) f))
]

-- A mask of three parts is compared with an entry without a read through NULL, and rightly.
abbrev Compared : Parts → AkillItem → Type 0
Compared p ak =
    ((same_mask p ak ≡ some true) × SameMask p ak)
    ⊎ ((same_mask p ak ≡ some false) × ¬ SameMask p ak)

pub compared :
    (nick user host : Bytes) (ak : AkillItem)
    → IsFull ak
    → Compared (record { nick = nick; user = some user; host = some host }) ak
unfolding same_mask
compared nick user host ak (u, h) = elim (compare_parts host ak.host h) [
  | inr (e, q) ↦ inr (rw e refl, λ s. q s.2)
  | inl (e, q) ↦ elim (compare_parts user ak.user u) [
    | inr (f, r) ↦ inr (rw (e, f) refl, λ s. r s.1)
    | inl (f, r) ↦ elim (compare_texts nick ak.nick) [
      | inr (g, t) ↦ inr (rw (e, f, g) refl, λ s. t s.0)
      | inl (g, t) ↦ inl (rw (e, f, g) refl, (t, r, q))
    ]
  ]
]

pub of_kind :
    (a kind : ℕ)
    → (((a == kind || kind == 0) ≡ true) × ((a ≡ kind) ⊎ (kind ≡ 0)))
      ⊎ (((a == kind || kind == 0) ≡ false) × ¬ ((a ≡ kind) ⊎ (kind ≡ 0)))
of_kind a kind = elim (Bool-cases (a == kind)) [
  | inl e ↦ inl (rw e refl, inl ((==_iff a kind).0 e))
  | inr e ↦ elim (Bool-cases (kind == 0)) [
    | inl f ↦ inl (rw (e, f) refl, inr ((==_iff kind 0).0 f))
    | inr f ↦ inr (
      rw (e, f) refl,
      λ q. elim q [
        | inl g ↦ false≢true (sym e ∙ (==_iff a kind).1 g)
        | inr g ↦ false≢true (sym f ∙ (==_iff kind 0).1 g)
      ],
    )
  ]
]

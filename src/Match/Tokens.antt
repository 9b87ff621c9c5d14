-- ===== src/Match/Tokens.antt =====
-- What a mask means: the texts that it stands for, with no order of search.
use snservices.Base.{
  ℕ, ◌≡◌, ◌≢◌, refl, ◌&&◌, List, [], ◌∷◌, ◌==◌, if◌then◌else◌, Bytes, drop, zero, suc,
}
use snservices.Match.{irc_tolower, star_byte, any_byte, backslash, is_wild}

pub data Token : Type 0 where
  lit : ℕ → Token
  any : Token
  star : Token

abbrev pub token : ℕ → Token
token c = if c == star_byte then star else if c == any_byte then any else lit c

-- A backslash escapes `*` and `?` only; before any other byte it stands for itself.
unfoldable pub tokens : Bytes → List Token
tokens [] = []
tokens (c ∷ []) = token c ∷ []
tokens (c ∷ d ∷ m) =
    if c == backslash && is_wild d then lit d ∷ tokens m else token c ∷ tokens (d ∷ m)

abbrev pub SameCase : ℕ → ℕ → Type 0
SameCase a c = irc_tolower a ≡ irc_tolower c

-- A token other than a star stands for one byte.
abbrev pub Accepts : Token → ℕ → Type 0
Accepts (lit a) c = SameCase a c
Accepts any c = Unit
Accepts star c = ⊥

pub data Matches : List Token → Bytes → Type 0 where
  done : Matches [] []
  byte :
      {t : Token} {c : ℕ} {p : List Token} {s : Bytes}
      → Accepts t c
      → Matches p s
      → Matches (t ∷ p) (c ∷ s)
  stop : {p : List Token} {s : Bytes} → Matches p s → Matches (star ∷ p) s
  more : {c : ℕ} {p : List Token} {s : Bytes} → Matches (star ∷ p) s → Matches (star ∷ p) (c ∷ s)

pub star_at_end : {p : List Token} → Matches (star ∷ p) [] → Matches p []
star_at_end (stop d) = d

module _ {p : List Token} where
  pub byte_inv :
      (t : Token) {c : ℕ} {s : Bytes}
      → t ≢ star
      → Matches (t ∷ p) (c ∷ s)
      → Accepts t c × Matches p s
  byte_inv t ne (byte h d) = (h, d)
  byte_inv star ne (stop d) = absurd (ne refl)
  byte_inv star ne (more d) = absurd (ne refl)

  pub byte_at_end : (t : Token) → t ≢ star → ¬ Matches (t ∷ p) []
  byte_at_end star ne d = absurd (ne refl)
  byte_at_end (lit a) ne d = elim d [ ]
  byte_at_end any ne d = elim d [ ]

  pub star_on :
      {c : ℕ} {s : Bytes} → Matches (star ∷ p) (c ∷ s) → ¬ Matches p (c ∷ s) → Matches (star ∷ p) s
  star_on (stop d) n = absurd (n d)
  star_on (more d) n = d
  star_on (byte h d) n = absurd h

  pub star_star : {s : Bytes} → Matches (star ∷ star ∷ p) s → Matches (star ∷ p) s
  star_star (stop d) = d
  star_star (more d) = more (star_star d)
  star_star (byte h d) = absurd h

  -- A star takes as many bytes as one likes.
  pub star_drop : (k : ℕ) (s : Bytes) → Matches p (drop k s) → Matches (star ∷ p) s
  star_drop zero s d = stop d
  star_drop (suc k) [] d = stop d
  star_drop (suc k) (c ∷ s) d = more (star_drop k s d)

  -- Why the first place where a byte fits is good enough: behind it the star goes on.
  pub star_byte_on :
      (t : Token) {c : ℕ} (s : Bytes)
      → t ≢ star
      → Matches (star ∷ t ∷ p) (c ∷ s)
      → Matches (star ∷ p) s
  star_byte_on t s ne (byte h d) = absurd h
  star_byte_on t s ne (stop d) = stop (byte_inv t ne d).1
  star_byte_on t [] ne (more d) = absurd (byte_at_end t ne (star_at_end d))
  star_byte_on t (c ∷ s) ne (more d) = more (star_byte_on t s ne d)

-- ===== src/Passwd/RoundTrip.antt =====
-- Octets that go through toBase64 and fromBase64 of services/passwd.c come back, with zeros behind them.
use snservices.Base.{ℕ, zero, suc, Bool, true, false, [], ◌∷◌, ◌++◌, ◌==◌, if◌then◌else◌, Bytes}
use snservices.Passwd.{sextets, as_text, octet0, octet1, octet2, entry}

-- A table is right if it is right at every place.
right_below : (ℕ → ℕ) → ℕ → Bool
right_below f zero = true
right_below f (suc n) = let rest = right_below f n in if f n == n then rest else false

-- The text without the counts of room.
plain_text : Bytes → Bytes
plain_text [] = []
plain_text (a ∷ []) = as_text 1 (sextets a 0 0)
plain_text (a ∷ b ∷ []) = as_text 2 (sextets a b 0)
plain_text (a ∷ b ∷ c ∷ stream) = as_text 3 (sextets a b c) ++ plain_text stream

-- Octets with zeros up to a multiple of three.
pub padded : Bytes → Bytes
padded [] = []
padded (a ∷ []) = a ∷ 0 ∷ 0 ∷ []
padded (a ∷ b ∷ []) = a ∷ b ∷ 0 ∷ []
padded (a ∷ b ∷ c ∷ stream) = a ∷ b ∷ c ∷ padded stream

-- The octets without the counts of room.
plain_octets : Bytes → Bytes
plain_octets [] = []
plain_octets (c0 ∷ []) = octet0 (entry c0) 0 ∷ octet1 0 0 ∷ []
plain_octets (c0 ∷ c1 ∷ []) = octet0 (entry c0) (entry c1) ∷ octet1 (entry c1) 0 ∷ []
plain_octets (c0 ∷ c1 ∷ c2 ∷ []) = octet0 (entry c0) (entry c1) ∷ octet1 (entry c1) (entry c2) ∷ []
plain_octets (c0 ∷ c1 ∷ c2 ∷ c3 ∷ str) =
    octet0 (entry c0) (entry c1)
    ∷ octet1 (entry c1) (entry c2)
    ∷ octet2 (entry c2) (entry c3)
    ∷ plain_octets str

-- ===== src/Passwd/Examples.antt =====
-- Tests of the coding, and the theorems at concrete inputs.
use snservices.Base.{◌≡◌, refl, some, [], ◌∷◌, Bytes}
use snservices.Passwd.{to_base64, from_base64}

abbrev two_octets : Bytes
two_octets = 77 ∷ 255 ∷ []

-- `Tf8=`
encoded_two : to_base64 two_octets ≡ some (84 ∷ 102 ∷ 56 ∷ 61 ∷ [])
unfolding to_base64
encoded_two = refl

-- Three octets come back for two.
decoded_two : from_base64 (84 ∷ 102 ∷ 56 ∷ 61 ∷ []) ≡ some (77 ∷ 255 ∷ 0 ∷ [])
unfolding from_base64
decoded_two = refl

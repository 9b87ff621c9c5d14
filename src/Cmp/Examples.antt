-- ===== src/Cmp/Examples.antt =====
-- Tests of the comparison, and the theorems at concrete inputs.
use snservices.Base.{◌≡◌, refl, [], ◌∷◌, Bytes, arith}
use snservices.Base.Int.{pos, negsuc}
use snservices.Cmp.{smycmp}
use snservices.Cmp.Equal.{Same, smycmp_lem, negate, smycmp-swap}

-- `Joe` and `jOF`
abbrev joe : Bytes
joe = 74 ∷ 111 ∷ 101 ∷ []

abbrev jof : Bytes
jof = 106 ∷ 79 ∷ 70 ∷ []

smycmp_test : smycmp joe jof ≡ negsuc 0
unfolding smycmp
smycmp_test = refl

-- `~` and `^` are the same in upper case, but not in lower case.
tilde : smycmp (126 ∷ []) (94 ∷ []) ≡ pos 0
unfolding smycmp
tilde = refl

smycmp_lem_test : (smycmp joe jof ≡ pos 0 → Same joe jof) × (Same joe jof → smycmp joe jof ≡ pos 0)
smycmp_lem_test =
    smycmp_lem joe jof (omega arith, (omega arith, (omega arith, tt)))
      (omega arith, (omega arith, (omega arith, tt)))

swap_test : smycmp jof joe ≡ negate (smycmp joe jof)
swap_test = smycmp-swap joe jof

-- ===== src/Text/Examples.antt =====
-- Tests of the text routines, and the theorems at concrete inputs.
use snservices.Base.{◌≡◌, refl, ◌⊎◌, false, [], ◌∷◌, ◌++◌, Bytes, All, length}
use snservices.Match.{irc_tolower}
use snservices.Text.{is_unclean, clean_channelname, index_left_part}
use snservices.Text.Clean.{Cut, clean_channelname_lem}
use snservices.Text.Prefix.{Begins, index_left_part_lem}

-- `#ab,c`
abbrev two_names : Bytes
two_names = 35 ∷ 97 ∷ 98 ∷ 44 ∷ 99 ∷ []

-- `RR:x`
abbrev rule : Bytes
rule = 82 ∷ 82 ∷ 58 ∷ 120 ∷ []

clean_test : clean_channelname two_names ≡ 35 ∷ 97 ∷ 98 ∷ []
unfolding clean_channelname is_unclean
clean_test = refl

-- `rr:` in another case, and `RV:`.
left_test : index_left_part rule (114 ∷ 114 ∷ 58 ∷ []) ≡ 3
unfolding index_left_part irc_tolower
left_test = refl

left_other : index_left_part rule (82 ∷ 86 ∷ 58 ∷ []) ≡ 0
unfolding index_left_part irc_tolower
left_other = refl

clean_channelname_lem_test :
    All (λ c. is_unclean c ≡ false) (clean_channelname two_names)
    × ((rest : Bytes) × (two_names ≡ clean_channelname two_names ++ rest) × Cut rest)
clean_channelname_lem_test = clean_channelname_lem two_names

abbrev two : Bytes
two = 114 ∷ 114 ∷ []

index_left_part_lem_test :
    (Begins rule two × (index_left_part rule two ≡ length two))
    ⊎ ((¬ Begins rule two) × (index_left_part rule two ≡ 0))
index_left_part_lem_test = index_left_part_lem rule two

-- ===== src/Mask/Examples.antt =====
-- Tests of the masks of users, and the theorem at a concrete input.
use snservices.Base.{◌≡◌, refl, [], ◌∷◌, ◌++◌}
use snservices.Mask.{parts, split_userhost}
use snservices.Mask.Parts.{Free, split_userhost_lem}

-- `j!k!u@h@i`: the last `!` and the first `@` count.
many_separators :
    split_userhost (106 ∷ 33 ∷ 107 ∷ 33 ∷ 117 ∷ 64 ∷ 104 ∷ 64 ∷ 105 ∷ [])
    ≡ record { nick = 106 ∷ 33 ∷ 107 ∷ []; user = 117 ∷ []; host = 104 ∷ 64 ∷ 105 ∷ [] }
unfolding split_userhost
many_separators = refl

-- `u@h@i`: the last `@` counts.
two_at :
    split_userhost (117 ∷ 64 ∷ 104 ∷ 64 ∷ 105 ∷ [])
    ≡ record { nick = 42 ∷ []; user = 117 ∷ 64 ∷ 104 ∷ []; host = 105 ∷ [] }
unfolding split_userhost
two_at = refl

-- `j`, `u` and `h`.
split_userhost_lem_example :
    (split_userhost (((106 ∷ []) ++ 33 ∷ 117 ∷ []) ++ 64 ∷ 104 ∷ [])
      ≡ parts (106 ∷ []) (117 ∷ []) (104 ∷ []))
    × (Free 64 (104 ∷ [])
        → split_userhost ((117 ∷ []) ++ 64 ∷ 104 ∷ []) ≡ parts [] (117 ∷ []) (104 ∷ []))
    × (Free 33 (106 ∷ []) → split_userhost (106 ∷ []) ≡ parts (106 ∷ []) [] [])
split_userhost_lem_example =
    split_userhost_lem (106 ∷ []) (117 ∷ []) (104 ∷ []) (refl, tt) (refl, tt) (refl, tt)

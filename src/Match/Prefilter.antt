-- ===== src/Match/Prefilter.antt =====
-- The loop of `match` in front of `r_match` turns away only names that do not match.
use snservices.Base.{
  ℕ, zero, suc, ◌≡◌, refl, sym, ◌∙◌, inl, inr, Bool, true, false, ◌&&◌, ◌||◌, Option, none, some,
  List, [], ◌∷◌, ◌==◌, if◌then◌else◌, Bytes, arith, false≢true, Bool-cases, ==_iff,
}
use snservices.Match.{backslash, is_wild, irc_tolower, find_byte, quick, r_match, match, tail}
use snservices.Match.Tokens.{Token, lit, star, token, tokens, SameCase, Matches, byte, stop, more}
use snservices.Match.Verdict.{r_match-Answers, Answers}

-- The bytes that the loop looks for, in order.
needed : Bytes → Bytes
needed [] = []
needed (c ∷ []) = if is_wild c || c == backslash then [] else c ∷ []
needed (c ∷ d ∷ m) =
    let here = needed (d ∷ m) in
    let behind = needed m in
    if is_wild c then here else if c == backslash then d ∷ behind else c ∷ here

-- The bytes stand in the text in this order, up to case.
data Within : Bytes → Bytes → Type 0 where
  nothing : {s : Bytes} → Within [] s
  take : {l c : ℕ} {ls s : Bytes} → SameCase l c → Within ls s → Within (l ∷ ls) (c ∷ s)
  skip : {c : ℕ} {ls s : Bytes} → Within ls s → Within ls (c ∷ s)

Within-tail : {l : ℕ} {ls s : Bytes} → Within (l ∷ ls) s → Within ls s
Within-tail (take e w) = skip w
Within-tail (skip w) = skip (Within-tail w)

find_byte-Within :
    (l : ℕ) (ls s : Bytes)
    → Within (l ∷ ls) s
    → (r : Bytes) × (find_byte l s ≡ some r) × Within ls r
unfolding find_byte
find_byte-Within l ls [] w = elim w [ ]
find_byte-Within l ls (p ∷ s) w = elim (Bool-cases (irc_tolower p == irc_tolower l)) [
  | inl e ↦ (s, rw e refl, by_head w)
  | inr e ↦ let (r, f, v) = find_byte-Within l ls s (past w e) in (r, rw e f, v)
]
  where
    by_head : Within (l ∷ ls) (p ∷ s) → Within ls s
    by_head (take _ v) = v
    by_head (skip v) = Within-tail v

    past : Within (l ∷ ls) (p ∷ s) → (irc_tolower p == irc_tolower l) ≡ false → Within (l ∷ ls) s
    past (take h v) e =
        absurd (false≢true (sym e ∙ (==_iff (irc_tolower p) (irc_tolower l)).1 (sym h)))
    past (skip v) e = v

needed-quick : (m s : Bytes) → Within (needed m) s → quick m s ≡ true
unfolding needed quick
needed-quick [] s w = refl
needed-quick (c ∷ []) s w = elim (Bool-cases (is_wild c || c == backslash)) [
  | inl e ↦ ground arith
  | inr e ↦ let (r, f, _) = find_byte-Within c [] s (rw e at w) in ground arith
]
needed-quick (c ∷ d ∷ m) s w = elim (Bool-cases (is_wild c)) [
  | inl e ↦ let g = needed-quick (d ∷ m) s (rw e at w) in ground arith
  | inr e ↦ elim (Bool-cases (c == backslash)) [
    | inl h ↦
        let (r, f, v) = find_byte-Within d (needed m) s (rw (e, h) at w) in
        let g = needed-quick m r v in ground arith
    | inr h ↦
        let (r, f, v) = find_byte-Within c (needed (d ∷ m)) s (rw (e, h) at w) in
        let g = needed-quick (d ∷ m) r v in ground arith
  ]
]

abbrev Covered : Bytes → List Token → Type 0
Covered ls p = (s : Bytes) → Matches p s → Within ls s

skip_token : (t : Token) (ls : Bytes) (p : List Token) → Covered ls p → Covered ls (t ∷ p)
skip_token t ls p h _ (byte _ d) = skip (h _ d)
skip_token star ls p h s (stop d) = h s d
skip_token star ls p h _ (more d) = skip (skip_token star ls p h _ d)

take_token : (l : ℕ) (ls : Bytes) (p : List Token) → Covered ls p → Covered (l ∷ ls) (lit l ∷ p)
take_token l ls p h _ (byte e d) = take e (h _ d)

lit_token : (c : ℕ) → is_wild c ≡ false → token c ≡ lit c
lit_token c e = ground arith

tokens-one : (c : ℕ) → tokens (c ∷ []) ≡ token c ∷ []
unfolding tokens
tokens-one c = refl

tokens-escape :
    (c d : ℕ) (m : Bytes)
    → (c == backslash) ≡ true
    → is_wild d ≡ true
    → tokens (c ∷ d ∷ m) ≡ lit d ∷ tokens m
unfolding tokens
tokens-escape c d m e h = ground arith

tokens-plain :
    (c d : ℕ) (m : Bytes)
    → (c == backslash && is_wild d) ≡ false
    → tokens (c ∷ d ∷ m) ≡ token c ∷ tokens (d ∷ m)
unfolding tokens
tokens-plain c d m e = ground arith

unescaped : (c : ℕ) (d : Bool) → (c == backslash) ≡ false → (c == backslash && d) ≡ false
unescaped c d e = rw e refl

plain_next : (c d : ℕ) → is_wild d ≡ false → (c == backslash && is_wild d) ≡ false
plain_next c d e = ground arith

-- The escaping of `match` differs from that of `r_match`; behind a backslash both are possible.
abbrev Both : Bytes → Type 0
Both m = Covered (needed m) (tokens m) × Covered (needed m) (tokens (backslash ∷ m))

needed_cons_wild : (c d : ℕ) (m : Bytes) → is_wild c ≡ true → needed (c ∷ d ∷ m) ≡ needed (d ∷ m)
unfolding needed
needed_cons_wild c d m e = ground arith

needed_escape :
    (c d : ℕ) (m : Bytes)
    → is_wild c ≡ false
    → (c == backslash) ≡ true
    → needed (c ∷ d ∷ m) ≡ d ∷ needed m
unfolding needed
needed_escape c d m e h = ground arith

needed_plain :
    (c d : ℕ) (m : Bytes)
    → is_wild c ≡ false
    → (c == backslash) ≡ false
    → needed (c ∷ d ∷ m) ≡ c ∷ needed (d ∷ m)
unfolding needed
needed_plain c d m e h = ground arith

behind_backslash :
    (d : ℕ) (m : Bytes)
    → Covered (needed (d ∷ m)) (tokens (d ∷ m))
    → (is_wild d ≡ true → Covered (needed (d ∷ m)) (tokens m))
    → Covered (needed (d ∷ m)) (tokens (backslash ∷ d ∷ m))
behind_backslash d m here wild = elim (Bool-cases (is_wild d)) [
  | inl e ↦ rw (tokens-escape backslash d m refl e) (skip_token (lit d) _ (tokens m) (wild e))
  | inr e ↦
      rw (tokens-plain backslash d m (plain_next backslash d e))
        (skip_token (lit backslash) _ (tokens (d ∷ m)) here)
]

one-Both : (c : ℕ) → Both (c ∷ [])
unfolding needed
one-Both c = (here, behind_backslash c [] here λ e. rw e λ s _. nothing)
  where
    here : Covered (needed (c ∷ [])) (tokens (c ∷ []))
    here = elim (Bool-cases (is_wild c || c == backslash)) [
      | inl e ↦ rw e λ s _. nothing
      | inr e ↦ rw (e, tokens-one c, lit_token c (ground arith)) (take_token c [] [] λ s _. nothing)
    ]

tokens_cons-plain :
    (d : ℕ) (m : Bytes)
    → is_wild d ≡ false
    → (d == backslash) ≡ false
    → tokens (d ∷ m) ≡ lit d ∷ tokens m
unfolding tokens
tokens_cons-plain d [] w h = ground arith
tokens_cons-plain d (_ ∷ _) w h = ground arith

-- `r_match` compares both bytes, `match` looks for the second.
second :
    (c d : ℕ) (m : Bytes)
    → Covered (needed m) (tokens m)
    → Covered (needed m) (tokens (backslash ∷ m))
    → (c == backslash) ≡ true
    → is_wild d ≡ false
    → Covered (d ∷ needed m) (lit c ∷ tokens (d ∷ m))
second c d m behind escaped h w = elim (Bool-cases (d == backslash)) [
  | inl q ↦
      rw ((==_iff c backslash).0 h, (==_iff d backslash).0 q)
        (take_token backslash (needed m) (tokens (backslash ∷ m)) escaped)
  | inr q ↦ rw (tokens_cons-plain d m w q) (
      skip_token (lit c) (d ∷ needed m) (lit d ∷ tokens m)
        (take_token d (needed m) (tokens m) behind))
]

step-Covered :
    (c d : ℕ) (m : Bytes)
    → Both (d ∷ m)
    → Both m
    → Covered (needed (c ∷ d ∷ m)) (tokens (c ∷ d ∷ m))
step-Covered c d m (here, _) (behind, escaped) = elim (Bool-cases (is_wild c)) [
  | inl e ↦
      rw (needed_cons_wild c d m e, tokens-plain c d m (ground arith))
        (skip_token (token c) _ (tokens (d ∷ m)) here)
  | inr e ↦ elim (Bool-cases (c == backslash)) [
    | inr h ↦
        rw (needed_plain c d m e h, tokens-plain c d m (unescaped c (is_wild d) h), lit_token c e)
          (take_token c _ (tokens (d ∷ m)) here)
    | inl h ↦ rw (needed_escape c d m e h) (elim (Bool-cases (is_wild d)) [
      | inl w ↦ rw (tokens-escape c d m h w) (take_token d _ (tokens m) behind)
      | inr w ↦
          rw (tokens-plain c d m (plain_next c d w), lit_token c e)
            (second c d m behind escaped h w)
    ])
  ]
]

none-Both : Both []
unfolding needed
none-Both = ((λ _ _. nothing), λ _ _. nothing)

two_Both : (m : Bytes) → Both m × Both (tail m)
unfolding tail
two_Both [] = (none-Both, none-Both)
two_Both (c ∷ []) = (one-Both c, none-Both)
two_Both (c ∷ d ∷ m) =
    let (b, b') = two_Both (d ∷ m) in
    let here = step-Covered c d m b b' in
    ((here, behind_backslash c (d ∷ m) here λ e. rw (needed_cons_wild c d m e) b.0), b)

needed-Matches : (m s : Bytes) → Matches (tokens m) s → Within (needed m) s
needed-Matches m s d = (two_Both m).0.0 s d

turned_away : {G : Type 0} (o : Option ℕ) → Answers G o → ¬ G → some 1 ≡ o
turned_away (some zero) g no_match = absurd (no_match g)
turned_away (some (suc zero)) g no_match = refl
turned_away none g no_match = elim g [ ]
turned_away (some (suc (suc _))) g no_match = elim g [ ]

-- `match` gives the answer of `r_match` for every mask and name: a name that it turns away early does
-- not match the mask.
pub match-r_match : (mask string : Bytes) → match mask string ≡ r_match mask string
unfolding match
match-r_match mask string = elim (Bool-cases (quick mask string)) [
  | inl e ↦ rw e refl
  | inr e ↦ rw e (
      turned_away (r_match mask string) (r_match-Answers mask string)
        λ d. false≢true (sym e ∙ needed-quick mask string (needed-Matches mask string d)))
]

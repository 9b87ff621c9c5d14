-- ===== src/Match.antt =====
-- ircd/src/match.c: wildcard masks. A C string is the list of its bytes, with no NUL among them; a
-- pointer into the mask keeps the bytes before it, nearest first, as `r_match` also steps back.
pub mod Tokens
pub mod Compare
pub mod Stars
pub mod Search
pub mod Enter
pub mod Verdict
pub mod Prefilter
pub mod Collapse
pub mod Shorter
mod Examples
use snservices.Base.{
  ℕ, zero, suc, ◌+◌, ◌*◌, Bool, true, false, not, ◌&&◌, ◌||◌, Option, none, some, List, [], ◌∷◌,
  leb, ◌==◌, if◌then◌else◌, Bytes, length,
}

-- `irc_tolowertab` of ircd/src/string.c: the letters and [ \ ] have the lower case of RFC 1459.
unfoldable pub irc_tolower : ℕ → ℕ
irc_tolower c = if leb 65 c && leb c 93 then c + 32 else c

abbrev pub star_byte : ℕ
star_byte = b'*'

abbrev pub any_byte : ℕ
any_byte = b'?'

abbrev pub backslash : ℕ
backslash = 92

-- A pointer into the mask.
pub record Pos : Type 0 where
  pub before : Bytes
  pub rest : Bytes

-- The variables of `r_match`.
pub record State : Type 0 where
  pub m : Pos
  pub n : Bytes
  pub ma : Pos
  pub na : Bytes
  pub wild : Bool

-- A round returns, goes on, or moves `na` behind the NUL of the name.
pub data Outcome : Type 0 where
  ret : ℕ → Outcome
  go : State → Outcome
  overrun : Outcome

-- `while (*m == '*') m++;`
pub skip_stars : Bytes → Bytes → Pos
skip_stars before [] = record { before = before; rest = [] }
skip_stars before (c ∷ r) =
    if c == star_byte then skip_stars (c ∷ before) r else record { before = before; rest = c ∷ r }

-- The first `if` of a round.
pub enter : State → State
unfolding skip_stars
enter s = elim s.m.rest [
  | [] ↦ s
  | c ∷ r ↦
      if c == star_byte
      then (let m = skip_stars s.m.before (c ∷ r) in
          record s { m = m; ma = m; na = s.n; wild = true })
      else s
]

-- From the end of the mask back over its last `?`: whether a `*` stands there that is not the first
-- byte and has no backslash before it. (For an empty mask the C code reads the byte before the mask,
-- and then finds that it is too far back.)
pub back_star : Bytes → Bool
back_star [] = false
back_star (c ∷ []) = false
back_star (c ∷ d ∷ r) =
    let further = back_star (d ∷ r) in
    if c == any_byte then further else c == star_byte && not (d == backslash)

-- `m = ma; n = ++na;`
pub retry : State → (State → Outcome) → Outcome
retry s next = elim s.na [ [] ↦ overrun | _ ∷ r ↦ next (record s { m = s.ma; n = r; na = r }) ]

-- `irc_tolower(*m) != irc_tolower(*n)`; only NUL has the lower case 0.
differs : Bytes → Bytes → Bool
unfolding irc_tolower
differs [] [] = false
differs [] (_ ∷ _) = true
differs (_ ∷ _) [] = true
differs (a ∷ _) (c ∷ _) = not (irc_tolower a == irc_tolower c)

is_any : Bytes → Bool
is_any [] = false
is_any (a ∷ _) = a == any_byte

abbrev is_wild : ℕ → Bool
is_wild d = d == star_byte || d == any_byte

-- `m++` if it is not at the end.
advance : Pos → Pos
advance p = elim p.rest [ [] ↦ p | c ∷ r ↦ record { before = c ∷ p.before; rest = r } ]

-- A backslash before `*` or `?` is passed over, and `q` tells so.
unescape : Pos → Pos × Bool
unfolding advance
unescape p = elim p.rest [
  | c ∷ d ∷ _ ↦ if c == backslash && is_wild d then (advance p, true) else (p, false)
  | _ ↦ (p, false)
]

tail : Bytes → Bytes
tail [] = []
tail (_ ∷ r) = r

-- The end of a round: compare a byte, and step on or go back.
pub compare_byte : State → Outcome
unfolding unescape differs is_any advance tail retry
compare_byte s =
    let (m, q) = unescape s.m in
    if differs m.rest s.n && (not (is_any m.rest) || q)
    then (if s.wild then retry s go else ret 1)
    else go (record s { m = advance m; n = tail s.n })

-- `return (*m != 0)` behind the last `while`.
left_over : Pos → ℕ
left_over p = elim p.rest [ [] ↦ 0 | _ ↦ 1 ]

-- A round behind its first `if`.
rest_of_round : State → Outcome
unfolding compare_byte back_star skip_stars left_over
rest_of_round s = elim s.m.rest [
  | [] ↦ elim s.n [
    | [] ↦ ret 0
    | _ ↦ if back_star s.m.before then ret 0 else if s.wild then retry s compare_byte else ret 1
  ]
  | _ ↦ elim s.n [ [] ↦ ret (left_over (skip_stars s.m.before s.m.rest)) | _ ↦ compare_byte s ]
]

round : State → Outcome
unfolding enter rest_of_round
round s = rest_of_round (enter s)

-- `while (1)`, on fuel; `none` stands for an overrun, and for fuel that is too little.
loop : ℕ → State → Option ℕ
unfolding round
loop zero s = none
loop (suc fuel) s = elim (round s) [ ret r ↦ some r | overrun ↦ none | go s' ↦ loop fuel s' ]

abbrev start : Bytes → Bytes → State
start mask name =
    let m : Pos = record { before = []; rest = mask } in
    record { m = m; n = name; ma = m; na = name; wild = false }

-- 0 if the name matches, 1 if not.
unfoldable pub r_match : Bytes → Bytes → Option ℕ
unfolding loop
r_match mask name = loop ((length name + 1) * (length mask + 1)) (start mask name)

-- The inner loop of `match`: behind the first byte that is `l` up to case, or NULL.
find_byte : ℕ → Bytes → Option Bytes
unfolding irc_tolower
find_byte l [] = none
find_byte l (p ∷ s) = if irc_tolower p == irc_tolower l then some s else find_byte l s

-- The outer loop: false for the early `return (1)`, true where `r_match` decides.
quick : Bytes → Bytes → Bool
unfolding find_byte
quick [] s = true
quick (c ∷ []) s = elim (is_wild c || c == backslash) [
  | true ↦ true
  | false ↦ elim (find_byte c s) [ none ↦ false | some _ ↦ true ]
]
quick (c ∷ d ∷ m) s = elim (is_wild c) [
  | true ↦ quick (d ∷ m) s
  | false ↦ elim (c == backslash) [
    | true ↦ elim (find_byte d s) [ none ↦ false | some r ↦ quick m r ]
    | false ↦ elim (find_byte c s) [ none ↦ false | some r ↦ quick (d ∷ m) r ]
  ]
]

unfoldable pub match : Bytes → Bytes → Option ℕ
unfolding quick r_match
match mask string = if quick mask string then r_match mask string else some 1

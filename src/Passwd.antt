-- ===== src/Passwd.antt =====
-- services/passwd.c: octets as text and back, toBase64 and fromBase64. Memory is a list of octets and a C
-- string the list of its characters. Sizes are natural numbers; a failed `assert` is `none`. The parts that
-- the code joins by `|` share no bit, so that `+` joins them here, and its shifts and masks are `*`, `/`
-- and `%`.
pub mod RoundTrip
mod Examples
use snservices.Base.{
  ℕ, zero, suc, ◌+◌, ◌-◌, ◌*◌, ◌/◌, ◌%◌, Bool, true, false, Option, none, some, List, [], ◌∷◌, ◌++◌,
  ltb, ◌==◌, if◌then◌else◌, Bytes, length,
}

-- The 64 characters.
unfoldable pub mutations : ℕ → ℕ
mutations i =
    if ltb i 26
    then 65 + i
    else if ltb i 52
    then 97 + (i - 26)
    else if ltb i 62
    then 48 + (i - 52)
    else if i == 62
    then 43
    else 47

-- What `left` octets need.
abbrev pub encoded_size : ℕ → ℕ
encoded_size left = left * 8 / 24 * 4 + (if left * 8 % 24 == 0 then 0 else 3) + 2

-- Each character counts `s_sz` down, which must not come to 0. It starts at 2 or more, so that it does
-- not wrap.
pub count_down : ℕ → Bytes → Option ℕ
count_down s_sz [] = some s_sz
count_down s_sz (_ ∷ out) =
    let rest = count_down (s_sz - 1) out in if ltb (s_sz - 1) 1 then none else rest

abbrev pub put_front : Bytes → Option Bytes → Option Bytes
put_front out none = none
put_front out (some p) = some (out ++ p)

-- The characters of a round, with those of the rounds behind it.
abbrev pub put_round : Bytes → Option ℕ → (ℕ → Option Bytes) → Option Bytes
put_round out none rest = none
put_round out (some s_sz) rest = put_front out (rest s_sz)

-- `out` of a round for its three octets.
pub sextets : ℕ → ℕ → ℕ → Bytes
sextets a b c = (a / 4) ∷ (a % 4 * 16 + b / 16) ∷ (b % 16 * 4 + c / 64) ∷ (c % 64) ∷ []

equal_signs : Bytes → Bytes
equal_signs [] = []
equal_signs (_ ∷ out) = 61 ∷ equal_signs out

-- The characters of a round, given that `j` octets were left for it: `=` behind the first `j + 1`.
pub as_text : ℕ → Bytes → Bytes
unfolding equal_signs mutations
as_text j [] = []
as_text zero (o ∷ out) = mutations o ∷ equal_signs out
as_text (suc j) (o ∷ out) = mutations o ∷ as_text j out

-- The loop; octets that are missing in the last round are 0.
pub encode_loop : Bytes → ℕ → Option Bytes
unfolding as_text sextets count_down
encode_loop [] s_sz = some []
encode_loop (a ∷ []) s_sz =
    let out = as_text 1 (sextets a 0 0) in put_round out (count_down s_sz out) (λ _. some [])
encode_loop (a ∷ b ∷ []) s_sz =
    let out = as_text 2 (sextets a b 0) in put_round out (count_down s_sz out) (λ _. some [])
encode_loop (a ∷ b ∷ c ∷ stream) s_sz =
    let out = as_text 3 (sextets a b c) in
    put_round out (count_down s_sz out) (λ s_sz'. encode_loop stream s_sz')

unfoldable pub to_base64 : Bytes → Option Bytes
unfolding encode_loop
to_base64 stream = encode_loop stream (encoded_size (length stream))

-- The entry of `decode_table` for a character, once it is filled: the place of the character, or 0.
pub decode_from : ℕ → ℕ → ℕ
unfolding mutations
decode_from zero c = 0
decode_from (suc j) c = let rest = decode_from j c in if mutations j == c then j else rest

-- `left / 4.0 * 3` is cut to an integer.
abbrev pub decoded_size : ℕ → ℕ
decoded_size left = 3 + left * 3 / 4

-- `out` of a round for its four characters; an octet keeps the low 8 bits.
pub octet0 : ℕ → ℕ → ℕ
octet0 t0 t1 = t0 * 4 % 256 + t1 / 16 % 4

pub octet1 : ℕ → ℕ → ℕ
octet1 t1 t2 = t1 * 16 % 256 + t2 / 4

pub octet2 : ℕ → ℕ → ℕ
octet2 t2 t3 = t2 * 64 % 256 + t3

-- An octet is written as long as `s_sz` is not 0; with what is left of it.
pub write_octet : ℕ → ℕ → ℕ × Bytes
write_octet zero o = (0, [])
write_octet (suc s_sz) o = (s_sz, o ∷ [])

-- The `assert` at the end of a round.
abbrev pub keep_room : ℕ → Bytes → Option (ℕ × Bytes)
keep_room zero p = none
keep_room (suc s_sz) p = some (suc s_sz, p)

-- A round with four characters writes three octets, one with fewer two.
pub decode_round : Bool → ℕ → ℕ → ℕ → ℕ → ℕ → Option (ℕ × Bytes)
unfolding octet0 octet1 octet2 write_octet
decode_round four s_sz t0 t1 t2 t3 =
    let (s1, p0) = write_octet s_sz (octet0 t0 t1) in
    let (s2, p1) = write_octet s1 (octet1 t1 t2) in
    if four then keep_room (s2 - 1) (p0 ++ p1 ++ octet2 t2 t3 ∷ []) else keep_room s2 (p0 ++ p1)

abbrev pub put_octets : Option (ℕ × Bytes) → (ℕ → Option Bytes) → Option Bytes
put_octets none rest = none
put_octets (some (s_sz, p)) rest = put_front p (rest s_sz)

abbrev pub entry : ℕ → ℕ
entry c = decode_from 64 c

-- The loop; characters that are missing in the last round count as 0.
pub decode_loop : Bytes → ℕ → Option Bytes
unfolding decode_from decode_round
decode_loop [] s_sz = some []
decode_loop (c0 ∷ []) s_sz = put_octets (decode_round false s_sz (entry c0) 0 0 0) (λ _. some [])
decode_loop (c0 ∷ c1 ∷ []) s_sz =
    put_octets (decode_round false s_sz (entry c0) (entry c1) 0 0) (λ _. some [])
decode_loop (c0 ∷ c1 ∷ c2 ∷ []) s_sz =
    put_octets (decode_round false s_sz (entry c0) (entry c1) (entry c2) 0) (λ _. some [])
decode_loop (c0 ∷ c1 ∷ c2 ∷ c3 ∷ str) s_sz =
    put_octets (decode_round true s_sz (entry c0) (entry c1) (entry c2) (entry c3))
      (λ s_sz'. decode_loop str s_sz')

-- The octets; their number is what is stored in `*len`.
unfoldable pub from_base64 : Bytes → Option Bytes
unfolding decode_loop
from_base64 str = decode_loop str (decoded_size (length str))

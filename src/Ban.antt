-- ===== src/Ban.antt =====
-- Bans of channels, ircd/src/channel.c: the ban list with its rules, who is banned, and who may join or
-- send. A text is the list of its bytes. genHostMask and the table of channels are parameters.
pub mod Rules
pub mod Lists
pub mod Access
pub mod Verdict
pub mod Kept
pub mod Bounds
pub mod Removal
pub mod Newly
mod Examples
use Prim.Native.Nat.{bit_and, bit_or}
use snservices.Base.{
  ℕ, zero, suc, ◌+◌, Bool, true, false, not, ◌&&◌, ◌||◌, Option, none, some, List, [], ◌∷◌, ◌++◌,
  leb, ltb, ◌==◌, if◌then◌else◌, Bytes, take, drop, length,
}
use snservices.Base.Int.{ℤ, pos, negsuc}
use snservices.Cmp.{smycmp}
use snservices.Match.{match, irc_tolower}
use snservices.Text.{index_left_part}
use snservices.Channel.{Member}
use snservices.Channel.Ops.{find_user_link}

-- A link of a ban list.
pub record Ban : Type 0 where
  pub banstr : Bytes
  pub who : Bytes
  pub when : ℕ

-- What the ban code reads of an `aClient` and of its user. `ip` is the address of its socket as text.
pub record Client : Type 0 where
  pub id : ℕ
  pub name : Bytes
  pub username : Bytes
  pub host : Bytes
  pub info : Bytes
  pub ip : Bytes
  pub is_person : Bool
  pub my_client : Bool
  pub is_reg_nick : Bool
  pub is_ver_nick : Bool
  pub is_masked : Bool
  pub is_u_line : Bool
  pub full_mask : Bool
  pub is_an_oper : Bool
  pub invited : List ℕ

abbrev pub ban_block : ℕ
ban_block = 1

abbrev pub ban_bquiet : ℕ
ban_bquiet = 2

abbrev pub ban_mask : ℕ
ban_mask = 4

abbrev pub ban_require : ℕ
ban_require = 8

abbrev pub ban_rblock : ℕ
ban_rblock = 16

abbrev pub ban_gecos : ℕ
ban_gecos = 32

abbrev pub ban_regonly : ℕ
ban_regonly = 64

abbrev pub ban_veronly : ℕ
ban_veronly = 128

abbrev pub ban_std : ℕ
ban_std = 3

abbrev pub is_set : ℕ → ℕ → Bool
is_set flags f = not (bit_and flags f == 0)

abbrev pub is_zero : ℤ → Bool
is_zero (pos zero) = true
is_zero (pos (suc _)) = false
is_zero (negsuc _) = false

-- `!mycmp(s, t)`
unfoldable pub same_text : Bytes → Bytes → Bool
unfolding smycmp
same_text s t = is_zero (smycmp s t)

abbrev pub answers_zero : Option ℕ → Bool
answers_zero (some zero) = true
answers_zero (some (suc _)) = false
answers_zero none = false

-- `!match(mask, text)`
unfoldable pub hits : Bytes → Bytes → Bool
unfolding match
hits mask text = answers_zero (match mask text)

-- `irc_charattrib`, as `isspace` and `isalpha` read it: `[`, `\`, `]` and `^` are letters there, as are
-- `{`, `|`, `}` and `~`.
abbrev pub is_space : ℕ → Bool
is_space c = c == 32 || (leb 9 c && leb c 13)

abbrev pub is_alpha : ℕ → Bool
is_alpha c = (leb 65 c && leb c 94) || (leb 97 c && leb c 126)

-- Up to the first white space.
unfoldable pub cut_space : Bytes → Bytes
cut_space [] = []
cut_space (c ∷ s) = let rest = cut_space s in if is_space c then [] else c ∷ rest

abbrev pub or_star : Bytes → Bytes
or_star [] = 42 ∷ []
or_star (c ∷ s) = c ∷ s

-- The code ends the given text itself at the first white space; here the cut text is the result.
abbrev pub check_string : Bytes → Bytes
check_string s = or_star (cut_space s)

-- "nick!user@host", each part cut to its room.
unfoldable pub bmake_nick_user_host : Bytes → Bytes → Bytes → Bytes
unfolding cut_space
bmake_nick_user_host nick name host =
    take 17 (check_string nick)
    ++ 33 ∷ (take 11 (check_string name) ++ 64 ∷ take 63 (check_string host))

unfoldable pub make_nick_user_ip : Client → Option Bytes
unfolding bmake_nick_user_host
make_nick_user_ip c =
    if c.my_client then some (bmake_nick_user_host c.name c.username c.ip) else none

-- `strchr`: from the first such byte on.
unfoldable pub strchr : ℕ → Bytes → Option Bytes
strchr c [] = none
strchr c (x ∷ s) = let rest = strchr c s in if x == c then some (x ∷ s) else rest

unfoldable pub any_alpha : Bytes → Bool
any_alpha [] = false
any_alpha (c ∷ s) = let rest = any_alpha s in if is_alpha c then true else rest

abbrev pub from_some : Bytes → Option Bytes → Bytes
from_some s none = s
from_some s (some t) = t

abbrev pub is_some : Option Bytes → Bool
is_some none = false
is_some (some _) = true

unfoldable pub is_ip_mask : Bytes → Bool
unfolding strchr any_alpha
is_ip_mask mask =
    let s = from_some mask (strchr 64 mask) in
    if is_some (strchr 58 s) then true else not (any_alpha s)

abbrev pub begins : ℕ → Bytes → Bool
begins c [] = false
begins c (x ∷ _) = x == c

abbrev pub second : ℕ → Bytes → Bool
second c [] = false
second c (_ ∷ s) = begins c s

-- The first byte in lower case.
abbrev pub begins_low : ℕ → Bytes → Bool
begins_low c [] = false
begins_low c (x ∷ _) = irc_tolower x == c

abbrev pub is_empty : Bytes → Bool
is_empty [] = true
is_empty (_ ∷ _) = false

abbrev pub maybe_hits : Bytes → Option Bytes → Bool
maybe_hits mask none = false
maybe_hits mask (some text) = hits mask text

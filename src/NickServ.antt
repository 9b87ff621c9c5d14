-- ===== src/NickServ.antt =====
-- Users and registered nicknames of the services: the tables of services/nickserv.c, and the numbers of
-- registered nicknames of services/struct.h and services/stuff.c. A bucket is the list that the LIST
-- macros of services/queue.h keep; a record is read at its address, and NULL is 0.
pub mod Ids
mod Users
mod Examples
use Prim.Native.Nat.{bit_xor}
use snservices.Base.{
  ℕ, zero, suc, ◌+◌, ◌*◌, ◌%◌, ◌^◌, Bool, true, false, not, ◌&&◌, ◌||◌, Option, none, some, List,
  [], ◌∷◌, ltb, leb, ◌==◌, if◌then◌else◌, Bytes, length,
}
use snservices.Registry.{set}
use snservices.Registry.Names.{same_name, key}
use snservices.Registry.Lookup.{first_such}

abbrev pub nickhashsize : ℕ
nickhashsize = 1009

abbrev pub idhashsize : ℕ
idhashsize = 1000

-- With the terminating NUL.
abbrev pub nicklen : ℕ
nicklen = 18

-- A `RegId`: two `u_int16_t`.
pub record RegId : Type 0 where
  pub a : ℕ
  pub b : ℕ

abbrev pub id_equal : RegId → RegId → Bool
id_equal i x = i.a == x.a && i.b == x.b

-- `operator>`, which compares `a` of the one with `b` of the other.
unfoldable pub id_greater : RegId → RegId → Bool
id_greater i x = ltb x.a i.a || (i.a == x.a && ltb x.b i.a)

-- `RegId::getHashKey`, on a `u_int16_t`.
abbrev pub id_key : RegId → ℕ
id_key i = (bit_xor i.a 27 + i.b * 65535) % 2 ^ 16

-- `RegNickList`, as far as it is used here.
pub record RegNick : Type 0 where
  pub nick : Bytes
  pub regnum : RegId
  pub chans : ℕ

pub record IdMap : Type 0 where
  pub id : RegId
  pub nick : ℕ

-- `UserList`, as far as it is used here. `reg` is a pointer, `id_nick` the text of `id.nick`.
pub record User : Type 0 where
  pub nick : Bytes
  pub user : Bytes
  pub host : Bytes
  pub chan : List ℕ
  pub reg : ℕ
  pub id_nick : Option Bytes
  pub idnum : RegId
  pub timestamp : ℕ

pub record Nicks : Type 0 where
  pub user : ℕ → User
  pub reg_nick : ℕ → RegNick
  pub user_hash : ℕ → List ℕ
  pub reg_nick_hash : ℕ → List ℕ
  pub id_hash : ℕ → List IdMap
  pub totalusers : ℕ

unfoldable pub get_nick_data : Bytes → Nicks → ℕ
get_nick_data nick s =
    first_such (λ x. same_name (s.user x).nick nick) (s.user_hash (key nickhashsize nick))

unfoldable pub get_reg_nick_data : Option Bytes → Nicks → ℕ
get_reg_nick_data none s = 0
get_reg_nick_data (some nick) s =
    if ltb nicklen (length nick) || length nick == 0
    then 0
    else first_such (λ x. same_name (s.reg_nick x).nick nick)
        (s.reg_nick_hash (key nickhashsize nick))

unfoldable pub add_nick : ℕ → Nicks → Nicks
add_nick newnick s =
    let k = key nickhashsize (s.user newnick).nick in
    record s {
      user_hash = set s.user_hash k (newnick ∷ s.user_hash k);
      totalusers = (s.totalusers + 1) % 2 ^ 64;
    }

-- The map with this number in one bucket, if there is one.
unfoldable pub first_map : RegId → List IdMap → Option IdMap
first_map i [] = none
first_map i (m ∷ r) = let rest = first_map i r in if id_equal m.id i then some m else rest

unfoldable pub get_id_map : RegId → Nicks → Option IdMap
unfolding first_map
get_id_map i s = first_map i (s.id_hash (id_key i % idhashsize))

-- The loop: past the smaller numbers, before the first that is not smaller.
unfoldable pub insert_id : IdMap → List IdMap → List IdMap
unfolding id_greater
insert_id map_ptr [] = map_ptr ∷ []
insert_id map_ptr (i ∷ []) =
    if id_greater map_ptr.id i.id then i ∷ map_ptr ∷ [] else map_ptr ∷ i ∷ []
insert_id map_ptr (i ∷ j ∷ r) =
    let rest = insert_id map_ptr (j ∷ r) in
    if id_greater map_ptr.id i.id then i ∷ rest else map_ptr ∷ i ∷ j ∷ r

-- `abort` is `none`.
unfoldable pub add_reg_nick : ℕ → Nicks → Option Nicks
unfolding get_reg_nick_data insert_id
add_reg_nick newnick s =
    if get_reg_nick_data (some (s.reg_nick newnick).nick) s == 0
    then some (
        let k = key nickhashsize (s.reg_nick newnick).nick in
        let i = (s.reg_nick newnick).regnum in
        let j = id_key i % idhashsize in
        record s {
          reg_nick_hash = set s.reg_nick_hash k (newnick ∷ s.reg_nick_hash k);
          id_hash = set s.id_hash j (insert_id (record { id = i; nick = newnick }) (s.id_hash j));
        })
    else none

-- ===== src/Clone.antt =====
-- Clone detection, services/clone.c: how many clients a host has, and each user name of the host; the rules
-- that set triggers, and the alerts. Rules and alerts are single lists of addresses. The counters of clients
-- are natural numbers, a counter of 0 is not counted down. What is sent is written down in `sent`.
pub mod Lists
pub mod Rules
pub mod Hosts
pub mod Signon
pub mod Sums
pub mod Counts
mod Examples
use Prim.Native.Nat.{bit_and, bit_or}
use snservices.Base.{
  ℕ, zero, suc, ◌+◌, ◌-◌, ◌*◌, Bool, true, false, not, ◌&&◌, ◌||◌, Option, none, some, List, [],
  ◌∷◌, ◌++◌, ltb, leb, ◌==◌, if◌then◌else◌, Bytes,
}
use snservices.Registry.{Dll, set}
use snservices.Registry.Table.{Table}

-- `UserClone`
pub record UserClone : Type 0 where
  pub user : Bytes
  pub clones : ℕ
  pub trigger : ℕ
  pub uflags : ℕ

-- `HostClone`
pub record HostClone : Type 0 where
  pub host : Bytes
  pub users : Dll
  pub trigger : ℕ
  pub clones : ℕ
  pub flags : ℕ

-- `CloneRule`
pub record Rule : Type 0 where
  pub mask : Bytes
  pub trigger : ℕ
  pub utrigger : ℕ
  pub flags : ℕ
  pub kill_msg : Option Bytes
  pub warn_msg : Option Bytes

-- `pending_alert`
pub record Alert : Type 0 where
  pub hc : ℕ
  pub ha : Bool
  pub ua : Bool
  pub signon_ct : ℕ
  pub signoff_ct : ℕ
  pub signon_ct_r : ℕ
  pub signoff_ct_r : ℕ
  pub first_time : ℕ
  pub last_alert : ℕ

pub data Message : Type 0 where
  kill : Bytes → Option Bytes → Message
  warning : Bytes → Bytes → Message
  host_clones : ℕ → ℕ → Bytes → Message
  user_clones : ℕ → ℕ → Bytes → Bytes → Message

pub data Cell : Type 0 where
  host_cell : ℕ → Cell
  user_cell : ℕ → Cell
  alert_cell : ℕ → Cell

pub record Clones : Type 0 where
  pub listed : Table
  pub host : ℕ → HostClone
  pub user : ℕ → UserClone
  pub rules : List ℕ
  pub rule : ℕ → Rule
  pub alerts : List ℕ
  pub alert : ℕ → Alert
  pub now : ℕ
  pub sent : List Message
  pub freed : List Cell

abbrev pub defhostclonetrigger : ℕ
defhostclonetrigger = 8

abbrev pub defuserclonetrigger : ℕ
defuserclonetrigger = 4

abbrev pub clone_killflag : ℕ
clone_killflag = 1

abbrev pub clone_ignoreflag : ℕ
clone_ignoreflag = 2

abbrev pub clone_ok : ℕ
clone_ok = 8

abbrev pub clone_alert : ℕ
clone_alert = 16

abbrev pub has : ℕ → ℕ → Bool
has flags f = not (bit_and flags f == 0)

-- `flags & ~f`
abbrev pub unset : ℕ → ℕ → ℕ
unset flags f = flags - bit_and flags f

abbrev pub with_host : ℕ → HostClone → Clones → Clones
with_host n h s = record s { host = set s.host n h }

abbrev pub with_user : ℕ → UserClone → Clones → Clones
with_user n u s = record s { user = set s.user n u }

abbrev pub with_alert : ℕ → Alert → Clones → Clones
with_alert n a s = record s { alert = set s.alert n a }

-- The first item of a list that passes the test, or NULL.
unfoldable pub first_of : (ℕ → Bool) → List ℕ → ℕ
first_of test [] = 0
first_of test (x ∷ r) = let rest = first_of test r in if test x then x else rest

-- The list without its first item of this address.
unfoldable pub remove_item : ℕ → List ℕ → List ℕ
remove_item n [] = []
remove_item n (x ∷ r) = let rest = remove_item n r in if x == n then r else x ∷ rest

unfoldable pub find_palert : ℕ → Clones → ℕ
unfolding first_of
find_palert hc s = first_of (λ a. (s.alert a).hc == hc) s.alerts

unfoldable pub add_palert : ℕ → Clones → Clones
add_palert a s = record s { alerts = a ∷ s.alerts }

unfoldable pub remove_palert : ℕ → Clones → Clones
unfolding remove_item
remove_palert a s = record s { alerts = remove_item a s.alerts }

abbrev pub free_cell : Cell → Clones → Clones
free_cell c s = record s { freed = c ∷ s.freed }

unfoldable pub remove_crule : ℕ → Clones → Clones
unfolding remove_item
remove_crule zap s = record s { rules = remove_item zap s.rules }

unfoldable pub is_there : ℕ → List ℕ → Bool
is_there n [] = false
is_there n (x ∷ r) = let rest = is_there n r in if n == x then true else rest

-- The loop from `tmp`, the first of the list, as the rule `ct`: behind the rule `n - 1`, or at the end. `none`
-- stands for the `n` of -2.
unfoldable pub insert_rule : ℕ → Option ℕ → ℕ → List ℕ → List ℕ
insert_rule rule n ct [] = []
insert_rule rule n ct (tmp ∷ []) = tmp ∷ rule ∷ []
insert_rule rule none ct (tmp ∷ y ∷ r) =
    let rest = insert_rule rule none (ct + 1) (y ∷ r) in tmp ∷ rest
insert_rule rule (some n) ct (tmp ∷ y ∷ r) =
    let rest = insert_rule rule (some n) (ct + 1) (y ∷ r) in
    if leb n (ct + 1) then tmp ∷ rule ∷ y ∷ r else tmp ∷ rest

-- Whether the rule goes to the beginning: `n != -2 && n < 2`.
unfoldable pub at_front : Option ℕ → Bool
at_front none = false
at_front (some n) = ltb n 2

abbrev pub no_items : List ℕ → Bool
no_items [] = true
no_items (_ ∷ _) = false

-- `n` is not negative, or `none`.
unfoldable pub add_crule : ℕ → Option ℕ → Clones → Clones
unfolding is_there insert_rule at_front
add_crule rule n s = if rule == 0 || is_there rule s.rules then s else record s {
  rules = if at_front n || no_items s.rules then rule ∷ s.rules else insert_rule rule n 1 s.rules;
}

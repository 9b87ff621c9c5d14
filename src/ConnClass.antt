-- ===== src/ConnClass.antt =====
-- ircd/src/class.c: connection classes in a list from `classlist`, with counts of references. A class is a
-- number in place of its address, 0 for NULL. What the configuration says is a record of texts; `atoi` and
-- the default numbers are parameters.
pub mod Listed
pub mod Freed
mod Examples
use snservices.Base.{
  ℕ, zero, suc, ◌+◌, ◌-◌, Bool, true, false, ◌&&◌, not, Option, none, some, List, [], ◌∷◌, ◌==◌,
  if◌then◌else◌, Bytes,
}
use snservices.Base.Int.{ℤ, pos, negsuc}

pub record ConnClass : Type 0 where
  pub name : Bytes
  pub conns : ℕ
  pub refs : ℕ
  pub maxconns : ℤ
  pub pingfreq : ℤ
  pub connfreq : ℤ
  pub maxsendq : ℤ
  pub maxchannels : ℤ
  pub next : ℕ

pub record Classes : Type 0 where
  pub class_at : ℕ → ConnClass
  pub classlist : ℕ

abbrev pub set_class : ℕ → ConnClass → Classes → Classes
set_class cl x s = record s { class_at = λ k. if k == cl then x else s.class_at k }

-- The texts of a configuration node, NULL where one is missing.
pub record ConfNode : Type 0 where
  pub conf_name : Option Bytes
  pub ping_frequency : Option Bytes
  pub connect_frequency : Option Bytes
  pub max_connections : Option Bytes
  pub send_queue : Option Bytes
  pub max_channels : Option Bytes

pub record Defaults : Type 0 where
  pub pingfrequency : ℤ
  pub connectfrequency : ℤ
  pub maxconnections : ℤ
  pub maxsendqlength : ℤ
  pub maxchannelsperuser : ℤ

-- `!strcmp(s, t)`
unfoldable pub same_class_name : Bytes → Bytes → Bool
same_class_name [] [] = true
same_class_name [] (_ ∷ _) = false
same_class_name (_ ∷ _) [] = false
same_class_name (a ∷ s) (c ∷ t) = let rest = same_class_name s t in if a == c then rest else false

-- The loop from `cl` on, on fuel; `none` is a list that has not ended.
unfoldable pub class_from : ℕ → Bytes → ℕ → Classes → Option ℕ
unfolding same_class_name
class_from zero name cl s = none
class_from (suc fuel) name cl s =
    let further = class_from fuel name (s.class_at cl).next s in
    if cl == 0
    then some 0
    else if same_class_name (s.class_at cl).name name
    then some cl
    else further

unfoldable pub class_get : ℕ → Bytes → Classes → Option ℕ
unfolding class_from
class_get fuel name s = class_from fuel name s.classlist s

-- `maxconns == -1`, the mark of a class that was removed.
abbrev pub is_removed : ConnClass → Bool
is_removed x = is_minus_one x.maxconns
  where
    is_minus_one : ℤ → Bool
    is_minus_one (pos _) = false
    is_minus_one (negsuc zero) = true
    is_minus_one (negsuc (suc _)) = false

-- The loop of `class_free` behind the first link: the class is taken out behind `cl`.
unfoldable pub unlink_from : ℕ → ℕ → ℕ → Classes → Classes
unlink_from zero cl at s = s
unlink_from (suc fuel) cl at s =
    let next = (s.class_at at).next in
    let further = unlink_from fuel cl next s in
    if next == 0
    then s
    else if next == cl
    then set_class at (record (s.class_at at) { next = (s.class_at cl).next }) s
    else further

unfoldable pub unlink_class : ℕ → ℕ → Classes → Classes
unfolding unlink_from
unlink_class fuel cl s =
    if s.classlist == 0
    then s
    else if s.classlist == cl
    then record s { classlist = (s.class_at cl).next }
    else unlink_from fuel cl s.classlist s

-- Whoever lets go of a class holds a reference, so that `refs` is not 0 before.
unfoldable pub class_free : ℕ → ℕ → Classes → Classes
unfolding unlink_class
class_free fuel cl s =
    let x = record (s.class_at cl) { refs = (s.class_at cl).refs - 1 } in
    let s' = set_class cl x s in
    if is_removed x && (s.class_at cl).refs == 1 then unlink_class fuel cl s' else s'

module _ (atoi : Bytes → ℤ) (defaults : Defaults) where
  abbrev pub number : ℤ → Option Bytes → ℤ
  number default none = default
  number default (some tmp) = atoi tmp

  abbrev pub fill_class : ConfNode → ConnClass → ℕ → ConnClass
  fill_class n x next = record x {
    pingfreq = number defaults.pingfrequency n.ping_frequency;
    connfreq = number defaults.connectfrequency n.connect_frequency;
    maxconns = number defaults.maxconnections n.max_connections;
    maxsendq = number defaults.maxsendqlength n.send_queue;
    maxchannels = number defaults.maxchannelsperuser n.max_channels;
    refs = x.refs + 1;
    next = next;
  }

  abbrev pub new_class : Bytes → ConnClass → ConnClass
  new_class name x = record x { name = name; conns = 0; refs = 0 }

  -- The class that `class_get` gave, 0 for none, is filled in and put in front; `none` is CONFIG_BAD.
  unfoldable pub add_found : ℕ → Bytes → ConfNode → ℕ → Classes → Option (ℕ × Classes)
  add_found alloc name n zero s = some (
    alloc,
    record (set_class alloc (fill_class n (new_class name (s.class_at alloc)) s.classlist) s) {
      classlist = alloc;
    },
  )
  add_found alloc name n (suc k) s =
      let cl = suc k in
      if not (is_removed (s.class_at cl))
      then none
      else some (
        cl,
        record (set_class cl (fill_class n (s.class_at cl) s.classlist) s) { classlist = cl },
      )

  abbrev pub add_named : ℕ → Bytes → ConfNode → Option ℕ → Classes → Option (ℕ × Classes)
  add_named alloc name n none s = none
  add_named alloc name n (some cl) s = add_found alloc name n cl s

  -- `conf_class` for a node that is added, with the class that becomes its `data`; `alloc` is the address
  -- of a new class.
  unfoldable pub conf_class_add : ℕ → ℕ → ConfNode → Classes → Option (ℕ × Classes)
  unfolding class_get add_found
  conf_class_add fuel alloc n s = elim n.conf_name [
    | none ↦ none
    | some name ↦ add_named alloc name n (class_get fuel name s) s
  ]

  -- For a node that is removed, whose `data` is `cl`.
  unfoldable pub conf_class_remove : ℕ → ℕ → Classes → Classes
  unfolding class_free
  conf_class_remove fuel cl s =
      class_free fuel cl (set_class cl (record (s.class_at cl) { maxconns = negsuc 0 }) s)

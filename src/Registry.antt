-- ===== src/Registry.antt =====
-- The lists in which the services keep their records, as services/chanserv.c, services/clone.c and
-- services/nickserv.c link them: doubly linked, with a first and a last item, and a second time in the
-- bucket of a hash table. An address is a number and NULL is 0; a record's `next` pointers are a
-- function on addresses.
pub mod Chain
pub mod Refine
pub mod Remove
pub mod Names
pub mod Table
pub mod Buckets
pub mod Lookup
pub mod Unique
use snservices.Base.{
  ℕ, zero, suc, ◌+◌, ◌*◌, ◌/◌, ◌%◌, ◌^◌, Bool, true, false, not, ◌&&◌, List, [], ◌∷◌, leb, ◌==◌,
  if◌then◌else◌, Bytes,
}

abbrev pub set {ℓ} : {A : Type ℓ} → (ℕ → A) → ℕ → A → ℕ → A
set f a v k = if k == a then v else f k

-- `first`, `last`, and the fields `next` and `previous` of all records.
pub record Dll : Type 0 where
  pub first : ℕ
  pub last : ℕ
  pub next : ℕ → ℕ
  pub prev : ℕ → ℕ

-- The record goes to the end.
unfoldable pub append : ℕ → Dll → Dll
append n d =
    let linked : Dll =
      (if d.first == 0
        then record d { first = n; prev = set d.prev n 0 }
        else record d { next = set d.next d.last n; prev = set d.prev n d.last }) in
    record linked { last = n; next = set linked.next n 0 }

-- `if (killme->previous) killme->previous->next = killme->next; else first = killme->next;`
unfoldable pub cut_next : ℕ → Dll → Dll
cut_next n d =
    if d.prev n == 0
    then record d { first = d.next n }
    else record d { next = set d.next (d.prev n) (d.next n) }

-- The same the other way round.
unfoldable pub cut_prev : ℕ → Dll → Dll
cut_prev n d =
    if d.next n == 0
    then record d { last = d.prev n }
    else record d { prev = set d.prev (d.next n) (d.prev n) }

-- The record is taken out from between its neighbours.
unfoldable pub remove : ℕ → Dll → Dll
unfolding cut_next cut_prev
remove n d = cut_prev n (cut_next n d)

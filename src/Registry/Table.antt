-- ===== src/Registry/Table.antt =====
-- A list with a hash table over it: the records are linked a second time, by `hashnext` and `hashprev`,
-- in the bucket of their name. `hash` reads the bucket of a record, which does not change while it is
-- linked; the walks along a bucket run on fuel, for which the number of records is enough.
use snservices.Base.{ℕ, zero, suc, Bool, true, false, ◌==◌, if◌then◌else◌}
use snservices.Registry.{set, Dll, append, remove}

pub record Table : Type 0 where
  pub main : Dll
  pub heads : ℕ → ℕ
  pub tails : ℕ → ℕ
  pub hashnext : ℕ → ℕ
  pub hashprev : ℕ → ℕ

-- One bucket by itself, and its pointers written back.
abbrev pub bucket : ℕ → Table → Dll
bucket k t = record { first = t.heads k; last = t.tails k; next = t.hashnext; prev = t.hashprev }

abbrev pub put_bucket : ℕ → Dll → Table → Table
put_bucket k d t = record t {
  heads = set t.heads k d.first;
  tails = set t.tails k d.last;
  hashnext = d.next;
  hashprev = d.prev;
}

-- From `tmp` on: the first record that passes the test, or NULL.
unfoldable pub walk : (ℕ → Bool) → ℕ → ℕ → (ℕ → ℕ) → ℕ
walk test zero tmp next = 0
walk test (suc fuel) tmp next =
    let rest = walk test fuel (next tmp) next in
    if tmp == 0 then 0 else if test tmp then tmp else rest

-- Whether the record stands in the chain from `tmp` on.
unfoldable pub stands_in : ℕ → ℕ → ℕ → (ℕ → ℕ) → Bool
stands_in zero n tmp next = false
stands_in (suc fuel) n tmp next =
    let rest = stands_in fuel n (next tmp) next in
    if tmp == 0 then false else if tmp == n then true else rest

-- In one bucket.
unfoldable pub find : ℕ → (ℕ → Bool) → ℕ → Table → ℕ
unfolding walk
find k test fuel t = if t.heads k == 0 then 0 else walk test fuel (t.heads k) t.hashnext

module _ (hash : ℕ → ℕ) where
  -- To the end of the list, and of the bucket.
  unfoldable pub enlist : ℕ → Table → Table
  unfolding append
  enlist n t =
      let t' = record t { main = append n t.main } in
      put_bucket (hash n) (append n (bucket (hash n) t')) t'

  unfoldable pub delist : ℕ → ℕ → Table → Table
  unfolding remove stands_in
  delist fuel n t =
      let t' = record t { main = remove n t.main } in
      if stands_in fuel n (t'.heads (hash n)) t'.hashnext
      then put_bucket (hash n) (remove n (bucket (hash n) t')) t'
      else t'

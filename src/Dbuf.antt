-- ===== src/Dbuf.antt =====
-- ircd/src/dbuf.c and ircd/include/dbuf.h: the dynamic byte buffers behind each client's sendQ and
-- recvQ, and the pool of blocks that they share.
pub mod Getmsg
mod Examples
pub mod Alloc
pub mod Content
pub mod Put
pub mod Append
pub mod Delete
pub mod Get
use snservices.Base.{
  ℕ, zero, suc, ◌+◌, ◌-◌, ◌*◌, ◌/◌, ◌%◌, ◌^◌, Bool, true, false, Option, none, some, List, [], ◌∷◌,
  ◌++◌, min, ltb, ◌==◌, ◌||◌, if◌then◌else◌, Bytes, length, take, drop,
}
use snservices.Base.Int.{ℤ, pos, negsuc}

-- DBUFSIZ, the bytes of one block.
abbrev pub dbufsiz : ℕ
dbufsiz = 2032

-- What a `u_int` keeps of a number.
abbrev pub u32 : ℕ → ℕ
u32 n = n % 2 ^ 32

-- The file's static state. A block of the freelist keeps the bytes that it held.
pub record Pool : Type 0 where
  pub dbufalloc : ℕ
  pub dbufblocks : ℕ
  pub freelist : List Bytes

-- `head` is the chain of blocks from `dyn->head` along `next`.
pub record Dbuf : Type 0 where
  pub length : ℕ
  pub offset : ℕ
  pub head : List Bytes

-- `BUFFERPOOL` of the build, and what `irc_malloc` hands out for the data of a new block.
pub record Arena : Type 0 where
  pub bufferpool : ℕ
  pub raw : Bytes

-- A failure leaves the pool as it was: `dbufalloc` is counted up, and down again.
pub dbuf_alloc : Arena → Pool → Option Bytes × Pool
dbuf_alloc a p = elim p.freelist [
  | b ∷ bs ↦ (some b, record p { dbufalloc = p.dbufalloc + 1; freelist = bs })
  | [] ↦
      if ltb a.bufferpool ((p.dbufalloc + 1) * dbufsiz)
      then (none, p)
      else (some a.raw, record p { dbufalloc = p.dbufalloc + 1; dbufblocks = p.dbufblocks + 1 })
]

pub dbuf_free : Bytes → Pool → Pool
dbuf_free b p = record p { dbufalloc = p.dbufalloc - 1; freelist = b ∷ p.freelist }

free_chain : List Bytes → Pool → Pool
free_chain [] p = p
free_chain (b ∷ bs) p = free_chain bs (dbuf_free b p)

-- Its result, -1, is added by the one caller.
dbuf_malloc_error : Dbuf → Pool → Dbuf × Pool
unfolding free_chain dbuf_free
dbuf_malloc_error dyn p = (record { length = 0; offset = 0; head = [] }, free_chain dyn.head p)

-- `bcopy(buf, d->data + off, chunk)`
abbrev write : Bytes → ℕ → Bytes → Bytes
write b off s = take off b ++ (s ++ drop (off + length s) b)

-- What the copying loop of `dbuf_put` leaves: the chain from `h` on, the pool, and whether every
-- block that it asked for was given.
pub record Filled : Type 0 where
  pub blocks : List Bytes
  pub pool : Pool
  pub filled : Bool

abbrev link : Bytes → Filled → Filled
link b r = record r { blocks = b ∷ r.blocks }

-- The loop `for ( ;length > 0; h = &(d->next))`. Each round copies a byte at least, so that the
-- bytes left bound the rounds.
pub fill : Arena → ℕ → Pool → List Bytes → ℕ → Bytes → Filled
unfolding dbuf_alloc
fill a fuel p bs off [] = record { blocks = bs; pool = p; filled = true }
fill a zero p bs off (c ∷ cs) = record { blocks = bs; pool = p; filled = false }
fill a (suc fuel) p (b ∷ bs) off (c ∷ cs) =
    let chunk = min (dbufsiz - off) (suc (length cs)) in
    link (write b off (take chunk (c ∷ cs))) (fill a fuel p bs 0 (drop chunk (c ∷ cs)))
fill a (suc fuel) p [] off (c ∷ cs) =
    let chunk = min (dbufsiz - off) (suc (length cs)) in
    let (given, p') = dbuf_alloc a p in
    elim given [
      | none ↦ record { blocks = []; pool = p'; filled = false }
      | some b ↦
          link (write b off (take chunk (c ∷ cs))) (fill a fuel p' [] 0 (drop chunk (c ∷ cs)))
    ]

-- `buf` holds the `length` bytes to append. The first loop walks over `nbr` full blocks.
pub dbuf_put : Arena → Dbuf → Bytes → Pool → ℤ × Dbuf × Pool
unfolding fill dbuf_malloc_error
dbuf_put a dyn buf p =
    let off = u32 (dyn.offset + dyn.length) % dbufsiz in
    let nbr = u32 (dyn.offset + dyn.length) / dbufsiz in
    let r = fill a (length buf) p (drop nbr dyn.head) off buf in
    let dyn' : Dbuf = record dyn {
      length = u32 (dyn.length + length buf);
      head = take nbr dyn.head ++ r.blocks;
    } in
    let (emptied, p') = dbuf_malloc_error dyn' r.pool in
    if r.filled then (pos 1, dyn', r.pool) else (negsuc 0, emptied, p')

-- The section in front of the buffer: its bytes, `*length` of them, or NULL.
pub dbuf_map : Dbuf → Option Bytes
dbuf_map dyn = elim dyn.head [
  | [] ↦ none
  | b ∷ _ ↦ some (take (min (dbufsiz - dyn.offset) dyn.length) (drop dyn.offset b))
]

-- `d = dyn->head; dyn->head = d->next; dyn->offset = 0; dbuf_free(d);` — `none` is a read of NULL.
pop_block : Dbuf → Pool → Option (Dbuf × Pool)
unfolding dbuf_free
pop_block dyn p = elim dyn.head [
  | [] ↦ none
  | b ∷ bs ↦ some (record dyn { head = bs; offset = 0 }, dbuf_free b p)
]

-- One round of the loop of `dbuf_delete`, with `chunk` no more than what is to go.
delete_round : ℕ → Dbuf → Pool → Option (Dbuf × Pool)
unfolding pop_block
delete_round chunk dyn p =
    let dyn' : Dbuf = record dyn { offset = dyn.offset + chunk; length = dyn.length - chunk } in
    if dyn'.offset == dbufsiz || dyn'.length == 0 then pop_block dyn' p else some (dyn', p)

-- `while (length > 0)`, on fuel.
delete_loop : ℕ → ℕ → ℕ → Dbuf → Pool → Option (Dbuf × Pool)
delete_loop fuel chunk zero dyn p = some (dyn, p)
delete_loop zero chunk (suc n) dyn p = none
delete_loop (suc fuel) chunk (suc n) dyn p =
    let c = min chunk (suc n) in
    elim (delete_round c dyn p) [
      | none ↦ none
      | some (dyn', p') ↦ delete_loop fuel dbufsiz (suc n - c) dyn' p'
    ]

-- `if (dyn->head == NULL) dyn->length = 0;`
abbrev settle : Dbuf × Pool → Dbuf × Pool
settle (dyn, p) = elim dyn.head [ [] ↦ (record dyn { length = 0 }, p) | _ ↦ (dyn, p) ]

pub dbuf_delete : Dbuf → ℕ → Pool → Option (Dbuf × Pool)
unfolding delete_loop delete_round
dbuf_delete dyn n p =
    let n' = min n dyn.length in
    elim (delete_loop (suc n') (dbufsiz - dyn.offset) n' dyn p) [
      | none ↦ none
      | some s ↦ some (settle s)
    ]

-- The bytes moved, and the state after.
get_loop : ℕ → Dbuf → ℕ → Pool → Option (Bytes × Dbuf × Pool)
unfolding dbuf_map
get_loop fuel dyn zero p = some ([], dyn, p)
get_loop zero dyn (suc n) p = none
get_loop (suc fuel) dyn (suc n) p = elim (dbuf_map dyn) [
  | none ↦ some ([], dyn, p)
  | some section ↦
      let moved = take (suc n) section in
      elim (dbuf_delete dyn (length moved) p) [
        | none ↦ none
        | some (dyn', p') ↦ elim (get_loop fuel dyn' (suc n - length moved) p') [
          | none ↦ none
          | some (rest, dyn'', p'') ↦ some (moved ++ rest, dyn'', p'')
        ]
      ]
]

pub dbuf_get : Dbuf → ℕ → Pool → Option (Bytes × Dbuf × Pool)
unfolding get_loop
dbuf_get dyn n p = get_loop n dyn n p

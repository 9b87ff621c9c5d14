-- ===== src/Dbuf/Alloc.antt =====
-- The pool of blocks: `dbuf_alloc` and `dbuf_free` keep the counts right, and the blocks that
-- exist within `BUFFERPOOL` bytes.
use snservices.Base.{
  ◌+◌, ◌*◌, ◌≤◌, ◌<◌, ◌≡◌, refl, ◌⊎◌, inl, inr, some, none, List, [], ◌∷◌, arith, Bytes, length,
  All, Bool-cases, List-cases, ltb, false, ap, subst,
}
use snservices.Dbuf.{Arena, Pool, dbufsiz, dbuf_alloc, dbuf_free}

abbrev pub IsBlock : Bytes → Type 0
IsBlock b = length b ≡ dbufsiz

-- Every block is in use or on the freelist, and all of them fit into `bufferpool` bytes.
pub record IsPool (a : Arena) (p : Pool) : Type 0 where
  pub free : All IsBlock p.freelist
  pub stock : p.dbufblocks ≡ p.dbufalloc + length p.freelist
  pub bound : p.dbufblocks * dbufsiz ≤ a.bufferpool

-- `dbuf_alloc` takes the block `b` out of `p` and leaves `q`.
pub record Given (a : Arena) (p : Pool) (b : Bytes) (q : Pool) : Type 0 where
  pub call : dbuf_alloc a p ≡ (some b, q)
  pub block : IsBlock b
  pub pool : IsPool a q
  pub used : q.dbufalloc ≡ p.dbufalloc + 1

alloc_free :
    (a : Arena) (p : Pool) (b : Bytes) (bs : List Bytes)
    → p.freelist ≡ b ∷ bs
    → IsPool a p
    → (q : Pool) × Given a p b q
unfolding dbuf_alloc
alloc_free a p b bs e v = (
  record p { dbufalloc = p.dbufalloc + 1; freelist = bs },
  record {
    call = ground arith;
    block = (subst (All IsBlock) e v.free).0;
    pool = record {
      free = (subst (All IsBlock) e v.free).1;
      stock = omega (arith, v.stock, ap length e);
      bound = v.bound;
    };
    used = refl;
  },
)

alloc_raw :
    (a : Arena) (p : Pool)
    → p.freelist ≡ []
    → ltb a.bufferpool ((p.dbufalloc + 1) * dbufsiz) ≡ false
    → IsBlock a.raw
    → IsPool a p
    → (q : Pool) × Given a p a.raw q
unfolding dbuf_alloc
alloc_raw a p e room raw v = (
  record p { dbufalloc = p.dbufalloc + 1; dbufblocks = p.dbufblocks + 1 },
  record {
    call = ground arith;
    block = raw;
    pool = record {
      free = v.free;
      stock = omega (arith, v.stock);
      bound = ground (arith, v.stock, ap length e);
    };
    used = refl;
  },
)

-- Either a block is given, or the freelist is empty and one block more would pass `bufferpool`.
pub alloc_cases :
    (a : Arena) (p : Pool)
    → IsBlock a.raw
    → IsPool a p
    → ((dbuf_alloc a p ≡ (none, p))
        × (p.freelist ≡ [])
        × (a.bufferpool < (p.dbufalloc + 1) * dbufsiz))
      ⊎ ((b : Bytes) × (q : Pool) × Given a p b q)
unfolding dbuf_alloc
alloc_cases a p raw v = elim (List-cases p.freelist) [
  | inr (b, bs, e) ↦ let (q, g) = alloc_free a p b bs e v in inr (b, q, g)
  | inl e ↦ elim (Bool-cases (ltb a.bufferpool ((p.dbufalloc + 1) * dbufsiz))) [
    | inl full ↦ inl (ground arith, e, ground arith)
    | inr room ↦ let (q, g) = alloc_raw a p e room raw v in inr (a.raw, q, g)
  ]
]

-- A block that is given back is free, and the counts follow.
pub dbuf_free-IsPool :
    (a : Arena) (p : Pool) (b : Bytes)
    → IsBlock b
    → 0 < p.dbufalloc
    → IsPool a p
    → IsPool a (dbuf_free b p)
unfolding dbuf_free
dbuf_free-IsPool a p b ob used v = record {
  free = (ob, v.free);
  stock = omega (arith, v.stock);
  bound = v.bound;
}

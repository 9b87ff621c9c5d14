-- ===== src/Dbuf/Append.antt =====
-- What a call of `dbuf_put` promises.
use mathlib.Core.List.{flatten}
use snservices.Base.{
  ℕ, ◌+◌, ◌*◌, ◌/◌, ◌%◌, ◌^◌, ◌≤◌, ◌<◌, ◌≡◌, refl, sym, ap, ◌∙◌, ◌⊎◌, inl, inr, true, false, List,
  [], ◌∷◌, ◌++◌, arith, Bytes, length, take, drop, All, All-append, All-take, All-drop,
  length-append, length-take, length-drop, take-append_add, drop-append_le, drop-take, append_assoc,
  take-append-drop, Bool-cases,
}
use snservices.Base.Int.{ℤ, pos, negsuc}
use snservices.Dbuf.{Arena, Pool, Dbuf, Filled, dbufsiz, u32, fill, free_chain, dbuf_free, dbuf_put}
use snservices.Dbuf.Alloc.{IsBlock, IsPool, dbuf_free-IsPool}
use snservices.Dbuf.Content.{content, IsValid, Written, length-flatten, flatten-append}
use snservices.Dbuf.Put.{Kept, fill-Kept, fill-Fills, fill-filled}

free_chain-IsPool :
    (a : Arena) (bs : List Bytes) (p : Pool)
    → All IsBlock bs
    → length bs ≤ p.dbufalloc
    → IsPool a p
    → IsPool a (free_chain bs p) × ((free_chain bs p).dbufalloc + length bs ≡ p.dbufalloc)
unfolding free_chain dbuf_free
free_chain-IsPool a [] p hb le v = (v, omega arith)
free_chain-IsPool a (b ∷ bs) p hb le v =
    let (v', e) =
      free_chain-IsPool a bs (dbuf_free b p) hb.1 (omega arith)
        (dbuf_free-IsPool a p b hb.0 (omega arith) v) in
    (v', omega arith)

-- The bytes of a chain the tail of which, from block `k` on, was written by `fill`.
flatten-Written :
    (k off end : ℕ) (head out : List Bytes) (buf : Bytes)
    → All IsBlock head
    → k ≤ length head
    → end ≡ dbufsiz * k + off
    → Written off (drop k head) buf out
    → take (end + length buf) (flatten (take k head ++ out)) ≡ take end (flatten head) ++ buf
flatten-Written k off end head out buf hb le e w = rw (flatten-append (take k head) out) (
    take-append_add _ (off + length buf) (flatten (take k head)) (flatten out) (omega (arith, lx))
    ∙ ap (◌++◌ (flatten (take k head))) w.joined
    ∙ sym (append_assoc (flatten (take k head)) _ buf)
    ∙ sym (ap (λ x. x ++ buf) front))
  where
    lx : length (flatten (take k head)) ≡ dbufsiz * k
    lx =
        omega (arith, length-flatten (take k head) (All-take IsBlock k head hb), length-take k head)

    front : take end (flatten head) ≡ flatten (take k head) ++ take off (flatten (drop k head))
    front =
        ap (λ x. take end (flatten x)) (sym (take-append-drop k head))
        ∙ ap (take end) (flatten-append (take k head) (drop k head))
        ∙ take-append_add end off (flatten (take k head)) (flatten (drop k head))
            (omega (arith, lx))

-- Appending behind the bytes in use.
content-append :
    (o l : ℕ) (f g buf : Bytes)
    → o + l ≤ length f
    → take (o + l + length buf) g ≡ take (o + l) f ++ buf
    → take (l + length buf) (drop o g) ≡ take l (drop o f) ++ buf
content-append o l f g buf le e =
    sym (drop-take o (o + l + length buf) (l + length buf) g (omega arith))
    ∙ ap (drop o) e
    ∙ drop-append_le o (take (o + l) f) buf (omega (arith, length-take (o + l) f))
    ∙ ap (λ x. x ++ buf) (drop-take o (o + l) l f refl)

-- How a call ends: with the bytes appended, or, when the pool is exhausted, with an empty buffer.
abbrev pub PutDone : Arena → Dbuf → Bytes → Pool → ℤ × Dbuf × Pool → Type 0
PutDone a dyn buf p (r, dyn', p') =
    IsValid dyn'
    × IsPool a p'
    × (p'.dbufalloc + length dyn.head ≡ p.dbufalloc + length dyn'.head)
    × (((r ≡ pos 1) × (content dyn' ≡ content dyn ++ buf))
        ⊎ ((r ≡ negsuc 0) × (dyn'.length ≡ 0) × (content dyn' ≡ [])))

module _ (a : Arena) (dyn : Dbuf) (buf : Bytes) (p : Pool) (raw : IsBlock a.raw) (v : IsPool a p)
    (ok : IsValid dyn) (small : dyn.offset + dyn.length + length buf < 2 ^ 32) where
  off : ℕ
  off = u32 (dyn.offset + dyn.length) % dbufsiz

  nbr : ℕ
  nbr = u32 (dyn.offset + dyn.length) / dbufsiz

  result : Filled
  result = fill a (length buf) p (drop nbr dyn.head) off buf

  written : Dbuf
  written = record dyn {
    length = u32 (dyn.length + length buf);
    head = take nbr dyn.head ++ result.blocks;
  }

  parts : (dyn.offset + dyn.length ≡ dbufsiz * nbr + off) × (off < dbufsiz)
  unfolding off nbr
  parts = omega arith

  nbr-le : nbr ≤ length dyn.head
  unfolding nbr
  nbr-le = omega (arith, ok.enough)

  result-Kept : Kept a p (drop nbr dyn.head) result
  unfolding result
  result-Kept =
      fill-Kept a raw (length buf) p (drop nbr dyn.head) off buf v
        (All-drop IsBlock nbr dyn.head ok.blocks) (parts.1)

  result-Written : result.filled ≡ true → Written off (drop nbr dyn.head) buf result.blocks
  unfolding result
  result-Written =
      fill-Fills a raw (length buf) p (drop nbr dyn.head) off buf v
        (All-drop IsBlock nbr dyn.head ok.blocks) (parts.1)
        (omega (arith, length-drop nbr dyn.head, parts.0, ok.enough, nbr-le))
        (omega (arith, length-drop nbr dyn.head, parts.0, ok.minimal, nbr-le)) (omega arith)

  written-blocks : All IsBlock written.head
  unfolding written
  written-blocks =
      All-append IsBlock (take nbr dyn.head) result.blocks (All-take IsBlock nbr dyn.head ok.blocks)
        result-Kept.blocks

  written-count : length written.head ≡ nbr + length result.blocks
  unfolding written
  written-count =
      omega
        (arith, length-append (take nbr dyn.head) result.blocks, length-take nbr dyn.head, nbr-le)

  written-used : result.pool.dbufalloc + length dyn.head ≡ p.dbufalloc + length written.head
  written-used = omega (arith, result-Kept.used, written-count, length-drop nbr dyn.head, nbr-le)

  written-IsValid : result.filled ≡ true → IsValid written
  unfolding written
  written-IsValid h =
      let w = result-Written h in
      record {
        blocks = written-blocks;
        offset = ok.offset;
        enough = omega (arith, w.enough, parts.0, written-count);
        minimal = omega (arith, w.minimal, parts.0, written-count);
        empty = λ z. ok.empty (omega arith);
      }

  content-written : result.filled ≡ true → content written ≡ content dyn ++ buf
  unfolding written
  content-written h =
      let e : u32 (dyn.length + length buf) ≡ dyn.length + length buf = omega arith in
      rw e (
        content-append dyn.offset dyn.length (flatten dyn.head) _ buf
          (omega (arith, length-flatten dyn.head ok.blocks, ok.enough))
          (flatten-Written nbr off (dyn.offset + dyn.length) dyn.head result.blocks buf ok.blocks
            nbr-le parts.0 (result-Written h)))

  put_filled : result.filled ≡ true → dbuf_put a dyn buf p ≡ (pos 1, written, result.pool)
  unfolding dbuf_put written result off nbr
  put_filled h = rw (h, dbuf_put)

  put_refused :
      result.filled ≡ false
      → dbuf_put a dyn buf p ≡ (
        negsuc 0,
        record { length = 0; offset = 0; head = [] },
        free_chain written.head result.pool,
      )
  unfolding dbuf_put written result off nbr
  put_refused h = rw (h, dbuf_put)

  -- A buffer that is well formed takes the bytes at its end and returns 1, or, if the pool refuses
  -- a block, gives all its blocks back, is empty and returns -1; in both cases the buffer and the pool
  -- are well formed after, and `dbufalloc` has grown by the blocks that the buffer has more.
  pub dbuf_put_lem : length dyn.head ≤ p.dbufalloc → PutDone a dyn buf p (dbuf_put a dyn buf p)
  dbuf_put_lem used = elim (Bool-cases result.filled) [
    | inl h ↦
        rw (put_filled h)
          (written-IsValid h, result-Kept.pool, written-used, inl (refl, content-written h))
    | inr h ↦ rw (put_refused h) (emptied h)
  ]
    where
      emptied :
          result.filled ≡ false
          → PutDone a dyn buf p (
            negsuc 0,
            record { length = 0; offset = 0; head = [] },
            free_chain written.head result.pool,
          )
      emptied h =
          let (v', e) =
            free_chain-IsPool a written.head result.pool written-blocks
              (omega (arith, written-used)) result-Kept.pool in
          (
            record {
              blocks = tt;
              offset = omega arith;
              enough = omega arith;
              minimal = omega arith;
              empty = λ z. refl;
            },
            v',
            omega (arith, e, written-used),
            inr (refl, refl, refl),
          )

  -- The call returns 1 whenever `bufferpool` has room for `k` blocks beyond those in use, and the
  -- bytes fit into the buffer's blocks and `k` more.
  pub dbuf_put_room :
      (k : ℕ)
      → (p.dbufalloc + k) * dbufsiz ≤ a.bufferpool
      → dyn.offset + dyn.length + length buf ≤ dbufsiz * (length dyn.head + k)
      → (dbuf_put a dyn buf p).0 ≡ pos 1
  unfolding result
  dbuf_put_room k room fits = rw (put_filled filled) refl
    where
      filled : result.filled ≡ true
      filled =
          fill-filled a raw (length buf) k p (drop nbr dyn.head) off buf v room
            (omega (arith, parts.0, length-drop nbr dyn.head, nbr-le)) (parts.1) (omega arith)

-- ===== src/Dbuf/Put.antt =====
-- `dbuf_put`: the loop that fills blocks, and what the call promises.
use snservices.Base.{
  ℕ, zero, suc, ◌+◌, ◌*◌, ◌≤◌, ◌<◌, ◌≡◌, refl, true, false, none, inl, inr, List, [], ◌∷◌, arith,
  Bytes, length, take, drop, All, length-drop,
}
use snservices.Dbuf.{Arena, Pool, Filled, dbufsiz, write, link, fill, dbuf_alloc}
use snservices.Dbuf.Alloc.{IsBlock, IsPool, Given, alloc_cases}
use snservices.Dbuf.Content.{
  Written, Written-none, Written-link, Written-first, piece, write-IsBlock,
}

fill-Given :
    (a : Arena) (fuel : ℕ) (p : Pool) (off c : ℕ) (cs b : Bytes) (q : Pool)
    → Given a p b q
    → fill a (suc fuel) p [] off (c ∷ cs)
      ≡ link
          (write b off (take (piece off (c ∷ cs)) (c ∷ cs)))
          (fill a fuel q [] 0 (drop (piece off (c ∷ cs)) (c ∷ cs)))
unfolding fill
fill-Given a fuel p off c cs b q g = ground (arith, g.call)

fill_refused :
    (a : Arena) (fuel : ℕ) (p : Pool) (off c : ℕ) (cs : Bytes)
    → dbuf_alloc a p ≡ (none, p)
    → fill a (suc fuel) p [] off (c ∷ cs) ≡ record { blocks = []; pool = p; filled = false }
unfolding fill
fill_refused a fuel p off c cs e = ground arith

-- What every call of `fill` keeps, also one that is refused a block.
pub record Kept (a : Arena) (p : Pool) (bs : List Bytes) (r : Filled) : Type 0 where
  pub blocks : All IsBlock r.blocks
  pub pool : IsPool a r.pool
  pub used : r.pool.dbufalloc + length bs ≡ p.dbufalloc + length r.blocks

-- The chain that `fill` leaves, when every block that it asks for is given.
abbrev pub Fills : ℕ → List Bytes → Bytes → Filled → Type 0
Fills off bs buf r = r.filled ≡ true → Written off bs buf r.blocks

module _ (a : Arena) (raw : IsBlock a.raw) where
  pub fill-Kept :
      (fuel : ℕ) (p : Pool) (bs : List Bytes) (off : ℕ) (buf : Bytes)
      → IsPool a p
      → All IsBlock bs
      → off < dbufsiz
      → Kept a p bs (fill a fuel p bs off buf)
  unfolding fill
  fill-Kept fuel p bs off [] v hb lt = record { blocks = hb; pool = v; used = refl }
  fill-Kept zero p bs off (c ∷ cs) v hb lt = record { blocks = hb; pool = v; used = refl }
  fill-Kept (suc fuel) p (b ∷ bs) off (c ∷ cs) v hb lt =
      let k = fill-Kept fuel p bs 0 (drop (piece off (c ∷ cs)) (c ∷ cs)) v hb.1 (omega arith) in
      record {
        blocks = (write-IsBlock b off (c ∷ cs) hb.0 lt, k.blocks);
        pool = k.pool;
        used = omega (arith, k.used);
      }
  fill-Kept (suc fuel) p [] off (c ∷ cs) v hb lt = elim (alloc_cases a p raw v) [
    | inl (e, _, _) ↦
        rw (fill_refused a fuel p off c cs e) (record { blocks = tt; pool = v; used = refl })
    | inr (b, q, g) ↦
        let k =
          fill-Kept fuel q [] 0 (drop (piece off (c ∷ cs)) (c ∷ cs)) g.pool tt (omega arith) in
        rw (fill-Given a fuel p off c cs b q g) (record {
          blocks = (write-IsBlock b off (c ∷ cs) g.block lt, k.blocks);
          pool = k.pool;
          used = omega (arith, k.used, g.used);
        })
  ]

  pub fill-Fills :
      (fuel : ℕ) (p : Pool) (bs : List Bytes) (off : ℕ) (buf : Bytes)
      → IsPool a p
      → All IsBlock bs
      → off < dbufsiz
      → off ≤ dbufsiz * length bs
      → dbufsiz * length bs < off + length buf + dbufsiz
      → length buf ≤ fuel
      → Fills off bs buf (fill a fuel p bs off buf)
  unfolding fill
  fill-Fills fuel p bs off [] v hb lt le few enough = λ ok. Written-none off bs hb le (omega arith)
  fill-Fills zero p bs off (c ∷ cs) v hb lt le few enough = λ ok. cc
  fill-Fills (suc fuel) p (b ∷ bs) off (c ∷ cs) v hb lt le few enough = λ ok.
      Written-link b off bs (c ∷ cs) _ hb.0 lt (omega arith) (
        fill-Fills fuel p bs 0 _ v hb.1 (omega arith) (omega arith)
          (omega (arith, length-drop (piece off (c ∷ cs)) (c ∷ cs)))
          (omega (arith, length-drop (piece off (c ∷ cs)) (c ∷ cs))) ok)
  fill-Fills (suc fuel) p [] off (c ∷ cs) v hb lt le few enough = elim (alloc_cases a p raw v) [
    | inl (e, _, _) ↦ rw (fill_refused a fuel p off c cs e) (λ h. cc)
    | inr (b, q, g) ↦ rw (fill-Given a fuel p off c cs b q g) (λ ok.
        Written-first off (c ∷ cs) b _ (omega arith) (
          Written-link b off [] (c ∷ cs) _ g.block lt (omega arith) (
            fill-Fills fuel q [] 0 _ g.pool tt (omega arith) (omega arith) (omega arith)
              (omega (arith, length-drop (piece off (c ∷ cs)) (c ∷ cs))) ok)))
  ]

  -- With room for `k` blocks more no request is refused, when those are enough.
  pub fill-filled :
      (fuel k : ℕ) (p : Pool) (bs : List Bytes) (off : ℕ) (buf : Bytes)
      → IsPool a p
      → (p.dbufalloc + k) * dbufsiz ≤ a.bufferpool
      → off + length buf ≤ dbufsiz * (length bs + k)
      → off < dbufsiz
      → length buf ≤ fuel
      → (fill a fuel p bs off buf).filled ≡ true
  unfolding fill
  fill-filled fuel k p bs off [] v room fits lt enough = refl
  fill-filled zero k p bs off (c ∷ cs) v room fits lt enough = absurd (omega arith)
  fill-filled (suc fuel) k p (b ∷ bs) off (c ∷ cs) v room fits lt enough =
      fill-filled fuel k p bs 0 _ v room (omega (arith, length-drop (piece off (c ∷ cs)) (c ∷ cs)))
        (omega arith) (omega (arith, length-drop (piece off (c ∷ cs)) (c ∷ cs)))
  fill-filled (suc fuel) zero p [] off (c ∷ cs) v room fits lt enough = absurd (omega arith)
  fill-filled (suc fuel) (suc k) p [] off (c ∷ cs) v room fits lt enough =
      elim (alloc_cases a p raw v) [
        | inl (_, _, full) ↦ absurd (omega arith)
        | inr (b, q, g) ↦ rw (fill-Given a fuel p off c cs b q g) (
            fill-filled fuel k q [] 0 _ g.pool (omega (arith, g.used))
              (omega (arith, length-drop (piece off (c ∷ cs)) (c ∷ cs))) (omega arith)
              (omega (arith, length-drop (piece off (c ∷ cs)) (c ∷ cs))))
      ]

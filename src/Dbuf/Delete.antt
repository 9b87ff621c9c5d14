-- ===== src/Dbuf/Delete.antt =====
-- `dbuf_delete` takes bytes off the front.
use mathlib.Core.List.{flatten}
use snservices.Base.{
  ℕ, zero, suc, ◌+◌, ◌-◌, ◌≤◌, ◌<◌, ◌≡◌, refl, sym, ap, ◌∙◌, ◌⊎◌, inl, inr, some, List, ◌∷◌, min,
  ◌==◌, ◌||◌, arith, Bytes, length, take, drop, All, length-take, drop_all, drop-append_add,
  drop-drop, drop-take, drop-min, Bool-cases, List-cases, subst,
}
use snservices.Dbuf.{
  Arena, Pool, Dbuf, dbufsiz, pop_block, delete_round, delete_loop, settle, dbuf_free, dbuf_delete,
}
use snservices.Dbuf.Alloc.{IsBlock, IsPool, dbuf_free-IsPool}
use snservices.Dbuf.Content.{content, IsValid}

-- `n` bytes went from the front, and the blocks that held nothing else went back to the pool.
pub record Deleted (a : Arena) (n : ℕ) (dyn : Dbuf) (p : Pool) (dyn' : Dbuf) (p' : Pool)
    : Type 0 where
  pub valid : IsValid dyn'
  pub pool : IsPool a p'
  pub used : p'.dbufalloc + length dyn.head ≡ p.dbufalloc + length dyn'.head
  pub count : dyn'.length ≡ dyn.length - n
  pub content : content dyn' ≡ drop n (content dyn)

-- Moving the offset over `c` bytes.
drop-content :
    (o l c : ℕ) (f : Bytes) → c ≤ l → take (l - c) (drop (o + c) f) ≡ drop c (take l (drop o f))
drop-content o l c f le =
    ap (take (l - c)) (sym (drop-drop (o + c) o c f refl))
    ∙ sym (drop-take c l (l - c) (drop o f) (omega arith))

content-le : (dyn : Dbuf) → length (content dyn) ≤ dyn.length
content-le dyn = omega (arith, length-take dyn.length (drop dyn.offset (flatten dyn.head)))

module _ (a : Arena) where
  -- The round that empties the first block, or the buffer.
  pop-Deleted :
      (c : ℕ) (dyn : Dbuf) (p : Pool) (b : Bytes) (bs : List Bytes)
      → dyn.head ≡ b ∷ bs
      → IsValid dyn
      → IsPool a p
      → length dyn.head ≤ p.dbufalloc
      → dyn.offset + c ≤ dbufsiz
      → c ≤ dyn.length
      → (dyn.offset + c ≡ dbufsiz) ⊎ (dyn.length - c ≡ 0)
      → Deleted a c dyn p
          (record { length = dyn.length - c; offset = 0; head = bs })
          (dbuf_free b p)
  unfolding dbuf_free flatten
  pop-Deleted c dyn p b bs e ok v used fits le end = record {
    valid = record {
      blocks = blocks.1;
      offset = omega arith;
      enough = omega (arith, ok.enough, count);
      minimal = omega (arith, ok.minimal, count);
      empty = λ z. refl;
    };
    pool = dbuf_free-IsPool a p b blocks.0 (omega (arith, count)) v;
    used = omega (arith, count);
    count = refl;
    content = elim end [
      | inl full ↦ sym (
          sym (drop-content dyn.offset dyn.length c (flatten dyn.head) le)
          ∙ ap (λ x. take (dyn.length - c) (drop (dyn.offset + c) (flatten x))) e
          ∙ ap (take (dyn.length - c))
              (drop-append_add (dyn.offset + c) 0 b (flatten bs) (omega (arith, blocks.0))))
      | inr done ↦
          ap (λ n. take n (flatten bs)) done
          ∙ sym (
              drop_all c (content dyn)
                (omega (arith, length-take dyn.length (drop dyn.offset (flatten dyn.head)))))
    ];
  }
    where
      blocks : All IsBlock (b ∷ bs)
      blocks = subst (All IsBlock) e ok.blocks

      count : length dyn.head ≡ suc (length bs)
      count = ap length e

  -- The round that only moves the offset.
  move-Deleted :
      (c : ℕ) (dyn : Dbuf) (p : Pool)
      → IsValid dyn
      → IsPool a p
      → dyn.offset + c < dbufsiz
      → c < dyn.length
      → Deleted a c dyn p (record dyn { offset = dyn.offset + c; length = dyn.length - c }) p
  move-Deleted c dyn p ok v fits le = record {
    valid = record {
      blocks = ok.blocks;
      offset = fits;
      enough = omega (arith, ok.enough);
      minimal = omega (arith, ok.minimal);
      empty = λ z. absurd (omega arith);
    };
    pool = v;
    used = refl;
    count = refl;
    content = drop-content dyn.offset dyn.length c (flatten dyn.head) (omega arith);
  }

  round-Deleted :
      (c : ℕ) (dyn : Dbuf) (p : Pool)
      → IsValid dyn
      → IsPool a p
      → length dyn.head ≤ p.dbufalloc
      → dyn.offset + c ≤ dbufsiz
      → 0 < c
      → c ≤ dyn.length
      → (dyn' : Dbuf) × (p' : Pool) × (delete_round c dyn p ≡ some (dyn', p'))
        × Deleted a c dyn p dyn' p'
        × (dyn.offset + c ≡ dbufsiz → dyn'.offset ≡ 0)
  unfolding delete_round pop_block
  round-Deleted c dyn p ok v used fits pos le = elim (List-cases dyn.head) [
    | inl e ↦ absurd (omega (arith, ok.enough, ap length e))
    | inr (b, bs, e) ↦ elim (Bool-cases (dyn.offset + c == dbufsiz || dyn.length - c == 0)) [
      | inl h ↦ (
        record { length = dyn.length - c; offset = 0; head = bs },
        dbuf_free b p,
        ground arith,
        pop-Deleted c dyn p b bs e ok v used fits le (ground arith),
        λ _. refl,
      )
      | inr h ↦ (
        record dyn { offset = dyn.offset + c; length = dyn.length - c },
        p,
        ground arith,
        move-Deleted c dyn p ok v (ground arith) (ground arith),
        λ z. absurd (ground arith),
      )
    ]
  ]

  -- One round after another.
  pub Deleted-trans :
      (m n k : ℕ) {d e f : Dbuf} {p q r : Pool}
      → k ≡ m + n
      → Deleted a m d p e q
      → Deleted a n e q f r
      → Deleted a k d p f r
  Deleted-trans m n k {d} h x y = record {
    valid = y.valid;
    pool = y.pool;
    used = omega (arith, x.used, y.used);
    count = omega (arith, x.count, y.count);
    content = y.content ∙ ap (drop n) x.content ∙ drop-drop k m n (content d) h;
  }

  pub Deleted-none : (dyn : Dbuf) (p : Pool) → IsValid dyn → IsPool a p → Deleted a 0 dyn p dyn p
  Deleted-none dyn p ok v = record {
    valid = ok;
    pool = v;
    used = refl;
    count = omega arith;
    content = refl;
  }

  loop-Deleted :
      (fuel chunk n : ℕ) (dyn : Dbuf) (p : Pool)
      → n < fuel
      → n ≤ dyn.length
      → (0 < n → chunk ≡ dbufsiz - dyn.offset)
      → IsValid dyn
      → IsPool a p
      → length dyn.head ≤ p.dbufalloc
      → (dyn' : Dbuf) × (p' : Pool) × (delete_loop fuel chunk n dyn p ≡ some (dyn', p'))
        × Deleted a n dyn p dyn' p'
  unfolding delete_loop
  loop-Deleted fuel chunk zero dyn p h le hc ok v used = (dyn, p, refl, Deleted-none dyn p ok v)
  loop-Deleted zero chunk (suc n) dyn p h le hc ok v used = absurd (omega arith)
  loop-Deleted (suc fuel) chunk (suc n) dyn p h le hc ok v used =
      let c = min chunk (suc n) in
      let size = hc (omega arith) in
      let (dyn', p', e, d, z) =
        round-Deleted c dyn p ok v used (omega (arith, ok.offset)) (omega (arith, ok.offset))
          (omega arith) in
      let (dyn'', p'', e', d') =
        loop-Deleted fuel dbufsiz (suc n - c) dyn' p' (omega (arith, ok.offset))
          (omega (arith, d.count)) (λ more. omega (arith, z (omega (arith, ok.offset)))) d.valid
          d.pool (omega (arith, d.used)) in
      (
        dyn'',
        p'',
        rw (e, delete_loop) e',
        Deleted-trans c (suc n - c) (suc n) {f = dyn''} {r = p''} (omega arith) d d',
      )

  -- The last statement changes nothing: a buffer with no block has no bytes.
  settle-IsValid : (dyn : Dbuf) (p : Pool) → IsValid dyn → settle (dyn, p) ≡ (dyn, p)
  settle-IsValid dyn p ok = elim (List-cases dyn.head) [
    | inl e ↦ let z : dyn.length ≡ 0 = omega (arith, ok.enough, ap length e) in ground arith
    | inr (b, bs, e) ↦ ground arith
  ]

  -- `dbuf_delete` takes the first `n` bytes off, or all of them where there are fewer. It never reads
  -- a missing block, and gives back every block that it empties.
  pub dbuf_delete-Deleted :
      (n : ℕ) (dyn : Dbuf) (p : Pool)
      → IsValid dyn
      → IsPool a p
      → length dyn.head ≤ p.dbufalloc
      → (dyn' : Dbuf) × (p' : Pool) × (dbuf_delete dyn n p ≡ some (dyn', p'))
        × Deleted a n dyn p dyn' p'
  unfolding dbuf_delete
  dbuf_delete-Deleted n dyn p ok v used =
      let n' = min n dyn.length in
      let (dyn', p', e, d) =
        loop-Deleted (suc n') (dbufsiz - dyn.offset) n' dyn p (omega arith) (omega arith)
          (λ _. refl) ok v used in
      (
        dyn',
        p',
        rw (e, dbuf_delete) (ap some (settle-IsValid dyn' p' d.valid)),
        record {
          valid = d.valid;
          pool = d.pool;
          used = d.used;
          count = omega (arith, d.count);
          content = d.content ∙ drop-min n dyn.length (content dyn) (content-le dyn);
        },
      )

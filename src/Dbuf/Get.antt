-- ===== src/Dbuf/Get.antt =====
-- `dbuf_get` moves bytes out of the front.
use mathlib.Core.List.{flatten}
use mathlib.Core.Path.{ap₂}
use snservices.Base.{
  ℕ, zero, suc, ◌+◌, ◌-◌, ◌≤◌, ◌<◌, ◌≡◌, refl, sym, ap, ◌∙◌, inl, inr, some, none, Option, List, [],
  ◌∷◌, ◌++◌, min, arith, Bytes, length, take, drop, All, length-take, length-drop, take-append_le,
  drop-append_le, take-take, take_length, take-add, drop-nil, List-cases, subst,
}
use snservices.Dbuf.{Arena, Pool, Dbuf, dbufsiz, dbuf_map, dbuf_delete, get_loop, dbuf_get}
use snservices.Dbuf.Alloc.{IsBlock, IsPool}
use snservices.Dbuf.Content.{content, IsValid}
use snservices.Dbuf.Delete.{Deleted, Deleted-trans, Deleted-none, dbuf_delete-Deleted}

-- The first `m` bytes of the section in front are the first `m` bytes of the buffer.
take-section :
    (m o l : ℕ) (b f : Bytes)
    → length b ≡ dbufsiz
    → o < dbufsiz
    → m ≤ min (dbufsiz - o) l
    → take m (take (min (dbufsiz - o) l) (drop o b)) ≡ take m (take l (drop o (b ++ f)))
take-section m o l b f ob lt le =
    take-take m (min (dbufsiz - o) l) (drop o b) le
    ∙ sym (take-append_le m (drop o b) f (omega (arith, length-drop o b)))
    ∙ ap (take m) (sym (drop-append_le o b f (omega arith)))
    ∙ sym (take-take m l (drop o (b ++ f)) (omega arith))

-- The section is empty only if the buffer is.
section : Dbuf → Bytes → Bytes
section dyn b = take (min (dbufsiz - dyn.offset) dyn.length) (drop dyn.offset b)

module _ (dyn : Dbuf) (b : Bytes) (bs : List Bytes) (e : dyn.head ≡ b ∷ bs) (ok : IsValid dyn) where
  dbuf_map-section : dbuf_map dyn ≡ some (section dyn b)
  unfolding dbuf_map section
  dbuf_map-section = rw (e, dbuf_map)

  first-IsBlock : IsBlock b
  first-IsBlock = (subst (All IsBlock) e ok.blocks).0

  length-section : length (section dyn b) ≡ min (dbufsiz - dyn.offset) dyn.length
  unfolding section
  length-section = omega (
    arith,
    length-take (min (dbufsiz - dyn.offset) dyn.length) (drop dyn.offset b),
    length-drop dyn.offset b,
    first-IsBlock,
  )

  length_pos : 0 < dyn.length
  length_pos = ground (arith, ok.minimal, ap length e)

  take-section-content :
      (m : ℕ) → m ≤ length (section dyn b) → take m (section dyn b) ≡ take m (content dyn)
  unfolding section flatten
  take-section-content m le =
      take-section m dyn.offset dyn.length b (flatten bs) first-IsBlock ok.offset
        (omega (arith, length-section))
      ∙ ap (λ x. take m (take dyn.length (drop dyn.offset (flatten x)))) (sym e)

-- The bytes moved are the first `n`, and they are gone from the buffer.
pub record Got (a : Arena) (n : ℕ) (dyn : Dbuf) (p : Pool) (r : Option (Bytes × Dbuf × Pool))
    : Type 0 where
  pub dyn' : Dbuf
  pub pool' : Pool
  pub call : r ≡ some (take n (content dyn), dyn', pool')
  pub deleted : Deleted a n dyn p dyn' pool'

get_step :
    (fuel n : ℕ) (dyn : Dbuf) (p : Pool) (s : Bytes) (d : Dbuf) (q : Pool) (rest : Bytes) (f : Dbuf)
    (r : Pool)
    → dbuf_map dyn ≡ some s
    → dbuf_delete dyn (length (take (suc n) s)) p ≡ some (d, q)
    → get_loop fuel d (suc n - length (take (suc n) s)) q ≡ some (rest, f, r)
    → get_loop (suc fuel) dyn (suc n) p ≡ some (take (suc n) s ++ rest, f, r)
unfolding get_loop
get_step fuel n dyn p s d q rest f r em ed el = rw (em, get_loop) (rw ed (rw el refl))

dbuf_map-none : (dyn : Dbuf) → dyn.head ≡ [] → dbuf_map dyn ≡ none
unfolding dbuf_map
dbuf_map-none dyn e = rw (e, dbuf_map)

get_stop :
    (fuel n : ℕ) (dyn : Dbuf) (p : Pool)
    → dyn.head ≡ []
    → get_loop (suc fuel) dyn (suc n) p ≡ some ([], dyn, p)
unfolding get_loop
get_stop fuel n dyn p e = rw (dbuf_map-none dyn e, get_loop)

-- Nothing is left to move.
get_empty :
    (a : Arena) (n : ℕ) (dyn : Dbuf) (p : Pool)
    → dyn.head ≡ []
    → IsValid dyn
    → IsPool a p
    → (content dyn ≡ []) × Deleted a n dyn p dyn p
get_empty a n dyn p e ok v = (
  none_left,
  record {
    valid = ok;
    pool = v;
    used = refl;
    count = omega (arith, none);
    content = rw (none_left) (sym (drop-nil n));
  },
)
  where
    none : dyn.length ≡ 0
    none = omega (arith, ok.enough, ap length e)

    none_left : content dyn ≡ []
    none_left = ap (λ l. take l (drop dyn.offset (flatten dyn.head))) none

moved_pos :
    (n : ℕ) (dyn : Dbuf) (b : Bytes) (bs : List Bytes)
    → dyn.head ≡ b ∷ bs
    → IsValid dyn
    → 0 < length (take (suc n) (section dyn b))
moved_pos n dyn b bs e ok = omega (
  arith,
  length-take (suc n) (section dyn b),
  length-section dyn b bs e ok,
  length_pos dyn b bs e ok,
  ok.offset,
)

-- A round that moves the section in front, or its beginning, and the rounds after it.
get-more :
    (a : Arena) (fuel n : ℕ) (dyn : Dbuf) (p : Pool) (b : Bytes) (bs : List Bytes)
    → dyn.head ≡ b ∷ bs
    → IsValid dyn
    → IsPool a p
    → length dyn.head ≤ p.dbufalloc
    → (let m = length (take (suc n) (section dyn b)) in
        (d : Dbuf) (q : Pool)
        → IsValid d
        → IsPool a q
        → length d.head ≤ q.dbufalloc
        → Got a (suc n - m) d q (get_loop fuel d (suc n - m) q))
    → Got a (suc n) dyn p (get_loop (suc fuel) dyn (suc n) p)
get-more a fuel n dyn p b bs e ok v used next =
    let s = section dyn b in
    let m = length (take (suc n) s) in
    let lm = length-take (suc n) s in
    let (d, q, ed, del) = dbuf_delete-Deleted a m dyn p ok v used in
    let g = next d q del.valid del.pool (omega (arith, del.used)) in
    let k : suc n ≡ m + (suc n - m) = omega (arith, lm) in
    record {
      dyn' = g.dyn';
      pool' = g.pool';
      call =
          get_step fuel n dyn p s d q _ g.dyn' g.pool' (dbuf_map-section dyn b bs e ok) ed g.call
          ∙ ap (λ c. some (c, g.dyn', g.pool'))
              (ap₂ ◌++◌
                  (take_length (suc n) s ∙ take-section-content dyn b bs e ok m (omega (arith, lm)))
                  (ap (take (suc n - m)) del.content)
                ∙ sym (take-add (suc n) m (suc n - m) (content dyn) k));
      deleted = Deleted-trans a m (suc n - m) (suc n) k del g.deleted;
    }

module _ (a : Arena) where
  loop-Got :
      (fuel n : ℕ) (dyn : Dbuf) (p : Pool)
      → n ≤ fuel
      → IsValid dyn
      → IsPool a p
      → length dyn.head ≤ p.dbufalloc
      → Got a n dyn p (get_loop fuel dyn n p)
  unfolding get_loop
  loop-Got fuel zero dyn p le ok v used = record {
    dyn' = dyn;
    pool' = p;
    call = refl;
    deleted = Deleted-none a dyn p ok v;
  }
  loop-Got zero (suc n) dyn p le ok v used = absurd (omega arith)
  loop-Got (suc fuel) (suc n) dyn p le ok v used = elim (List-cases dyn.head) [
    | inl e ↦
        let (bare, d) = get_empty a (suc n) dyn p e ok v in
        record {
          dyn' = dyn;
          pool' = p;
          call =
              get_stop fuel n dyn p e ∙ ap (λ c. some (c, dyn, p)) (sym (ap (take (suc n)) bare));
          deleted = d;
        }
    | inr (b, bs, e) ↦ get-more a fuel n dyn p b bs e ok v used λ d q ok' v' used'.
        loop-Got fuel (suc n - length (take (suc n) (section dyn b))) d q
          (omega (arith, moved_pos n dyn b bs e ok)) ok' v' used'
  ]

  -- `dbuf_get` moves the first `n` bytes to the caller, or all of them where there are fewer, in order.
  pub dbuf_get-Got :
      (n : ℕ) (dyn : Dbuf) (p : Pool)
      → IsValid dyn
      → IsPool a p
      → length dyn.head ≤ p.dbufalloc
      → Got a n dyn p (dbuf_get dyn n p)
  unfolding dbuf_get
  dbuf_get-Got n dyn p ok v used = loop-Got n n dyn p (omega arith) ok v used

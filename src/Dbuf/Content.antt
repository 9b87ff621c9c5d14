-- ===== src/Dbuf/Content.antt =====
-- What a buffer holds, and the chain of blocks after a write.
use mathlib.Core.List.{flatten}
use snservices.Base.{
  ℕ, ◌+◌, ◌-◌, ◌*◌, ◌≤◌, ◌<◌, ◌≡◌, refl, sym, ap, ◌∙◌, List, [], ◌∷◌, ◌++◌, min, arith, Bytes,
  length, take, drop, All, length-append, length-take, length-drop, drop_all, take-append_le,
  take-append_add, take-append-drop, append_assoc, append-nil,
}
use snservices.Dbuf.{Dbuf, dbufsiz, write}
use snservices.Dbuf.Alloc.{IsBlock}

-- The bytes that a buffer holds, in order.
abbrev pub content : Dbuf → Bytes
content dyn = take dyn.length (drop dyn.offset (flatten dyn.head))

-- Full blocks, as many as the bytes need; no block and no offset in an empty buffer.
pub record IsValid (dyn : Dbuf) : Type 0 where
  pub blocks : All IsBlock dyn.head
  pub offset : dyn.offset < dbufsiz
  pub enough : dyn.offset + dyn.length ≤ dbufsiz * length dyn.head
  pub minimal : dbufsiz * length dyn.head < dyn.offset + dyn.length + dbufsiz
  pub empty : dyn.length ≡ 0 → dyn.offset ≡ 0

pub flatten-append : (xs ys : List Bytes) → flatten (xs ++ ys) ≡ flatten xs ++ flatten ys
unfolding flatten
flatten-append [] ys = refl
flatten-append (x ∷ xs) ys =
    ap (◌++◌ x) (flatten-append xs ys) ∙ sym (append_assoc x (flatten xs) (flatten ys))

pub length-flatten : (bs : List Bytes) → All IsBlock bs → length (flatten bs) ≡ dbufsiz * length bs
unfolding flatten
length-flatten [] h = omega arith
length-flatten (b ∷ bs) h = omega (arith, length-append b (flatten bs), length-flatten bs h.1)

length-write :
    (b : Bytes) (off : ℕ) (s : Bytes)
    → off + length s ≤ length b
    → length (write b off s) ≡ length b
length-write b off s h = omega (
  arith,
  length-append (take off b) (s ++ drop (off + length s) b),
  length-append s (drop (off + length s) b),
  length-take off b,
  length-drop (off + length s) b,
)

-- The size of the piece that one round copies.
abbrev pub piece : ℕ → Bytes → ℕ
piece off buf = min (dbufsiz - off) (length buf)

pub write-IsBlock :
    (b : Bytes) (off : ℕ) (buf : Bytes)
    → IsBlock b
    → off < dbufsiz
    → IsBlock (write b off (take (piece off buf) buf))
write-IsBlock b off buf ob lt =
    length-write b off _ (omega (arith, length-take (piece off buf) buf)) ∙ ob

-- A write, and what follows it: the old bytes, the new ones, and the rest of the new ones, if they
-- come next.
take-write :
    (n off : ℕ) (b s t : Bytes) (rest : Bytes)
    → off + length s ≤ length b
    → n ≡ off + (length s + length rest)
    → take (length rest) (drop (off + length s) b ++ t) ≡ rest
    → take n (write b off s ++ t) ≡ take off b ++ (s ++ rest)
take-write n off b s t rest fits e h =
    rw (append_assoc, append_assoc)
      (take-append_add n (length s + length rest) (take off b) (s ++ (drop (off + length s) b ++ t))
          (omega (arith, length-take off b))
        ∙ ap (◌++◌ (take off b)) (
            take-append_add (length s + length rest) (length rest) s (drop (off + length s) b ++ t)
              refl
            ∙ ap (◌++◌ s) h))

-- What `fill` makes of the chain `bs`, the first block of which is full up to `off`.
pub record Written (off : ℕ) (bs : List Bytes) (buf : Bytes) (out : List Bytes) : Type 0 where
  pub blocks : All IsBlock out
  pub joined : take (off + length buf) (flatten out) ≡ take off (flatten bs) ++ buf
  pub enough : off + length buf ≤ dbufsiz * length out
  pub minimal : dbufsiz * length out < off + length buf + dbufsiz

pub Written-none :
    (off : ℕ) (bs : List Bytes)
    → All IsBlock bs
    → off ≤ dbufsiz * length bs
    → dbufsiz * length bs < off + dbufsiz
    → Written off bs [] bs
Written-none off bs h le lt = record {
  blocks = h;
  joined = let e : off + 0 ≡ off = omega arith in rw e (sym (append-nil (take off (flatten bs))));
  enough = omega arith;
  minimal = omega arith;
}

take-after-write :
    (b rest t : Bytes) (k : ℕ)
    → (0 < length rest → length b ≤ k)
    → take (0 + length rest) t ≡ rest
    → take (length rest) (drop k b ++ t) ≡ rest
take-after-write b [] t k h e = refl
take-after-write b (x ∷ xs) t k h e =
    let z : 0 + length (x ∷ xs) ≡ length (x ∷ xs) = omega arith in
    rw (drop_all k b (h (omega arith))) (rw z at e)

pub Written-link :
    (b : Bytes) (off : ℕ) (bs : List Bytes) (buf : Bytes) (out : List Bytes)
    → IsBlock b
    → off < dbufsiz
    → 0 < length buf
    → Written 0 bs (drop (piece off buf) buf) out
    → Written off (b ∷ bs) buf (write b off (take (piece off buf) buf) ∷ out)
unfolding flatten
Written-link b off bs buf out ob lt nonempty w = record {
  blocks = (write-IsBlock b off buf ob lt, w.blocks);
  joined =
      take-write _ off b s (flatten out) rest fits (omega (arith, parts, ls, lr)) later
      ∙ sym (rw (take-append_le off b (flatten bs) (omega arith), take-append-drop chunk buf));
  enough = omega (arith, w.enough, lr);
  minimal = omega (arith, w.minimal, lr);
}
  where
    chunk : ℕ
    chunk = piece off buf

    s : Bytes
    s = take chunk buf

    rest : Bytes
    rest = drop chunk buf

    ls : length s ≡ chunk
    ls = omega (arith, length-take chunk buf)

    lr : length rest ≡ length buf - chunk
    lr = length-drop chunk buf

    fits : off + length s ≤ length b
    fits = omega (arith, ls)

    parts : length buf ≡ length s + length rest
    parts = omega (arith, ls, lr)

    later : take (length rest) (drop (off + length s) b ++ flatten out) ≡ rest
    later = take-after-write b rest (flatten out) _ (λ h. omega (arith, ls, lr)) w.joined

-- A block that is new holds none of the old bytes.
pub Written-first :
    (off : ℕ) (buf : Bytes) (b : Bytes) (out : List Bytes)
    → off ≡ 0
    → Written off (b ∷ []) buf out
    → Written off [] buf out
unfolding flatten
Written-first off buf b out z w = record {
  blocks = w.blocks;
  joined = w.joined ∙ ap (λ n. take n (b ++ []) ++ buf) z ∙ sym (ap (λ n. take n [] ++ buf) z);
  enough = w.enough;
  minimal = w.minimal;
}

-- ===== src/Dbuf/Getmsg/Answers.antt =====
-- What a call of `dbuf_getmsg` returns and leaves.
use snservices.Base.{
  ℕ, zero, suc, ◌+◌, ◌-◌, ◌≤◌, ◌<◌, ◌≡◌, refl, sym, ap, ◌∙◌, inl, inr, some, Option, [], ◌∷◌, ◌++◌,
  min, arith, Bytes, length, take, drop, All, length-append, length-take, drop-append_add,
  take-append_le, zero_or_pos, append_assoc,
}
use snservices.Base.Int.{pos}
use snservices.Dbuf.{Arena, Pool, Dbuf, dbuf_get}
use snservices.Dbuf.Getmsg.{Msg, eol, take_line, delete_rest, getmsg_loop}
use snservices.Dbuf.Getmsg.Walk.{find_eol}
use snservices.Dbuf.Getmsg.Line.{
  IsEol, IsText, find_eol-line, length-content, round_blank, round_line,
}
use snservices.Dbuf.Alloc.{IsPool}
use snservices.Dbuf.Content.{content, IsValid}
use snservices.Dbuf.Delete.{Deleted, Deleted-none, Deleted-trans, dbuf_delete-Deleted}
use snservices.Dbuf.Get.{dbuf_get-Got}

-- The call returned `n` and wrote `buf`; it took some bytes off the front and left `left`.
pub record Answer (a : Arena) (dyn : Dbuf) (p : Pool) (r : Option Msg) (n : ℕ) (buf left : Bytes)
    : Type 0 where
  pub dyn' : Dbuf
  pub pool' : Pool
  pub gone : ℕ
  pub call : r ≡ some (record { result = pos n; buf = buf; dyn = dyn'; pool = pool' })
  pub deleted : Deleted a gone dyn p dyn' pool'
  pub rest : content dyn' ≡ left

-- How many bytes a call returns of a line, which one more byte ends, under the limit `len`.
abbrev pub returned : ℕ → Bytes → ℕ
returned len line = min (suc (length line)) (len - length line)

module _ (a : Arena) where
  delete_rest-Deleted :
      (n : ℕ) (dyn : Dbuf) (p : Pool)
      → IsValid dyn
      → IsPool a p
      → length dyn.head ≤ p.dbufalloc
      → (dyn' : Dbuf) × (p' : Pool) × (delete_rest n dyn p ≡ some (dyn', p'))
        × Deleted a n dyn p dyn' p'
  unfolding delete_rest
  delete_rest-Deleted n dyn p ok v used = elim (zero_or_pos n) [
    | inl e ↦ (dyn, p, rw e refl, rw e (Deleted-none a dyn p ok v))
    | inr more ↦
        let (d, q, e, del) = dbuf_delete-Deleted a n dyn p ok v used in (d, q, ground arith, del)
  ]

  take_line_step :
      (copy k : ℕ) (dyn : Dbuf) (p : Pool) (moved : Bytes) (d f : Dbuf) (q r : Pool)
      → dbuf_get dyn (min copy k) p ≡ some (moved, d, q)
      → delete_rest (copy - length moved) d q ≡ some (f, r)
      → take_line copy k dyn p
        ≡ some (record { result = pos (length moved); buf = moved ++ 0 ∷ []; dyn = f; pool = r })
  unfolding take_line
  take_line_step copy k dyn p moved d f q r e e' = rw (e, take_line) (rw e' refl)

  take_line-Answer :
      (copy k : ℕ) (dyn : Dbuf) (p : Pool)
      → IsValid dyn
      → IsPool a p
      → length dyn.head ≤ p.dbufalloc
      → copy ≤ dyn.length
      → Answer a dyn p
          (take_line copy k dyn p)
          (min copy k)
          (take (min copy k) (content dyn) ++ 0 ∷ [])
          (drop copy (content dyn))
  take_line-Answer copy k dyn p ok v used le =
      let n = min copy k in
      let g = dbuf_get-Got a n dyn p ok v used in
      let size : length (take n (content dyn)) ≡ n =
        omega (arith, length-take n (content dyn), length-content dyn ok) in
      let (d, q, e, del) =
        delete_rest-Deleted (copy - length (take n (content dyn))) g.dyn' g.pool' g.deleted.valid
          g.deleted.pool (omega (arith, g.deleted.used)) in
      let whole =
        Deleted-trans a n (copy - length (take n (content dyn))) copy (omega (arith, size))
          g.deleted del in
      record {
        dyn' = d;
        pool' = q;
        gone = copy;
        call =
            take_line_step copy k dyn p (take n (content dyn)) g.dyn' d g.pool' q g.call e
            ∙ ap
                (λ m. some (record {
                  result = pos m;
                  buf = take n (content dyn) ++ 0 ∷ [];
                  dyn = d;
                  pool = q;
                }))
                size;
        deleted = whole;
        rest = whole.content;
      }

  -- An empty line in front is dropped, and what the rest answers is the answer.
  pub blank-Answer :
      (fuel len : ℕ) (dyn : Dbuf) (p : Pool) (x : ℕ) (xs : Bytes) (n : ℕ) (buf left : Bytes)
      → IsValid dyn
      → IsPool a p
      → length dyn.head ≤ p.dbufalloc
      → 0 < len
      → IsEol x
      → content dyn ≡ x ∷ xs
      → ((d : Dbuf) (q : Pool)
          → IsValid d
          → IsPool a q
          → length d.head ≤ q.dbufalloc
          → content d ≡ xs
          → Answer a d q (getmsg_loop fuel d len q) n buf left)
      → Answer a dyn p (getmsg_loop (suc fuel) dyn len p) n buf left
  unfolding find_eol
  blank-Answer fuel zero dyn p x xs n buf left ok v used more hx e later = absurd (omega arith)
  blank-Answer fuel (suc len) dyn p x xs n buf left ok v used more hx e later =
      let (d, q, ed, del) = dbuf_delete-Deleted a 1 dyn p ok v used in
      let g =
        later d q del.valid del.pool (omega (arith, del.used)) (del.content ∙ ap (drop 1) e) in
      let found : find_eol (content dyn) (suc len) ≡ eol (length xs) (suc len) =
        rw e (rw hx refl) in
      record {
        dyn' = g.dyn';
        pool' = g.pool';
        gone = 1 + g.gone;
        call =
            round_blank fuel (suc len) dyn p ok (length xs) (suc len) d q found
              (omega (arith, length-content dyn ok, ap length e)) ed
            ∙ g.call;
        deleted = Deleted-trans a 1 g.gone (1 + g.gone) refl del g.deleted;
        rest = g.rest;
      }

  pub line-Answer :
      (fuel len : ℕ) (dyn : Dbuf) (p : Pool) (line rest : Bytes) (x : ℕ)
      → IsValid dyn
      → IsPool a p
      → length dyn.head ≤ p.dbufalloc
      → All IsText line
      → IsEol x
      → 0 < length line
      → length line < len
      → content dyn ≡ line ++ x ∷ rest
      → Answer a dyn p
          (getmsg_loop (suc fuel) dyn len p)
          (returned len line)
          (take (returned len line) (line ++ x ∷ []) ++ 0 ∷ [])
          rest
  line-Answer fuel len dyn p line rest x ok v used ht hx some_text lt e =
      let size : dyn.length ≡ length line + suc (length rest) =
        omega (arith, length-content dyn ok, ap length e, length-append line (x ∷ rest)) in
      let found : find_eol (content dyn) len ≡ eol (length rest) (len - length line) =
        rw e (find_eol-line line rest x len ht hx lt) in
      let copy : dyn.length - length rest ≡ suc (length line) = omega (arith, size) in
      let split : line ++ x ∷ rest ≡ (line ++ x ∷ []) ++ rest =
        sym (append_assoc line (x ∷ []) rest) in
      let g =
        take_line-Answer (suc (length line)) (len - length line) dyn p ok v used
          (omega (arith, size)) in
      record {
        dyn' = g.dyn';
        pool' = g.pool';
        gone = g.gone;
        call =
            round_line fuel len dyn p ok (length rest) (len - length line) found
              (omega (arith, size))
            ∙ ap (λ c. take_line c (len - length line) dyn p) copy
            ∙ g.call
            ∙ ap
                (λ b. some (record {
                  result = pos (returned len line);
                  buf = b ++ 0 ∷ [];
                  dyn = g.dyn';
                  pool = g.pool';
                }))
                (ap (take (returned len line)) (e ∙ split)
                  ∙ take-append_le (returned len line) (line ++ x ∷ []) rest
                      (omega (arith, length-append line (x ∷ []))));
        deleted = g.deleted;
        rest =
            g.rest
            ∙ ap (drop (suc (length line))) (e ∙ split)
            ∙ drop-append_add (suc (length line)) 0 (line ++ x ∷ []) rest
                (omega (arith, length-append line (x ∷ [])));
      }

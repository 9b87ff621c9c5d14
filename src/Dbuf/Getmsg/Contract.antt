-- ===== src/Dbuf/Getmsg/Contract.antt =====
-- The contract of `dbuf_getmsg`.
use snservices.Base.{
  ℕ, zero, suc, ◌≤◌, ◌<◌, ◌≡◌, ap, ◌∙◌, ◌⊎◌, [], ◌∷◌, ◌++◌, arith, Bytes, length, take, All,
  length-append,
}
use snservices.Dbuf.{Arena, Pool, Dbuf}
use snservices.Dbuf.Getmsg.{getmsg_loop, dbuf_getmsg}
use snservices.Dbuf.Getmsg.Walk.{find_eol}
use snservices.Dbuf.Getmsg.Line.{IsEol, IsText, find_eol-none, length-content, round_none}
use snservices.Dbuf.Getmsg.Answers.{Answer, returned, blank-Answer, line-Answer}
use snservices.Dbuf.Alloc.{IsPool}
use snservices.Dbuf.Content.{content, IsValid}
use snservices.Dbuf.Delete.{Deleted-none}

-- A property of a call that does not change when empty lines stand in front of the text.
module _ (a : Arena) (len n : ℕ) (text buf left : Bytes) (some_room : 0 < len)
    (now : (fuel : ℕ) (d : Dbuf) (q : Pool)
      → IsValid d
      → IsPool a q
      → length d.head ≤ q.dbufalloc
      → content d ≡ text
      → Answer a d q (getmsg_loop (suc fuel) d len q) n buf left) where
  after_blank :
      (fuel : ℕ) (blank : Bytes) (dyn : Dbuf) (p : Pool)
      → length blank < fuel
      → All IsEol blank
      → IsValid dyn
      → IsPool a p
      → length dyn.head ≤ p.dbufalloc
      → content dyn ≡ blank ++ text
      → Answer a dyn p (getmsg_loop fuel dyn len p) n buf left
  after_blank zero blank dyn p lt hb ok v used e = absurd (omega arith)
  after_blank (suc fuel) [] dyn p lt hb ok v used e = now fuel dyn p ok v used e
  after_blank (suc fuel) (x ∷ xs) dyn p lt hb ok v used e =
      blank-Answer a fuel len dyn p x (xs ++ text) n buf left ok v used some_room hb.0 e
        λ d q ok' v' used' e'. after_blank fuel xs d q (omega arith) hb.1 ok' v' used' e'

  getmsg_after_blank :
      (blank : Bytes) (dyn : Dbuf) (p : Pool)
      → All IsEol blank
      → IsValid dyn
      → IsPool a p
      → length dyn.head ≤ p.dbufalloc
      → content dyn ≡ blank ++ text
      → Answer a dyn p (dbuf_getmsg dyn len p) n buf left
  unfolding dbuf_getmsg
  getmsg_after_blank blank dyn p hb ok v used e =
      after_blank (suc dyn.length) blank dyn p
        (omega (arith, length-content dyn ok, ap length e, length-append blank text)) hb ok v used e

-- A buffer that begins with empty lines and a line of fewer than `len` bytes, which is not empty and
-- which CR or LF ends. The call drops the empty lines and the line with its end. It returns the line
-- with its end, cut to `len` less the length of the line, and writes it with a NUL behind it. The rest
-- stays in the buffer, which is well formed after, and the blocks that became empty are free.
pub dbuf_getmsg_line :
    (a : Arena) (len : ℕ) (dyn : Dbuf) (p : Pool) (blank line rest : Bytes) (x : ℕ)
    → IsValid dyn
    → IsPool a p
    → length dyn.head ≤ p.dbufalloc
    → All IsEol blank
    → All IsText line
    → IsEol x
    → 0 < length line
    → length line < len
    → content dyn ≡ blank ++ (line ++ x ∷ rest)
    → Answer a dyn p
        (dbuf_getmsg dyn len p)
        (returned len line)
        (take (returned len line) (line ++ x ∷ []) ++ 0 ∷ [])
        rest
dbuf_getmsg_line a len dyn p blank line rest x ok v used hb ht hx some_text lt e =
    getmsg_after_blank a len (returned len line) (line ++ x ∷ rest)
      (take (returned len line) (line ++ x ∷ []) ++ 0 ∷ []) rest (omega arith)
      (λ fuel d q ok' v' used' e'.
        line-Answer a fuel len d q line rest x ok' v' used' ht hx some_text lt e')
      blank dyn p hb ok v used e

-- Without the end of a line among the first `len` bytes behind the empty lines, where `len` is not 0,
-- the call returns 0, writes nothing, and has dropped the empty lines alone.
pub dbuf_getmsg_wait :
    (a : Arena) (len : ℕ) (dyn : Dbuf) (p : Pool) (blank text rest : Bytes)
    → IsValid dyn
    → IsPool a p
    → length dyn.head ≤ p.dbufalloc
    → 0 < len
    → All IsEol blank
    → All IsText text
    → (rest ≡ []) ⊎ (len ≤ length text)
    → content dyn ≡ blank ++ (text ++ rest)
    → Answer a dyn p (dbuf_getmsg dyn len p) 0 [] (text ++ rest)
dbuf_getmsg_wait a len dyn p blank text rest ok v used more hb ht end e =
    getmsg_after_blank a len 0 (text ++ rest) [] (text ++ rest) more
      (λ fuel d q ok' v' used' e'. record {
        dyn' = d;
        pool' = q;
        gone = 0;
        call =
            round_none fuel len d q ok'
              (ap (λ c. find_eol c len) e' ∙ find_eol-none text rest len ht end);
        deleted = Deleted-none a d q ok' v';
        rest = e';
      })
      blank dyn p hb ok v used e

-- ===== src/Dbuf/Getmsg/Line.antt =====
-- One round of `dbuf_getmsg`, by what the search for the end of a line finds.
use mathlib.Core.List.{flatten}
use snservices.Base.{
  ℕ, zero, suc, ◌-◌, ◌≤◌, ◌<◌, ◌≡◌, refl, ap, ◌∙◌, ◌⊎◌, inl, inr, true, false, some, [], ◌∷◌, ◌++◌,
  arith, Bytes, length, drop, All, length-take, length-drop,
}
use snservices.Base.Int.{pos}
use snservices.Dbuf.{Pool, Dbuf, dbuf_delete}
use snservices.Dbuf.Getmsg.{eol, no_eol, is_eol, nothing, take_line, getmsg_loop}
use snservices.Dbuf.Getmsg.Walk.{find_eol, scan-start}
use snservices.Dbuf.Content.{content, IsValid, length-flatten}

abbrev pub IsEol : ℕ → Type 0
IsEol x = is_eol x ≡ true

abbrev pub IsText : ℕ → Type 0
IsText x = is_eol x ≡ false

pub find_eol-line :
    (line rest : Bytes) (x len : ℕ)
    → All IsText line
    → IsEol x
    → length line < len
    → find_eol (line ++ x ∷ rest) len ≡ eol (length rest) (len - length line)
unfolding find_eol
find_eol-line [] rest x zero ht hx lt = absurd (omega arith)
find_eol-line [] rest x (suc len) ht hx lt = rw hx (ap (eol (length rest)) (omega arith))
find_eol-line (y ∷ ys) rest x zero ht hx lt = absurd (omega arith)
find_eol-line (y ∷ ys) rest x (suc len) ht hx lt =
    let e : suc len - suc (length ys) ≡ len - length ys = omega arith in
    rw (ht.0, e) (find_eol-line ys rest x len ht.1 hx (omega arith))

-- No end of line within the first `len` bytes.
pub find_eol-none :
    (text rest : Bytes) (len : ℕ)
    → All IsText text
    → (rest ≡ []) ⊎ (len ≤ length text)
    → find_eol (text ++ rest) len ≡ no_eol
unfolding find_eol
find_eol-none [] rest len ht (inl e) = rw e refl
find_eol-none [] [] len ht (inr le) = refl
find_eol-none [] (y ∷ ys) zero ht (inr le) = refl
find_eol-none [] (y ∷ ys) (suc len) ht (inr le) = absurd (omega arith)
find_eol-none (x ∷ xs) rest zero ht end = refl
find_eol-none (x ∷ xs) rest (suc len) ht (inl e) =
    rw (ht.0) (find_eol-none xs rest len ht.1 (inl e))
find_eol-none (x ∷ xs) rest (suc len) ht (inr le) =
    rw (ht.0) (find_eol-none xs rest len ht.1 (inr (omega arith)))

pub length-content : (dyn : Dbuf) → IsValid dyn → length (content dyn) ≡ dyn.length
length-content dyn ok = omega (
  arith,
  length-take dyn.length (drop dyn.offset (flatten dyn.head)),
  length-drop dyn.offset (flatten dyn.head),
  length-flatten dyn.head ok.blocks,
  ok.enough,
)

-- The rounds of `getmsg_init`, by what the search finds.
module _ (fuel len : ℕ) (dyn : Dbuf) (p : Pool) (ok : IsValid dyn) where
  pub round_none :
      find_eol (content dyn) len ≡ no_eol → getmsg_loop (suc fuel) dyn len p ≡ nothing (pos 0) dyn p
  unfolding getmsg_loop
  round_none e = ground (arith, scan-start dyn len ok ∙ e, ok.offset)

  pub round_blank :
      (dlen k : ℕ) (d : Dbuf) (q : Pool)
      → find_eol (content dyn) len ≡ eol dlen k
      → dyn.length ≡ suc dlen
      → dbuf_delete dyn 1 p ≡ some (d, q)
      → getmsg_loop (suc fuel) dyn len p ≡ getmsg_loop fuel d len q
  unfolding getmsg_loop
  round_blank dlen k d q e size del =
      ground (arith, scan-start dyn len ok ∙ e, ok.offset, ok.enough, del)

  pub round_line :
      (dlen k : ℕ)
      → find_eol (content dyn) len ≡ eol dlen k
      → suc dlen < dyn.length
      → getmsg_loop (suc fuel) dyn len p ≡ take_line (dyn.length - dlen) k dyn p
  unfolding getmsg_loop
  round_line dlen k e more = ground (arith, scan-start dyn len ok ∙ e, ok.offset, ok.enough)

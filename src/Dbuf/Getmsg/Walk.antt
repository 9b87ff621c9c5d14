-- ===== src/Dbuf/Getmsg/Walk.antt =====
-- The `while` loop of `dbuf_getmsg` walks over the bytes of the buffer, from block to block.
use mathlib.Core.List.{flatten}
use snservices.Base.{
  ℕ, zero, suc, ◌+◌, ◌-◌, ◌*◌, ◌≤◌, ◌<◌, ◌≡◌, refl, sym, ap, ◌∙◌, inl, inr, true, false, some, List,
  [], ◌∷◌, ◌++◌, min, arith, if◌then◌else◌, Bytes, length, take, drop, get_elem?, All, length-take,
  length-drop, drop-append_add, ◌==◌, Bool-cases, List-cases, zero_or_pos, subst,
}
use snservices.Dbuf.{Dbuf, dbufsiz}
use snservices.Dbuf.Getmsg.{Cursor, Scan, eol, no_eol, start, is_eol, peek, step, scan}
use snservices.Dbuf.Alloc.{IsBlock}
use snservices.Dbuf.Content.{content, IsValid, length-flatten}

-- The search over plain bytes.
unfoldable pub find_eol : Bytes → ℕ → Scan
find_eol [] len = no_eol
find_eol (x ∷ xs) zero = no_eol
find_eol (x ∷ xs) (suc len) =
    let later = find_eol xs len in if is_eol x then eol (length xs) (suc len) else later

-- The bytes from the cursor on.
abbrev ahead : ℕ → Cursor → Bytes
ahead dlen c = take dlen (drop c.at (flatten c.blocks))

pub record IsAt (dlen : ℕ) (c : Cursor) : Type 0 where
  blocks : All IsBlock c.blocks
  within : c.at < dbufsiz
  enough : c.at + dlen ≤ dbufsiz * length c.blocks
  run : c.i ≡ min (dbufsiz - c.at) dlen

get_elem?-drop :
    (n : ℕ) (xs ys : Bytes)
    → n < length xs
    → (x : ℕ) × (get_elem? xs n ≡ some x) × (drop n (xs ++ ys) ≡ x ∷ drop (suc n) (xs ++ ys))
get_elem?-drop n [] ys h = absurd (omega arith)
get_elem?-drop zero (x ∷ xs) ys h = (x, refl, refl)
get_elem?-drop (suc n) (x ∷ xs) ys h = get_elem?-drop n xs ys (omega arith)

module _ (dlen : ℕ) (c : Cursor) (b : Bytes) (bs : List Bytes) (e : c.blocks ≡ b ∷ bs)
    (h : IsAt (suc dlen) c) where
  next : Bytes
  next = take dlen (drop (suc c.at) (flatten (b ∷ bs)))

  all : All IsBlock (b ∷ bs)
  all = subst (All IsBlock) e h.blocks

  -- The byte under the cursor is the first one ahead.
  peek-ahead : (x : ℕ) × (peek c ≡ some x) × (ahead (suc dlen) c ≡ x ∷ next)
  unfolding peek flatten next
  peek-ahead =
      let (x, g, d) = get_elem?-drop c.at b (flatten bs) (omega (arith, all.0, h.within)) in
      (
        x,
        rw (e, peek) g,
        ap (λ y. take (suc dlen) (drop c.at (flatten y))) e ∙ ap (take (suc dlen)) d,
      )

  -- A step that stays in the block.
  step-within :
      0 < dlen → (c.i == 1) ≡ false → IsAt dlen (step dlen c) × (ahead dlen (step dlen c) ≡ next)
  unfolding step next
  step-within more one =
      rw (one, step)
        (
          record {
            blocks = h.blocks;
            within = ground (arith, h.run, h.within);
            enough = omega (arith, h.enough);
            run = omega (arith, h.run);
          },
          rw e (let k : c.at + 1 ≡ suc c.at = omega arith in rw k refl),
        )

  step-across :
      (b' : Bytes) (bs' : List Bytes)
      → bs ≡ b' ∷ bs'
      → 0 < dlen
      → (c.i == 1) ≡ true
      → IsAt dlen (step dlen c) × (ahead dlen (step dlen c) ≡ next)
  unfolding step next flatten
  step-across b' bs' e' more one =
      let last : suc c.at ≡ dbufsiz = ground (arith, h.run, h.within) in
      rw (one, step)
        (rw (e, step)
          (rw (e', step)
            (
              record {
                blocks = (subst (All IsBlock) e' all.1);
                within = omega arith;
                enough = omega (arith, h.enough, ap length e, ap length e');
                run = omega arith;
              },
              ap (take dlen) (
                  sym (drop-append_add (suc c.at) 0 b (flatten (b' ∷ bs')) (omega (arith, all.0)))),
            )))

  step-ahead : 0 < dlen → IsAt dlen (step dlen c) × (ahead dlen (step dlen c) ≡ next)
  step-ahead more = elim (Bool-cases (c.i == 1)) [
    | inr one ↦ step-within more one
    | inl one ↦ elim (List-cases bs) [
      | inl e' ↦ absurd (ground (arith, h.run, h.within, h.enough, ap length e, ap length e'))
      | inr (b', bs', e') ↦ step-across b' bs' e' more one
    ]
  ]

length-ahead : (dlen : ℕ) (c : Cursor) → IsAt dlen c → length (ahead dlen c) ≡ dlen
length-ahead dlen c h = omega (
  arith,
  length-take dlen (drop c.at (flatten c.blocks)),
  length-drop c.at (flatten c.blocks),
  length-flatten c.blocks h.blocks,
  h.enough,
)

module _ (dlen : ℕ) (c : Cursor) (b : Bytes) (bs : List Bytes) (e : c.blocks ≡ b ∷ bs)
    (h : IsAt (suc dlen) c) where
  length-next : length (next dlen c b bs e h) ≡ dlen
  length-next =
      let (x, g, d) = peek-ahead dlen c b bs e h in
      omega (arith, length-ahead (suc dlen) c h, ap length d)

  step-next : ahead dlen (step dlen c) ≡ next dlen c b bs e h
  unfolding next
  step-next = elim (zero_or_pos dlen) [
    | inl z ↦
        ap (λ k. take k (drop (step dlen c).at (flatten (step dlen c).blocks))) z
        ∙ sym (ap (λ k. take k (drop (suc c.at) (flatten (b ∷ bs)))) z)
    | inr more ↦ (step-ahead dlen c b bs e h more).1
  ]

  -- One round, given what the later rounds find.
  scan-round :
      (len : ℕ)
      → scan dlen len (step dlen c) ≡ find_eol (ahead dlen (step dlen c)) len
      → scan (suc dlen) (suc len) c ≡ find_eol (ahead (suc dlen) c) (suc len)
  unfolding scan find_eol
  scan-round len later =
      let (x, g, d) = peek-ahead dlen c b bs e h in
      elim (Bool-cases (is_eol x)) [
        | inl stop ↦ rw (g, scan) (rw stop (sym (rw d (rw (stop, length-next) refl))))
        | inr on ↦
            rw (g, scan)
              (rw on (later ∙ ap (λ y. find_eol y len) step-next ∙ sym (rw d (rw on refl))))
      ]

  scan_short : scan (suc dlen) 0 c ≡ find_eol (ahead (suc dlen) c) 0
  unfolding scan find_eol
  scan_short = let (x, g, d) = peek-ahead dlen c b bs e h in sym (rw d refl)

-- The loop over the blocks finds what a search over the plain bytes finds, and reads in no block
-- past its end.
pub scan-eq-find_eol :
    (dlen len : ℕ) (c : Cursor)
    → (0 < dlen → IsAt dlen c)
    → scan dlen len c ≡ find_eol (ahead dlen c) len
unfolding scan find_eol
scan-eq-find_eol zero len c h = refl
scan-eq-find_eol (suc dlen) len c h =
    let at = h (omega arith) in
    elim (List-cases c.blocks) [
      | inl e ↦ absurd (omega (arith, at.enough, ap length e))
      | inr (b, bs, e) ↦ rounds b bs e at len (λ l. scan-eq-find_eol dlen l (step dlen c))
    ]
  where
    rounds :
        (b : Bytes) (bs : List Bytes)
        → c.blocks ≡ b ∷ bs
        → IsAt (suc dlen) c
        → (l : ℕ)
        → ((k : ℕ)
            → (0 < dlen → IsAt dlen (step dlen c))
            → scan dlen k (step dlen c) ≡ find_eol (ahead dlen (step dlen c)) k)
        → scan (suc dlen) l c ≡ find_eol (ahead (suc dlen) c) l
    rounds b bs e at zero later = scan_short dlen c b bs e at
    rounds b bs e at (suc l) later =
        scan-round dlen c b bs e at l (later l (λ more. (step-ahead dlen c b bs e at more).0))

-- So from the start of a buffer it searches what the buffer holds.
pub scan-start :
    (dyn : Dbuf) (len : ℕ)
    → IsValid dyn
    → scan dyn.length len (start dyn) ≡ find_eol (content dyn) len
scan-start dyn len ok =
    scan-eq-find_eol dyn.length len (start dyn)
      (λ _. record { blocks = ok.blocks; within = ok.offset; enough = ok.enough; run = refl })

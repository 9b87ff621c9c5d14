-- ===== src/Packet/Lines.antt =====
-- What `dopacket` of ircd/src/packet.c does to the text that a connection sends, told without a buffer: the
-- text is cut at every CR and LF, and the pieces are parsed in turn.
use snservices.Base.{
  ℕ, ◌+◌, ◌-◌, ◌<◌, ◌≡◌, ◌≢◌, refl, sym, ap, ◌∙◌, subst, inl, inr, Bool, true, false, ◌||◌, List,
  [], ◌∷◌, ◌++◌, append_assoc, append-nil, ltb, ◌==◌, if◌then◌else◌, Bytes, length, take, take_all,
  take-append_le, arith, Bool-cases, ==_iff,
}
use snservices.Packet.{
  Conn, Turn, goes_on, over, Result, kept, flushed, Verdict, flush, dead, alive, Messages, Traffic,
  bufsize, is_end, chars, store, count_message, after_parse, hand_over, take_byte, loop, dopacket,
}
use snservices.Packet.Frame.{
  chars-store, chars-store_behind, length-chars, at_start, at_end, inside, too_long,
}

abbrev cr_or_lf : ℕ → Bool
cr_or_lf ch = ch == 10 || ch == 13

-- The text in front of the first CR or LF, and what stands behind each of them.
pub record Pieces : Type 0 where
  pub first : Bytes
  pub others : List Bytes

unfoldable pub pieces : Bytes → Pieces
pieces [] = record { first = []; others = [] }
pieces (ch ∷ r) =
    let p = pieces r in
    if cr_or_lf ch
    then record { first = []; others = p.first ∷ p.others }
    else record { first = ch ∷ p.first; others = p.others }

-- The text that waits for its end, or that the connection is gone.
pub data Seen {ℓ} (S : Type ℓ) : Type ℓ where
  waits : Bytes → Messages → S → Seen S
  gone : Messages → S → Seen S

abbrev pub view {ℓ} : {S : Type ℓ} → Result S → Seen S
view (kept c) = waits (chars c.count c.buffer) c.messages c.world
view (flushed m s) = gone m s

module _ {ℓ} {S : Type ℓ} (parse : S → Bytes → S × Verdict) (leaves : Bytes → (ℕ → ℕ) → ℕ → ℕ)
    (exit_client : S → S) (other : Bool) where
  abbrev one_more : Messages → Messages
  one_more m = record {
    me = m.me + 1;
    cptr = m.cptr + 1;
    acpt = if other then m.acpt + 1 else m.acpt;
  }

  abbrev proceed : (Messages → S → Seen S) → Messages → S × Verdict → Seen S
  proceed go m (s, flush) = gone m s
  proceed go m (s, dead) = gone m (exit_client s)
  proceed go m (s, alive) = go m s

  -- The pieces in turn, each cut to 511 bytes: one that has an end and is not empty is counted and
  -- parsed, the last one waits.
  pub run_lines : Bytes → List Bytes → Messages → S → Seen S
  run_lines text [] m s = waits text m s
  run_lines [] (next ∷ more) m s = run_lines (take 511 next) more m s
  run_lines (b ∷ text) (next ∷ more) m s =
      proceed (run_lines (take 511 next) more) (one_more m) (parse s (b ∷ text))

  abbrev Told : Bytes → ℕ → Conn S → Type ℓ
  Told bytes n c =
      view (loop parse leaves exit_client other bytes n c)
      ≡ run_lines (take 511 (chars n c.buffer ++ (pieces bytes).first)) (pieces bytes).others
          c.messages c.world

  abbrev turned : Bytes → Turn S → Result S
  turned r t = elim t [
    | goes_on n c' ↦ loop parse leaves exit_client other r n c'
    | over m s ↦ flushed m s
  ]

  nothing_yet : (buffer : ℕ → ℕ) (l : Bytes) → chars 0 buffer ++ l ≡ l
  unfolding chars
  nothing_yet buffer l = refl

  parsed-Told :
      (r : Bytes) (buffer : ℕ → ℕ) (m : Messages) (v : S × Verdict)
      → ((c : Conn S) → Told r 0 c)
      → view (turned r (after_parse parse leaves exit_client other buffer m v))
        ≡ proceed (run_lines (take 511 (pieces r).first) (pieces r).others) m v
  unfolding after_parse
  parsed-Told r buffer m (s, flush) ih = refl
  parsed-Told r buffer m (s, dead) ih = refl
  parsed-Told r buffer m (s, alive) ih = rw (← nothing_yet buffer (pieces r).first) (ih _)

  -- A piece that is not empty is parsed.
  run_line :
      (text next : Bytes) (more : List Bytes) (m : Messages) (s : S)
      → length text ≢ 0
      → run_lines text (next ∷ more) m s
        ≡ proceed (run_lines (take 511 next) more) (one_more m) (parse s text)
  unfolding run_lines
  run_line [] next more m s h = absurd (h refl)
  run_line (b ∷ text) next more m s h = refl

  hand_over-Told :
      (r : Bytes) (n : ℕ) (buffer : ℕ → ℕ) (c : Conn S)
      → n ≢ 0
      → ((c : Conn S) → Told r 0 c)
      → view (turned r (hand_over parse leaves exit_client other n buffer c))
        ≡ run_lines (chars n buffer) ((pieces r).first ∷ (pieces r).others) c.messages c.world
  unfolding hand_over count_message
  hand_over-Told r n buffer c h ih =
      parsed-Told r _ _ (parse c.world (chars n buffer)) ih
      ∙ sym (
          run_line (chars n buffer) _ _ c.messages c.world
            (λ e. h (omega (arith, e, length-chars n buffer))))

  short : (n : ℕ) (buffer : ℕ → ℕ) → n < 512 → take 511 (chars n buffer ++ []) ≡ chars n buffer
  short n buffer h =
      rw (append-nil (chars n buffer))
        (take_all 511 (chars n buffer) (omega (arith, h, length-chars n buffer)))

  pieces_at_end :
      (ch : ℕ) (r : Bytes)
      → is_end ch ≡ true
      → pieces (ch ∷ r) ≡ record { first = []; others = (pieces r).first ∷ (pieces r).others }
  unfolding pieces is_end
  pieces_at_end ch r e = rw e refl

  pieces_inside :
      (ch : ℕ) (r : Bytes)
      → is_end ch ≡ false
      → pieces (ch ∷ r) ≡ record { first = ch ∷ (pieces r).first; others = (pieces r).others }
  unfolding pieces is_end
  pieces_inside ch r e = rw e refl

  -- One turn, by what it makes of the connection and by the pieces of the text.
  by_turn :
      (ch : ℕ) (r : Bytes) (n : ℕ) (c : Conn S) (t : Turn S) (p : Pieces)
      → take_byte parse leaves exit_client other n c ch ≡ t
      → pieces (ch ∷ r) ≡ p
      → view (turned r t)
        ≡ run_lines (take 511 (chars n c.buffer ++ p.first)) p.others c.messages c.world
      → Told (ch ∷ r) n c
  unfolding loop
  by_turn ch r n c t p e f h =
      ap (λ t. view (turned r t)) e
      ∙ h
      ∙ sym (
          ap (λ p. run_lines (take 511 (chars n c.buffer ++ p.first)) p.others c.messages c.world)
            f)

  module _ (r : Bytes) (ih : (n : ℕ) (c : Conn S) → n < 512 → Told r n c) (ch : ℕ) where
    skipped : (n : ℕ) (c : Conn S) → is_end ch ≡ true → n ≡ 0 → Told (ch ∷ r) n c
    unfolding chars run_lines
    skipped n c e z =
        by_turn ch r n c _ _ (at_start parse leaves exit_client other n c ch e z)
          (pieces_at_end ch r e) (rw z (ih 0 _ (omega arith)))

    ended : (n : ℕ) (c : Conn S) → n < 512 → is_end ch ≡ true → n ≢ 0 → Told (ch ∷ r) n c
    ended n c h e z =
        by_turn ch r n c _ _ (at_end parse leaves exit_client other n c ch e z)
          (pieces_at_end ch r e)
          (rw (short n c.buffer h, ← chars-store_behind n n ch c.buffer (omega arith))
            (hand_over-Told r n (store n ch c.buffer) c z (λ c. ih 0 c (omega arith))))

    added :
        (n : ℕ) (c : Conn S) → is_end ch ≡ false → ltb n (bufsize - 1) ≡ true → Told (ch ∷ r) n c
    added n c e l =
        by_turn ch r n c _ _ (inside parse leaves exit_client other n c ch e l)
          (pieces_inside ch r e)
          (subst
            (λ t.
              view (
                loop parse leaves exit_client other r (n + 1)
                  (record c { buffer = store n ch c.buffer }))
              ≡ run_lines (take 511 t) (pieces r).others c.messages c.world)
            (ap (λ x. x ++ (pieces r).first) (chars-store n ch c.buffer)
              ∙ append_assoc (chars n c.buffer) (ch ∷ []) (pieces r).first)
            (ih (n + 1) (record c { buffer = store n ch c.buffer }) (ground (arith, l))))

    -- With 511 bytes in front of it, what follows is cut away.
    cut : (buffer : ℕ → ℕ) (l : Bytes) → take 511 (chars 511 buffer ++ l) ≡ chars 511 buffer
    cut buffer l =
        take-append_le 511 (chars 511 buffer) l (omega (arith, length-chars 511 buffer))
        ∙ take_all 511 (chars 511 buffer) (omega (arith, length-chars 511 buffer))

    dropped :
        (n : ℕ) (c : Conn S)
        → n ≡ 511
        → is_end ch ≡ false
        → ltb n (bufsize - 1) ≡ false
        → Told (ch ∷ r) n c
    dropped n c q e l =
        let same = ap (λ k. chars k c.buffer) q in
        by_turn ch r n c _ _ (too_long parse leaves exit_client other n c ch e l)
          (pieces_inside ch r e)
          (ih n (record c { buffer = store n ch c.buffer }) (omega (arith, q))
            ∙ ap (λ t. run_lines t (pieces r).others c.messages c.world)
                (ap (λ x. take 511 (x ++ (pieces r).first))
                    (chars-store_behind n n ch c.buffer (omega arith))
                  ∙ rw q
                      (cut c.buffer (pieces r).first ∙ sym (cut c.buffer (ch ∷ (pieces r).first)))))

    step : (n : ℕ) (c : Conn S) → n < 512 → Told (ch ∷ r) n c
    step n c h = elim (Bool-cases (is_end ch)) [
      | inl e ↦ elim (Bool-cases (n == 0)) [
        | inl z ↦ skipped n c e ((==_iff n 0).0 z)
        | inr z ↦ ended n c h e (λ q. ground (arith, z, q))
      ]
      | inr e ↦ elim (Bool-cases (ltb n (bufsize - 1))) [
        | inl l ↦ added n c e l
        | inr l ↦ dropped n c (ground (arith, h, l)) e l
      ]
    ]

  loop-Told : (bytes : Bytes) (n : ℕ) (c : Conn S) → n < 512 → Told bytes n c
  unfolding loop pieces run_lines
  loop-Told [] n c h = rw (short n c.buffer h) refl
  loop-Told (ch ∷ r) n c h = step r (loop-Told r) ch n c h

  -- The outcome of `dopacket` for a connection with less than 512 waiting bytes is that of running the
  -- pieces of the text in turn: what waited, followed by the packet up to its first CR or LF, and then
  -- the pieces behind each CR or LF. Each is cut to 511 bytes; an empty one is passed over, another is
  -- counted as a message and parsed, until a line takes the connection away; the last one waits, and
  -- `count` is its length.
  pub dopacket_lem :
      (bytes : Bytes) (c : Conn S) (t : Traffic × Traffic × Traffic)
      → c.count < 512
      → view (dopacket parse leaves exit_client other bytes c t).0
        ≡ run_lines
            (take 511 (chars c.count c.buffer ++ (pieces bytes).first))
            (pieces bytes).others
            c.messages
            c.world
  unfolding dopacket
  dopacket_lem bytes c t h = loop-Told bytes c.count c h

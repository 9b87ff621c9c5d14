-- ===== src/Packet/Frame.antt =====
-- The buffer of a connection in ircd/src/packet.c: what `dopacket` keeps true of the bytes that wait.
use snservices.Base.{
  ℕ, zero, suc, ◌+◌, ◌-◌, ◌<◌, ◌≤◌, ◌≡◌, ◌≢◌, refl, inl, inr, Bool, true, false, [], ◌∷◌, ◌++◌, ltb,
  ◌==◌, Bytes, length, length-append, All, All-append, arith, Bool-cases, ==_iff,
}
use snservices.Packet.{
  Conn, Turn, goes_on, over, Result, kept, flushed, Verdict, flush, dead, alive, Messages, bufsize,
  is_end, chars, store, after_parse, hand_over, take_byte, loop,
}

-- To write at an index or behind it leaves what is in front of it.
pub chars-store_behind :
    (n p ch : ℕ) (buffer : ℕ → ℕ) → n ≤ p → chars n (store p ch buffer) ≡ chars n buffer
unfolding chars
chars-store_behind zero p ch buffer h = refl
chars-store_behind (suc n) p ch buffer h =
    let t : (n == p) ≡ false = ground (arith, h) in
    rw (t, chars-store_behind n p ch buffer (omega (arith, h))) refl

-- A byte that is written at the end stands behind the others.
pub chars-store :
    (n ch : ℕ) (buffer : ℕ → ℕ) → chars (n + 1) (store n ch buffer) ≡ chars n buffer ++ ch ∷ []
unfolding chars
chars-store n ch buffer =
    let t : (n == n) ≡ true = (==_iff n n).1 refl in
    let next : n + 1 ≡ suc n = omega arith in
    rw (next, t, chars-store_behind n n ch buffer (omega arith)) refl

-- There are as many as the index says.
pub length-chars : (n : ℕ) (buffer : ℕ → ℕ) → length (chars n buffer) ≡ n
unfolding chars
length-chars zero buffer = refl
length-chars (suc n) buffer =
    omega (arith, length-append (chars n buffer) (buffer n ∷ []), length-chars n buffer)

module _ {ℓ} {S : Type ℓ} (parse : S → Bytes → S × Verdict) (leaves : Bytes → (ℕ → ℕ) → ℕ → ℕ)
    (exit_client : S → S) (other : Bool) where
  module _ (ch1 : ℕ) (c : Conn S) (ch : ℕ) where
    pub at_start :
        is_end ch ≡ true
        → ch1 ≡ 0
        → take_byte parse leaves exit_client other ch1 c ch
          ≡ goes_on 0 (record c { buffer = store ch1 ch c.buffer })
    unfolding take_byte
    at_start e q = let z : (ch1 == 0) ≡ true = ground (arith, q) in rw (e, z) refl

    pub at_end :
        is_end ch ≡ true
        → ch1 ≢ 0
        → take_byte parse leaves exit_client other ch1 c ch
          ≡ hand_over parse leaves exit_client other ch1 (store ch1 ch c.buffer) c
    unfolding take_byte
    at_end e q = let z : (ch1 == 0) ≡ false = ground (arith, q) in rw (e, z) refl

    pub inside :
        is_end ch ≡ false
        → ltb ch1 (bufsize - 1) ≡ true
        → take_byte parse leaves exit_client other ch1 c ch
          ≡ goes_on (ch1 + 1) (record c { buffer = store ch1 ch c.buffer })
    unfolding take_byte
    inside e l = rw (e, l) refl

    pub too_long :
        is_end ch ≡ false
        → ltb ch1 (bufsize - 1) ≡ false
        → take_byte parse leaves exit_client other ch1 c ch
          ≡ goes_on ch1 (record c { buffer = store ch1 ch c.buffer })
    unfolding take_byte
    too_long e l = rw (e, l) refl

  -- Room for the NUL behind the first `n` bytes, and no end of a line among them.
  abbrev Room : ℕ → Conn S → Type 0
  Room n c = (n < bufsize) × All (λ b. is_end b ≡ false) (chars n c.buffer)

  abbrev RoomAfter : Turn S → Type 0
  RoomAfter (goes_on n c) = Room n c
  RoomAfter (over m s) = Unit

  -- The waiting bytes leave room for the NUL and hold no end of a line.
  abbrev pub Waiting : Result S → Type 0
  Waiting (kept c) = (c.count < bufsize) × All (λ b. is_end b ≡ false) (chars c.count c.buffer)
  Waiting (flushed m s) = Unit

  parsed-Room :
      (buffer : ℕ → ℕ) (m : Messages) (v : S × Verdict)
      → RoomAfter (after_parse parse leaves exit_client other buffer m v)
  unfolding after_parse chars
  parsed-Room buffer m (s, flush) = tt
  parsed-Room buffer m (s, dead) = tt
  parsed-Room buffer m (s, alive) = (omega arith, tt)

  hand_over-Room :
      (ch1 : ℕ) (buffer : ℕ → ℕ) (c : Conn S)
      → RoomAfter (hand_over parse leaves exit_client other ch1 buffer c)
  unfolding hand_over
  hand_over-Room ch1 buffer c = parsed-Room _ _ (parse c.world (chars ch1 buffer))

  no_chars : (buffer : ℕ → ℕ) → All (λ b. is_end b ≡ false) (chars 0 buffer)
  unfolding chars
  no_chars buffer = tt

  take_byte-Room :
      (ch1 : ℕ) (c : Conn S) (ch : ℕ)
      → Room ch1 c
      → RoomAfter (take_byte parse leaves exit_client other ch1 c ch)
  take_byte-Room ch1 c ch h = elim (Bool-cases (is_end ch)) [
    | inl e ↦ elim (Bool-cases (ch1 == 0)) [
      | inl z ↦ rw (at_start ch1 c ch e ((==_iff ch1 0).0 z)) (omega arith, no_chars _)
      | inr z ↦ rw (at_end ch1 c ch e (λ q. ground (arith, z, q))) (hand_over-Room ch1 _ c)
    ]
    | inr e ↦ elim (Bool-cases (ltb ch1 (bufsize - 1))) [
      | inl l ↦
          rw (inside ch1 c ch e l, chars-store ch1 ch c.buffer)
            (ground (arith, l), All-append _ (chars ch1 c.buffer) (ch ∷ []) h.1 (e, tt))
      | inr l ↦ rw (too_long ch1 c ch e l, chars-store_behind ch1 ch1 ch c.buffer (omega arith)) h
    ]
  ]

  loop-Room :
      (bytes : Bytes) (ch1 : ℕ) (c : Conn S)
      → Room ch1 c
      → Waiting (loop parse leaves exit_client other bytes ch1 c)
  unfolding loop
  loop-Room [] ch1 c h = h
  loop-Room (ch ∷ r) ch1 c h =
      by_turn (take_byte parse leaves exit_client other ch1 c ch) (take_byte-Room ch1 c ch h)
        (loop-Room r)
    where
      by_turn :
          (t : Turn S)
          → RoomAfter t
          → ((n : ℕ) (c' : Conn S)
              → Room n c'
              → Waiting (loop parse leaves exit_client other r n c'))
          → Waiting (elim t [
            | goes_on n c' ↦ loop parse leaves exit_client other r n c'
            | over m s ↦ flushed m s
          ])
      by_turn (goes_on n c') w later = later n c' w
      by_turn (over m s) w later = tt

  -- Whatever is received, the bytes that wait in the buffer leave room for the NUL behind them and hold
  -- no CR or LF, if they did before.
  pub loop-Waiting :
      (bytes : Bytes) (c : Conn S)
      → Waiting (kept c)
      → Waiting (loop parse leaves exit_client other bytes c.count c)
  loop-Waiting bytes c h = loop-Room bytes c.count c h

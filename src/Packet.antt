-- ===== src/Packet.antt =====
-- ircd/src/packet.c: `dopacket` cuts what a connection sends into lines and has each line parsed. The
-- parser and `exit_client` are parameters, with the world `S` that they change. The parser writes into the
-- line that it is given: what it leaves in the buffer is a parameter too.
pub mod Frame
pub mod Lines
pub mod Counts
mod Examples
use snservices.Base.{
  ℕ, zero, suc, ◌+◌, ◌-◌, ◌*◌, ◌/◌, ◌%◌, ◌^◌, Bool, true, false, ◌||◌, List, [], ◌∷◌, ◌++◌, ltb,
  ◌==◌, if◌then◌else◌, Bytes, length,
}

-- `sizeof(cptr->buffer)`
abbrev pub bufsize : ℕ
bufsize = 512

-- What is known after `parse`: FLUSH_BUFFER, a dead socket, or neither.
pub data Verdict : Type 0 where
  flush : Verdict
  dead : Verdict
  alive : Verdict

-- `receiveM` of the server, of the client and of its listener if that is not the server.
pub record Messages : Type 0 where
  pub me : ℕ
  pub cptr : ℕ
  pub acpt : ℕ

-- `buffer` is the memory by index; its first `count` bytes wait for the end of their line.
pub record Conn {ℓ} (S : Type ℓ) : Type ℓ where
  pub buffer : ℕ → ℕ
  pub count : ℕ
  pub messages : Messages
  pub world : S

-- After a turn of the loop: the connection with `ch1` as an index, or there is none any more.
pub data Turn {ℓ} (S : Type ℓ) : Type ℓ where
  goes_on : ℕ → Conn S → Turn S
  over : Messages → S → Turn S

-- `dopacket` returns 0 with the connection, or FLUSH_BUFFER when there is none any more.
pub data Result {ℓ} (S : Type ℓ) : Type ℓ where
  kept : Conn S → Result S
  flushed : Messages → S → Result S

-- A byte count below 1024 in a `u_short`, and the kilobytes.
pub record Traffic : Type 0 where
  pub receive_b : ℕ
  pub receive_k : ℕ

pub is_end : ℕ → Bool
is_end ch = ch == 10 || ch == 13

-- `other` says that the listener is not the server itself.
pub count_message : Bool → Messages → Messages
count_message other m = record {
  me = m.me + 1;
  cptr = m.cptr + 1;
  acpt = if other then m.acpt + 1 else m.acpt;
}

-- The bytes from the start of the buffer up to an index.
pub chars : ℕ → (ℕ → ℕ) → Bytes
chars zero buffer = []
chars (suc n) buffer = chars n buffer ++ buffer n ∷ []

-- `*p = ch`
abbrev pub store : ℕ → ℕ → (ℕ → ℕ) → ℕ → ℕ
store p ch buffer k = if k == p then ch else buffer k

module _ {ℓ} {S : Type ℓ} (parse : S → Bytes → S × Verdict) (leaves : Bytes → (ℕ → ℕ) → ℕ → ℕ)
    (exit_client : S → S) (other : Bool) where
  after_parse : (ℕ → ℕ) → Messages → S × Verdict → Turn S
  after_parse buffer m (s, flush) = over m s
  after_parse buffer m (s, dead) = over m (exit_client s)
  after_parse buffer m (s, alive) =
      goes_on 0 (record { buffer = buffer; count = 0; messages = m; world = s })

  -- The line in front of `ch1`, with a NUL behind it.
  pub hand_over : ℕ → (ℕ → ℕ) → Conn S → Turn S
  unfolding count_message after_parse chars
  hand_over ch1 buffer c =
      let line = chars ch1 buffer in
      after_parse (leaves line (store ch1 0 buffer)) (count_message other c.messages)
        (parse c.world line)

  -- One turn of the loop.
  pub take_byte : ℕ → Conn S → ℕ → Turn S
  unfolding is_end hand_over
  take_byte ch1 c ch =
      let buffer = store ch1 ch c.buffer in
      if is_end ch
      then if ch1 == 0 then goes_on 0 (record c { buffer = buffer }) else hand_over ch1 buffer c
      else if ltb ch1 (bufsize - 1)
      then goes_on (ch1 + 1) (record c { buffer = buffer })
      else goes_on ch1 (record c { buffer = buffer })

  -- `while (--length >= 0)`, and `count` behind it.
  pub loop : Bytes → ℕ → Conn S → Result S
  unfolding take_byte
  loop [] ch1 c = kept (record c { count = ch1 })
  loop (ch ∷ r) ch1 c = elim (take_byte ch1 c ch) [
    | goes_on next c' ↦ loop r next c'
    | over m s ↦ flushed m s
  ]

pub add_bytes : ℕ → Traffic → Traffic
add_bytes n t = record t { receive_b = (t.receive_b + n) % 2 ^ 16 }

-- `receiveK += (receiveB >> 10); receiveB &= 0x03ff;`
pub carry : Traffic → Traffic
carry t =
    if ltb 1023 t.receive_b
    then record { receive_b = t.receive_b % 1024; receive_k = t.receive_k + t.receive_b / 1024 }
    else t

-- The server, the client and the listener; the server's own count is carried only if it is the
-- listener.
pub count_bytes : Bool → ℕ → Traffic × Traffic × Traffic → Traffic × Traffic × Traffic
unfolding add_bytes carry
count_bytes other n (me, cptr, acpt) =
    if other
    then (add_bytes n me, carry (add_bytes n cptr), carry (add_bytes n acpt))
    else (carry (add_bytes n me), carry (add_bytes n cptr), acpt)

pub dopacket {ℓ} :
    {S : Type ℓ}
    → (S → Bytes → S × Verdict)
    → (Bytes → (ℕ → ℕ) → ℕ → ℕ)
    → (S → S)
    → Bool
    → Bytes
    → Conn S
    → Traffic × Traffic × Traffic
    → Result S × (Traffic × Traffic × Traffic)
unfolding loop count_bytes
dopacket parse leaves exit_client other bytes c t =
    (loop parse leaves exit_client other bytes c.count c, count_bytes other (length bytes) t)

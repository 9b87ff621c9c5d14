-- ===== src/Packet/Examples.antt =====
-- Tests of the packets, and the theorems at concrete inputs.
use snservices.Base.{
  ℕ, ◌+◌, ◌<◌, ◌≡◌, refl, true, false, List, [], ◌∷◌, ◌++◌, ◌==◌, if◌then◌else◌, Bytes, All, take,
  arith,
}
use snservices.Packet.{
  Conn, Messages, Verdict, alive, flush, flushed, Traffic, chars, is_end, store, loop, count_bytes,
  dopacket,
}
use snservices.Packet.Frame.{Waiting, loop-Waiting}
use snservices.Packet.Lines.{view, waits, run_lines, pieces, dopacket_lem}
use snservices.Packet.Counts.{total, count_bytes-total}

-- A parser that keeps the lines, the newest first, and gives up on the line "q".
abbrev parse : List Bytes → Bytes → List Bytes × Verdict
parse ls (c ∷ []) = if c == 113 then (ls, flush) else ((c ∷ []) ∷ ls, alive)
parse ls l = (l ∷ ls, alive)

abbrev exit_client : List Bytes → List Bytes
exit_client ls = ls

abbrev no_messages : Messages
no_messages = record { me = 0; cptr = 0; acpt = 0 }

abbrev cleared : ℕ → ℕ
cleared k = 0

-- The parser leaves the buffer as it is.
abbrev leaves : Bytes → (ℕ → ℕ) → ℕ → ℕ
leaves line buffer = buffer

abbrev conn : Conn (List Bytes)
conn = record { buffer = cleared; count = 0; messages = no_messages; world = [] }

-- "ab", CR, LF, "c"
two_lines :
    view (loop parse leaves exit_client true (97 ∷ 98 ∷ 13 ∷ 10 ∷ 99 ∷ []) 0 conn)
    ≡ waits (99 ∷ []) (record { me = 1; cptr = 1; acpt = 1 }) ((97 ∷ 98 ∷ []) ∷ [])
unfolding loop
two_lines = refl

quit_test :
    loop parse leaves exit_client false (113 ∷ 10 ∷ 99 ∷ 10 ∷ []) 0 conn
    ≡ flushed (record { me = 1; cptr = 1; acpt = 0 }) []
unfolding loop
quit_test = refl

-- The server's own counter is an unsigned short that is not carried over here.
me_wraps :
    (count_bytes true 2000 (
      record { receive_b = 65000; receive_k = 0 },
      record { receive_b = 0; receive_k = 0 },
      record { receive_b = 0; receive_k = 0 },
    )).0
    ≡ record { receive_b = 1464; receive_k = 0 }
unfolding count_bytes
me_wraps = refl

-- A connection with "b" in its buffer.
abbrev half : Conn (List Bytes)
half = record conn { buffer = store 0 98 cleared; count = 1 }

half_line : All (λ b. is_end b ≡ false) (chars 1 half.buffer)
unfolding chars is_end
half_line = (refl, tt)

loop-Waiting_example :
    Waiting parse leaves exit_client true
      (loop parse leaves exit_client true (97 ∷ 13 ∷ 10 ∷ 98 ∷ []) 1 half)
loop-Waiting_example =
    loop-Waiting parse leaves exit_client true (97 ∷ 13 ∷ 10 ∷ 98 ∷ []) half
      (omega arith, half_line)

abbrev some_traffic : Traffic
some_traffic = record { receive_b = 1000; receive_k = 3 }

count_bytes-total_test :
    (let (_, cptr', acpt') = count_bytes true 500 (some_traffic, some_traffic, some_traffic) in
      (total cptr' ≡ total some_traffic + 500)
      × (cptr'.receive_b < 1024)
      × (total acpt' ≡ total some_traffic + 500)
      × (acpt'.receive_b < 1024))
count_bytes-total_test =
    count_bytes-total 500 some_traffic some_traffic some_traffic (omega arith) (omega arith)
      (omega arith)

-- The rest of a line, the line "q" and another, which is not read any more.
dopacket_lem_example :
    view
      (dopacket parse leaves exit_client true
        (97 ∷ 13 ∷ 10 ∷ 113 ∷ 10 ∷ 99 ∷ 10 ∷ [])
        half
        (some_traffic, some_traffic, some_traffic)).0
    ≡ run_lines parse leaves exit_client true
        (take 511 (chars 1 half.buffer ++ (97 ∷ [])))
        ([] ∷ (113 ∷ []) ∷ (99 ∷ []) ∷ [] ∷ [])
        no_messages
        []
unfolding pieces
dopacket_lem_example =
    dopacket_lem parse leaves exit_client true (97 ∷ 13 ∷ 10 ∷ 113 ∷ 10 ∷ 99 ∷ 10 ∷ []) half
      (some_traffic, some_traffic, some_traffic) (omega arith)

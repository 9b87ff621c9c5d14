-- ===== src/Packet/Counts.antt =====
-- The byte counters.
use snservices.Base.{ℕ, ◌+◌, ◌*◌, ◌/◌, ◌%◌, ◌^◌, ◌<◌, ◌≡◌, inl, inr, true, ltb, arith, Bool-cases}
use snservices.Packet.{Traffic, add_bytes, carry, count_bytes}

abbrev pub total : Traffic → ℕ
total t = t.receive_k * 1024 + t.receive_b

div_mod_1024 : (a : ℕ) → a ≡ (a / 1024) * 1024 + a % 1024
div_mod_1024 a = omega arith

mod_1024 : (a : ℕ) → a % 1024 < 1024
mod_1024 a = omega arith

-- Of a counter below 1024 no byte is lost when a packet of less than 64512 bytes is added and the
-- kilobytes are carried over, and the counter is below 1024 again.
carry-add_bytes :
    (n : ℕ) (t : Traffic)
    → t.receive_b < 1024
    → n < 64512
    → (total (carry (add_bytes n t)) ≡ total t + n) × ((carry (add_bytes n t)).receive_b < 1024)
unfolding carry add_bytes
carry-add_bytes n t b h =
    let small : (t.receive_b + n) % 2 ^ 16 ≡ t.receive_b + n = omega arith in
    elim (Bool-cases (ltb 1023 (t.receive_b + n))) [
      | inl e ↦ rw (small, e) (omega arith, omega arith)
      | inr e ↦ rw (small, e) (omega arith, ground arith)
    ]

-- Where the listener is not the server itself: the bytes that a client and its listener are counted
-- with grow by exactly the bytes of a packet of less than 64512 bytes, and counters below 1024 stay
-- below it.
pub count_bytes-total :
    (n : ℕ) (me cptr acpt : Traffic)
    → cptr.receive_b < 1024
    → acpt.receive_b < 1024
    → n < 64512
    → (let (_, cptr', acpt') = count_bytes true n (me, cptr, acpt) in
        (total cptr' ≡ total cptr + n)
        × (cptr'.receive_b < 1024)
        × (total acpt' ≡ total acpt + n)
        × (acpt'.receive_b < 1024))
unfolding count_bytes
count_bytes-total n me cptr acpt b d h =
    let (e, l) = carry-add_bytes n cptr b h in
    let (e', l') = carry-add_bytes n acpt d h in (e, l, e', l')

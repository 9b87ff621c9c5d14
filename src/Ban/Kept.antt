-- ===== src/Ban/Kept.antt =====
-- That an ordinary ban keeps a client out: `is_banned` with `can_join` and `can_send` of
-- ircd/src/channel.c.
use Prim.Native.Nat.{bit_or, bit_and, bit_and-bitwise, bit_or-bitwise}
use snservices.Base.{
  ℕ, zero, suc, ◌%◌, ◌≡◌, ◌≢◌, refl, inl, inr, Bool, true, false, ◌||◌, Option, none, some, List,
  [], ◌∷◌, if◌then◌else◌, Bytes, arith, ◌==◌, Bool-cases,
}
use snservices.Channel.Ops.{find_user_link}
use snservices.Ban.{Ban, Client, ban_std, is_set}
use snservices.Ban.Rules.{Channels}
use snservices.Ban.Lists.{stops_at, is_banned, is_found}
use snservices.Ban.Access.{
  Chan, is_invited, ban_error, banned_error, can_join, outsider_send, can_send, bad_key,
  needs_unmask,
}
use snservices.Ban.Verdict.{Covers, Covers-stops_at, first_stop, verdict, is_banned-verdict}

bit_or-odd : (x : ℕ) → bit_or x 3 % 2 ≡ 1
bit_or-odd zero = refl
bit_or-odd (suc n) = simp bit_or-bitwise (omega arith)

bit_and-odd : (y : ℕ) → y % 2 ≡ 1 → bit_and y 33 % 2 ≡ 1
bit_and-odd zero e = absurd (omega arith)
bit_and-odd (suc n) e = simp bit_and-bitwise (omega (arith, e))

-- Behind an ordinary ban the error is that of a banned client.
ban_error-std : (x : ℕ) → ban_error (bit_or x ban_std) ≡ some 474
unfolding ban_error
ban_error-std x = elim (Bool-cases (bit_and (bit_or x 3) 33 == 0)) [
  | inl e ↦ absurd (ground (arith, e, bit_and-odd _ (bit_or-odd x)))
  | inr e ↦ rw e refl
]

answer-kept :
    (a b m : Bool)
    → (let r : ℕ = if a then 473 else if b then 475 else if m then 625 else 474 in r ≢ 0)
answer-kept true b m e = omega (arith, e)
answer-kept false true m e = omega (arith, e)
answer-kept false false true e = omega (arith, e)
answer-kept false false false e = omega (arith, e)

module _ (gen_host_mask : Bytes → Bytes) (channels : Channels) (c : Client) where
  -- One of the bans covers the client.
  pub data Hit : List Ban → Type 0 where
    here : {b : Ban} {r : List Ban} → Covers gen_host_mask channels c b → Hit (b ∷ r)
    there : {b : Ban} {r : List Ban} → Hit r → Hit (b ∷ r)

  -- What `is_banned` gives for an ordinary ban.
  record Ordinary (o : Option Ban × ℕ) : Type 0 where
    found : is_found o.0 ≡ true
    flags : ban_error o.1 ≡ some 474

  stopped :
      (b : Ban) (r : List Ban) (rule : Option Ban) (x : ℕ)
      → stops_at gen_host_mask channels c b ≡ true
      → Ordinary
          (verdict gen_host_mask channels (first_stop gen_host_mask channels c (b ∷ r)) rule x)
  unfolding first_stop
  stopped b r rule x e = rw e (record { found = refl; flags = ban_error-std x })

  first_stop-Hit :
      (l : List Ban) (rule : Option Ban) (x : ℕ)
      → Hit l
      → Ordinary (verdict gen_host_mask channels (first_stop gen_host_mask channels c l) rule x)
  unfolding first_stop
  first_stop-Hit [] rule x h = elim h [ ]
  first_stop-Hit (b ∷ r) rule x (here k) =
      stopped b r rule x (Covers-stops_at gen_host_mask channels c b k)
  first_stop-Hit (b ∷ r) rule x (there h) =
      elim (Bool-cases (stops_at gen_host_mask channels c b)) [
        | inl e ↦ stopped b r rule x e
        | inr e ↦ rw e (first_stop-Hit r rule x h)
      ]

  is_banned-Hit :
      (l : List Ban)
      → c.is_person ≡ true
      → Hit l
      → Ordinary (is_banned gen_host_mask channels c l 0)
  is_banned-Hit l p h =
      rw (is_banned-verdict gen_host_mask channels c l 0 p) (first_stop-Hit l _ _ h)

  banned_error-Hit :
      (ch : Chan)
      → c.is_person ≡ true
      → Hit ch.banlist
      → banned_error gen_host_mask channels c ch ≡ some 474
  unfolding banned_error
  banned_error-Hit ch p h = let o = is_banned-Hit ch.banlist p h in rw (o.found, o.flags) refl

  send-Hit :
      (ch : Chan) (m p : Bool) (o : Option Ban × ℕ)
      → Ordinary o
      → (let r : ℕ = if m then 16 else if p then 128 else if is_found o.0 then 512 else 0 in r ≢ 0)
  send-Hit ch true p o k e = omega (arith, e)
  send-Hit ch false true o k e = omega (arith, e)
  send-Hit ch false false o k e = absurd (ground (arith, e, k.found))

  outside :
      (ch : Chan)
      → find_user_link c.id ch.members ≡ none
      → can_send gen_host_mask channels c ch ≡ outsider_send gen_host_mask channels c ch
  unfolding can_send
  outside ch n = rw (can_send, n) refl

  outsider_send-Hit :
      (ch : Chan)
      → c.is_person ≡ true
      → Hit ch.banlist
      → outsider_send gen_host_mask channels c ch ≢ 0
  unfolding outsider_send
  outsider_send-Hit ch p h =
      send-Hit ch (is_set ch.mode 16) (is_set ch.mode 128) _ (is_banned-Hit ch.banlist p h)

  -- A person whom an ordinary ban covers, who is neither invited nor on a server with a U line, cannot
  -- join the channel, whatever rules stand on the ban list and whatever key is given; and as long as it
  -- is not a member it cannot send to the channel.
  pub can_join-Hit :
      (ch : Chan) (key : Option Bytes)
      → c.is_person ≡ true
      → (is_invited ch.id c.invited || c.is_u_line) ≡ false
      → Hit ch.banlist
      → (can_join gen_host_mask channels c ch key ≢ 0)
        × (find_user_link c.id ch.members ≡ none → can_send gen_host_mask channels c ch ≢ 0)
  unfolding can_join
  can_join-Hit ch key p i h = (
    rw (i, banned_error-Hit ch p h)
        (answer-kept (is_set ch.mode 64) (bad_key ch.key key) (needs_unmask c ch)),
    λ n. rw (outside ch n) (outsider_send-Hit ch p h),
  )

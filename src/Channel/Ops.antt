-- ===== src/Channel/Ops.antt =====
-- Who is an operator of a channel, or has the voice: `have_ops`, `is_chan_op` and `has_voice` of
-- ircd/src/channel.c, and `find_user_link` of ircd/src/list.c.
use snservices.Base.{
  ℕ, ◌*◌, ◌/◌, ◌%◌, ◌≡◌, ◌≢◌, refl, ap, inl, inr, false, not, Option, none, some, List, [], ◌∷◌,
  ◌==◌, if◌then◌else◌, arith, Bool-cases,
}
use snservices.Channel.{Member, Channel, is_linked}

-- `flags & CHFL_CHANOP` and `flags & CHFL_VOICE`
abbrev pub chanop_bit : ℕ → ℕ
chanop_bit flags = flags % 2

abbrev pub voice_bit : ℕ → ℕ
voice_bit flags = 2 * (flags / 2 % 2)

unfoldable pub find_user_link : ℕ → List Member → Option Member
find_user_link ptr [] = none
find_user_link ptr (lp ∷ r) =
    let further = find_user_link ptr r in if lp.cptr == ptr then some lp else further

ops_loop : List Member → ℕ
ops_loop [] = 0
ops_loop (lp ∷ r) =
    let further = ops_loop r in if not (chanop_bit lp.flags == 0) then 1 else further

pub have_ops : Channel → ℕ
unfolding ops_loop
have_ops ch = ops_loop ch.members

unfoldable pub is_chan_op : ℕ → Channel → ℕ
unfolding find_user_link
is_chan_op c ch = elim (find_user_link c ch.members) [ none ↦ 0 | some lp ↦ chanop_bit lp.flags ]

unfoldable pub has_voice : ℕ → Channel → ℕ
unfolding find_user_link
has_voice c ch = elim (find_user_link c ch.members) [ none ↦ 0 | some lp ↦ voice_bit lp.flags ]

abbrev bit_of : (ℕ → ℕ) → Option Member → ℕ
bit_of f o = elim o [ none ↦ 0 | some lp ↦ f lp.flags ]

find-not_linked :
    (c : ℕ) (xs : List Member) → is_linked Member.cptr c xs ≡ false → find_user_link c xs ≡ none
unfolding find_user_link is_linked
find-not_linked c [] h = refl
find-not_linked c (x ∷ r) h = elim (Bool-cases (x.cptr == c)) [
  | inl e ↦ let h' = rw e at h in absurd cc
  | inr e ↦ rw e (find-not_linked c r (rw e at h))
]

-- A client that is not on the channel is no operator of it and has no voice on it.
pub outsider-no_rights :
    (c : ℕ) (ch : Channel)
    → is_linked Member.cptr c ch.members ≡ false
    → (is_chan_op c ch ≡ 0) × (has_voice c ch ≡ 0)
unfolding is_chan_op has_voice
outsider-no_rights c ch h =
    let e = find-not_linked c ch.members h in (ap (bit_of chanop_bit) e, ap (bit_of voice_bit) e)

ops_loop-found :
    (c : ℕ) (xs : List Member) → bit_of chanop_bit (find_user_link c xs) ≢ 0 → ops_loop xs ≡ 1
unfolding find_user_link ops_loop
ops_loop-found c [] h = absurd (h refl)
ops_loop-found c (x ∷ r) h = elim (Bool-cases (chanop_bit x.flags == 0)) [
  | inr e ↦ rw e refl
  | inl e ↦ elim (Bool-cases (x.cptr == c)) [
    | inl q ↦ let h' = rw q at h in absurd (h' (ground arith))
    | inr q ↦ rw e (ops_loop-found c r (rw q at h))
  ]
]

-- A channel with an operator has operators: `have_ops` answers 1 as soon as `is_chan_op` is not 0 for
-- some client.
pub have_ops-is_chan_op : (c : ℕ) (ch : Channel) → is_chan_op c ch ≢ 0 → have_ops ch ≡ 1
unfolding is_chan_op have_ops
have_ops-is_chan_op c ch h = ops_loop-found c ch.members h

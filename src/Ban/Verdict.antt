-- ===== src/Ban/Verdict.antt =====
-- Who is banned: the loop of `is_banned` in ircd/src/channel.c against two separate questions, which
-- ordinary ban is the first that covers the client, and which rules stand before it.
use Prim.Native.Nat.{bit_or}
use snservices.Base.{
  ℕ, zero, ◌≡◌, refl, sym, ◌∙◌, ap, inl, inr, Bool, true, false, not, ◌&&◌, Option, none, some,
  List, [], ◌∷◌, if◌then◌else◌, Bytes, drop, false≢true, Bool-cases, suc,
}
use snservices.Match.Tokens.{tokens, Matches}
use snservices.Match.Verdict.{Answers, r_match-Answers}
use snservices.Match.Prefilter.{match-r_match}
use snservices.Ban.{
  Ban, Client, ban_std, answers_zero, hits, begins, bmake_nick_user_host, make_nick_user_ip,
  is_ip_mask,
}
use snservices.Ban.Rules.{Channels, ban_rule_match}
use snservices.Ban.Lists.{Seen, nuh, nuhmask, by_ip, stops_at, note, pass, ban_loop, is_banned}

answers_zero_lem :
    {G : Type 0} (o : Option ℕ)
    → Answers G o
    → (answers_zero o ≡ true → G) × (G → answers_zero o ≡ true)
answers_zero_lem (some zero) g = ((λ _. g), λ _. refl)
answers_zero_lem (some (suc zero)) n = ((λ e. absurd (false≢true e)), λ g. absurd (n g))
answers_zero_lem (some (suc (suc _))) n = absurd n
answers_zero_lem none n = absurd n

pub hits-Matches :
    (mask text : Bytes)
    → (hits mask text ≡ true → Matches (tokens mask) text)
      × (Matches (tokens mask) text → hits mask text ≡ true)
unfolding hits
hits-Matches mask text =
    rw (match-r_match mask text) (answers_zero_lem _ (r_match-Answers mask text))

module _ (gen_host_mask : Bytes → Bytes) (channels : Channels) where
  -- That an ordinary ban covers a client, by what its mask stands for.
  pub data Covers (c : Client) (b : Ban) : Type 0 where
    by_address :
        begins 37 b.banstr ≡ true
        → (c.my_client && is_ip_mask (drop 1 b.banstr)) ≡ true
        → Matches (tokens (drop 1 b.banstr)) (bmake_nick_user_host c.name c.username c.ip)
        → Covers c b
    by_name :
        begins 37 b.banstr ≡ true
        → (c.my_client && is_ip_mask (drop 1 b.banstr)) ≡ false
        → Matches (tokens b.banstr) (bmake_nick_user_host c.name c.username c.host)
        → Covers c b
    by_mask :
        begins 37 b.banstr ≡ false
        → Matches (tokens b.banstr) (bmake_nick_user_host c.name c.username (gen_host_mask c.host))
        → Covers c b

  and_left : (a b : Bool) → (a && b) ≡ true → a ≡ true
  and_left true b e = refl
  and_left false b e = e

  module _ (c : Client) (b : Ban) where
    at_address :
        begins 37 b.banstr ≡ true
        → (c.my_client && is_ip_mask (drop 1 b.banstr)) ≡ true
        → stops_at gen_host_mask channels c b
          ≡ hits (drop 1 b.banstr) (bmake_nick_user_host c.name c.username c.ip)
    unfolding stops_at make_nick_user_ip
    at_address e h = rw (e, h, and_left c.my_client _ h) refl

    at_name :
        begins 37 b.banstr ≡ true
        → (c.my_client && is_ip_mask (drop 1 b.banstr)) ≡ false
        → stops_at gen_host_mask channels c b
          ≡ hits b.banstr (bmake_nick_user_host c.name c.username c.host)
    unfolding stops_at
    at_name e h = rw (e, h) refl

    at_mask :
        begins 37 b.banstr ≡ false
        → stops_at gen_host_mask channels c b
          ≡ hits b.banstr (bmake_nick_user_host c.name c.username (gen_host_mask c.host))
    unfolding stops_at
    at_mask e = rw e refl

    pub Covers-stops_at : Covers c b → stops_at gen_host_mask channels c b ≡ true
    Covers-stops_at (by_address e h d) = at_address e h ∙ (hits-Matches _ _).1 d
    Covers-stops_at (by_name e h d) = at_name e h ∙ (hits-Matches _ _).1 d
    Covers-stops_at (by_mask e d) = at_mask e ∙ (hits-Matches _ _).1 d

    pub stops_at-Covers : stops_at gen_host_mask channels c b ≡ true → Covers c b
    stops_at-Covers s = elim (Bool-cases (begins 37 b.banstr)) [
      | inr e ↦ by_mask e ((hits-Matches _ _).0 (sym (at_mask e) ∙ s))
      | inl e ↦ elim (Bool-cases (c.my_client && is_ip_mask (drop 1 b.banstr))) [
        | inl h ↦ by_address e h ((hits-Matches _ _).0 (sym (at_address e h) ∙ s))
        | inr h ↦ by_name e h ((hits-Matches _ _).0 (sym (at_name e h) ∙ s))
      ]
    ]

  -- The first ordinary ban that covers the client, and the bans before it.
  unfoldable pub first_stop : Client → List Ban → Option Ban
  first_stop c [] = none
  first_stop c (b ∷ r) =
      let rest = first_stop c r in if stops_at gen_host_mask channels c b then some b else rest

  unfoldable pub before_stop : Client → List Ban → List Ban
  before_stop c [] = []
  before_stop c (b ∷ r) =
      let rest = before_stop c r in if stops_at gen_host_mask channels c b then [] else b ∷ rest

  -- The address as text, once a ban on addresses has been looked at.
  abbrev pub ip_behind : Client → Ban → Option Bytes → Option Bytes
  ip_behind c b s_ip = if by_ip gen_host_mask channels c b then make_nick_user_ip c else s_ip

  abbrev pub rule_of : Client → Ban → Option Bytes → Option ℕ
  rule_of c b s_ip =
      if begins 37 b.banstr
      then none
      else if begins 36 b.banstr
      then ban_rule_match channels c b.banstr (nuh gen_host_mask channels c)
          (nuhmask gen_host_mask channels c) s_ip
      else none

  abbrev pub push_rule : Ban → Option ℕ → List (Ban × ℕ) → List (Ban × ℕ)
  push_rule b none l = l
  push_rule b (some t) l = (b, t) ∷ l

  -- The rules that apply, in their order.
  unfoldable pub rules_of : Client → Option Bytes → List Ban → List (Ban × ℕ)
  rules_of c s_ip [] = []
  rules_of c s_ip (b ∷ r) = push_rule b (rule_of c b s_ip) (rules_of c (ip_behind c b s_ip) r)

  unfoldable pub flags_of : ℕ → List (Ban × ℕ) → ℕ
  flags_of bantype [] = bantype
  flags_of bantype ((_, t) ∷ r) = flags_of (bit_or bantype t) r

  unfoldable pub last_rule : Option Ban → List (Ban × ℕ) → Option Ban
  last_rule found [] = found
  last_rule found ((b, _) ∷ r) = last_rule (some b) r

  abbrev pub verdict : Option Ban → Option Ban → ℕ → Option Ban × ℕ
  verdict none rule bantype = (rule, bantype)
  verdict (some b) rule bantype = (some b, bit_or bantype ban_std)

  abbrev judge : Client → Seen → List Ban → Option Ban × ℕ
  judge c s banlist =
      let rules = rules_of c s.s_ip (before_stop c banlist) in
      verdict (first_stop c banlist) (last_rule s.found rules) (flags_of s.bantype rules)

  judge_stop :
      (c : Client) (b : Ban) (r : List Ban) (s : Seen)
      → stops_at gen_host_mask channels c b ≡ true
      → judge c s (b ∷ r) ≡ (some b, bit_or s.bantype ban_std)
  unfolding first_stop before_stop rules_of flags_of
  judge_stop c b r s e = rw e refl

  judge-note :
      (c : Client) (b : Ban) (o : Option ℕ) (r : List Ban) (s : Seen)
      → (let rules = push_rule b o (rules_of c s.s_ip (before_stop c r)) in
          verdict (first_stop c r) (last_rule s.found rules) (flags_of s.bantype rules))
        ≡ judge c (note b o s) r
  unfolding flags_of last_rule
  judge-note c b none r s = refl
  judge-note c b (some t) r s = refl

  judge-pass :
      (c : Client) (b : Ban) (r : List Ban) (s : Seen)
      → stops_at gen_host_mask channels c b ≡ false
      → judge c s (b ∷ r) ≡ judge c (pass gen_host_mask channels c b s) r
  unfolding first_stop before_stop rules_of pass
  judge-pass c b r s e = elim (Bool-cases (begins 37 b.banstr)) [
    | inl h ↦ elim (Bool-cases (c.my_client && is_ip_mask (drop 1 b.banstr))) [
      | inl q ↦ rw (e, h, q) refl
      | inr q ↦ rw (e, h, q) refl
    ]
    | inr h ↦ elim (Bool-cases (begins 36 b.banstr)) [
      | inl q ↦ rw (e, h, q) (judge-note c b _ r s)
      | inr q ↦ rw (e, h, q) refl
    ]
  ]

  ban_loop-judge :
      (c : Client) (banlist : List Ban) (s : Seen)
      → ban_loop gen_host_mask channels c banlist s ≡ judge c s banlist
  unfolding ban_loop first_stop before_stop rules_of flags_of last_rule
  ban_loop-judge c [] s = refl
  ban_loop-judge c (b ∷ r) s = elim (Bool-cases (stops_at gen_host_mask channels c b)) [
    | inl e ↦ rw e refl ∙ sym (judge_stop c b r s e)
    | inr e ↦
        rw e (ban_loop-judge c r (pass gen_host_mask channels c b s)) ∙ sym (judge-pass c b r s e)
  ]

  -- For a person, the loop that keeps a note of rules as it goes gives what two separate passes give. If
  -- some ban stops the loop, the first such ban is found, and the flags are those of the rules that stand
  -- before it, with `BAN_STD`. If none does, the last rule that applies is found, if there is one, with
  -- the flags of all rules that apply.
  pub is_banned-verdict :
      (c : Client) (banlist : List Ban) (bantype : ℕ)
      → c.is_person ≡ true
      → (let rules = rules_of c none (before_stop c banlist) in
          is_banned gen_host_mask channels c banlist bantype
          ≡ verdict (first_stop c banlist) (last_rule none rules) (flags_of 0 rules))
  unfolding is_banned
  is_banned-verdict c banlist bantype p =
      ap
        (λ (q : Bool).
          if not q
          then (none, bantype)
          else ban_loop gen_host_mask channels c banlist
              (record { found = none; bantype = 0; typetmp = 0; s_ip = none }))
        p
      ∙ ban_loop-judge c banlist _

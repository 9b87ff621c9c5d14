-- ===== src/Ban/Bounds.antt =====
-- What `add_banid` of ircd/src/channel.c lets onto a ban list: how many bans, of how many bytes, and none
-- that a ban already there covers.
use snservices.Base.{
  ℕ, ◌+◌, ◌≡◌, ◌<◌, ◌≤◌, refl, sym, ◌∙◌, ap, subst, inl, inr, Bool, true, false, ◌||◌, List, [],
  ◌∷◌, if◌then◌else◌, Bytes, arith, All, length, ltb, leb, false≢true, Bool-cases,
}
use snservices.Base.Int.{pos, negsuc}
use snservices.Match.Tokens.{tokens, Matches}
use snservices.Match.Collapse.{collapse}
use snservices.Channel.{Member}
use snservices.Ban.{Ban, Client, hits, is_zero}
use snservices.Ban.Rules.{Channels}
use snservices.Ban.Lists.{Changed, given, put_ban, refused, add_banid}
use snservices.Ban.Verdict.{hits-Matches}

abbrev pub total : List Ban → ℕ
total [] = 0
total (b ∷ r) = length b.banstr + total r

-- Behind bans of `len` bytes, `cnt` in number.
pub record Fits (banid : Bytes) (len cnt : ℕ) (l : List Ban) : Type 0 where
  pub count : cnt + length l < 60
  pub bytes : len + total l ≤ 1024
  pub uncovered : All (λ b. ¬ Matches (tokens b.banstr) banid) l

three_false :
    (a b m rest : Bool)
    → (if a || b || m then true else rest) ≡ false
    → (a ≡ false) × (b ≡ false) × (m ≡ false) × (rest ≡ false)
three_false false false false rest e = (refl, refl, refl, e)
three_false true b m rest e = absurd (false≢true (sym e))
three_false false true m rest e = absurd (false≢true (sym e))
three_false false false true rest e = absurd (false≢true (sym e))

module _ (c : Client) (local : c.my_client ≡ true) (banid : Bytes) where
  refused_cons :
      (len cnt : ℕ) (b : Ban) (r : List Ban)
      → refused c banid len cnt (b ∷ r) ≡ (
          if ltb 1024 (len + length b.banstr) || leb 60 (cnt + 1) || hits b.banstr banid
          then true
          else refused c banid (len + length b.banstr) (cnt + 1) r)
  unfolding refused
  refused_cons len cnt b r = rw (refused, local) refl

  refused-Fits :
      (l : List Ban) (len cnt : ℕ)
      → len ≤ 1024
      → cnt < 60
      → refused c banid len cnt l ≡ false
      → Fits banid len cnt l
  refused-Fits [] len cnt h k e = record {
    count = omega arith;
    bytes = omega arith;
    uncovered = tt;
  }
  refused-Fits (b ∷ r) len cnt h k e =
      let (x, y, z, w) =
        three_false (ltb 1024 (len + length b.banstr)) (leb 60 (cnt + 1)) (hits b.banstr banid) _
          (sym (refused_cons len cnt b r) ∙ e) in
      let f =
        refused-Fits r (len + length b.banstr) (cnt + 1) (ground (arith, x)) (ground (arith, y))
          w in
      record {
        count = omega (arith, f.count);
        bytes = omega (arith, f.bytes);
        uncovered = ((λ d. false≢true (sym z ∙ (hits-Matches _ _).1 d)), f.uncovered);
      }

  Fits-refused :
      (l : List Ban) (len cnt : ℕ) → Fits banid len cnt l → refused c banid len cnt l ≡ false
  unfolding refused
  Fits-refused [] len cnt f = refl
  Fits-refused (b ∷ r) len cnt f =
      let x : ltb 1024 (len + length b.banstr) ≡ false = ground (arith, f.bytes) in
      let y : leb 60 (cnt + 1) ≡ false = ground (arith, f.count) in
      let z : hits b.banstr banid ≡ false = elim (Bool-cases (hits b.banstr banid)) [
        | inl h ↦ absurd (f.uncovered.0 ((hits-Matches _ _).0 h))
        | inr h ↦ h
      ] in
      refused_cons len cnt b r
      ∙ rw (x, y, z)
          (Fits-refused r (len + length b.banstr) (cnt + 1) (record {
            count = omega (arith, f.count);
            bytes = omega (arith, f.bytes);
            uncovered = f.uncovered.1;
          }))

pub given_local : (c : Client) (banid : Bytes) → c.my_client ≡ true → given c banid ≡ collapse banid
unfolding given
given_local c banid local = ap (λ (b : Bool). if b then collapse banid else banid) local

module _ (gen_host_mask : Bytes → Bytes) (channels : Channels) (client : ℕ → Client) where
  module _ (c : Client) (banid : Bytes) (now : ℕ) (banlist : List Ban) (members : List Member) where
    abbrev after : Changed
    after = add_banid gen_host_mask channels client c banid now banlist members

    pub add_refused :
        refused c (given c banid) 0 0 banlist ≡ true
        → after ≡ record { result = negsuc 0; banlist = banlist; members = members }
    unfolding add_banid
    add_refused e = rw (add_banid, e) refl

    pub add_put :
        refused c (given c banid) 0 0 banlist ≡ false
        → after ≡ put_ban gen_host_mask channels client c.name (given c banid) now banlist members
    unfolding add_banid
    add_put e = rw (add_banid, e) refl

    pub added : after.result ≡ pos 0 → refused c (given c banid) 0 0 banlist ≡ false
    added r = elim (Bool-cases (refused c (given c banid) 0 0 banlist)) [
      | inr e ↦ e
      | inl e ↦
          absurd (false≢true (sym (ap (λ x. is_zero x.result) (add_refused e)) ∙ ap is_zero r))
    ]

    -- For a local client: the ban is added exactly if the list holds fewer than 60 bans, these take at most
    -- 1024 bytes, and none of them has a mask that stands for the collapsed text of the new one. A list
    -- that was added to has at most 60 bans.
    pub add_banid-Fits :
        c.my_client ≡ true
        → (after.result ≡ pos 0 → Fits (collapse banid) 0 0 banlist × (length after.banlist ≤ 60))
          × (Fits (collapse banid) 0 0 banlist → after.result ≡ pos 0)
    unfolding put_ban
    add_banid-Fits local =
        let short = given_local c banid local in
        (
          λ r.
              let e = added r in
              let f =
                refused-Fits c local (given c banid) banlist 0 0 (omega arith) (omega arith) e in
              (
                subst (λ x. Fits x 0 0 banlist) short f,
                omega (arith, f.count, ap (λ x. length x.banlist) (add_put e)),
              ),
          λ f.
              ap (λ x. x.result)
                (add_put (
                  Fits-refused c local (given c banid) banlist 0 0
                    (subst (λ x. Fits x 0 0 banlist) (sym short) f))),
        )

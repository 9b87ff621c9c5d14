-- ===== src/Clone/Rules.antt =====
-- The rules of clone detection, services/clone.c, as they are looked up and applied. `matches` is `!match(mask, text)` of
-- the services; loops along linked records run on fuel.
use snservices.Base.{
  ℕ, zero, suc, ◌+◌, ◌-◌, ◌*◌, Bool, true, false, not, ◌&&◌, ◌||◌, Option, none, some, List, [],
  ◌∷◌, ◌++◌, ltb, leb, ◌==◌, if◌then◌else◌, Bytes, take,
}
use snservices.Registry.Names.{same_name}
use snservices.Clone.{
  Clones, Rule, first_of, with_host, with_user, defhostclonetrigger, defuserclonetrigger,
}

abbrev pub is_digit : ℕ → Bool
is_digit c = leb 48 c && leb c 57

-- `atoi` of digits.
unfoldable pub atoi : ℕ → Bytes → ℕ
atoi n [] = n
atoi n (c ∷ r) = let rest = atoi (n * 10 + (c - 48)) r in if is_digit c then rest else n

-- The item of this number, from `ct` on.
unfoldable pub numbered : ℕ → ℕ → List ℕ → ℕ
numbered num ct [] = 0
numbered num ct (x ∷ r) = let rest = numbered num (ct + 1) r in if num == ct then x else rest

abbrev starts_with_digit : Bytes → Bool
starts_with_digit [] = false
starts_with_digit (c ∷ _) = is_digit c

abbrev is_blank : Bytes → Bool
is_blank [] = true
is_blank (_ ∷ _) = false

unfoldable pub get_crule : Option Bytes → Clones → ℕ
unfolding first_of atoi numbered
get_crule none s = 0
get_crule (some mask) s =
    let found =
      first_of (λ r. not (is_blank (s.rule r).mask) && same_name mask (s.rule r).mask) s.rules in
    if not (found == 0)
    then found
    else if starts_with_digit mask
    then numbered (atoi 0 mask) 1 s.rules
    else 0

-- "user@host" in a buffer of `HOSTLEN + USERLEN + 10`.
abbrev pub make_user_host : Bytes → Bytes → Bytes
make_user_host user host = take 84 (user ++ 64 ∷ host)

module _ (matches : Bytes → Bytes → Bool) where
  unfoldable pub get_crule_match : Bytes → Clones → ℕ
  unfolding first_of
  get_crule_match host s = first_of (λ r. matches (s.rule r).mask host) s.rules

  -- A value of 0 or 1 means the default.
  abbrev or_default : ℕ → ℕ → ℕ
  or_default value default = if ltb 1 value then value else default

  -- The user names of one host.
  unfoldable pub update_users : ℕ → ℕ → ℕ → Rule → ℕ → Clones → Clones
  update_users zero uc utrigger rule hc s = s
  update_users (suc fuel) uc utrigger rule hc s =
      let h = s.host hc in
      let u = s.user uc in
      let applied =
        with_user uc (record u { trigger = or_default rule.utrigger defuserclonetrigger })
          (with_host hc
            (record h { trigger = or_default rule.trigger defhostclonetrigger; flags = rule.flags })
            s) in
      let in_sync = u.trigger == utrigger || u.trigger == defuserclonetrigger in
      let s' =
        (if in_sync && matches rule.mask (make_user_host u.user h.host) then applied else s) in
      let rest = update_users fuel (h.users.next uc) utrigger rule hc s' in
      if uc == 0 then s else rest

  unfoldable pub update_host : ℕ → Rule → Rule → ℕ → Clones → Clones
  unfolding update_users
  update_host fuel orig rule hc s =
      let h = s.host hc in
      let out_of_sync =
        (not (h.trigger == orig.trigger) && not (h.trigger == defhostclonetrigger))
        || (not (h.flags == 0) && not (h.flags == orig.flags)) in
      let applied =
        with_host hc
          (record h { trigger = or_default rule.trigger defhostclonetrigger; flags = rule.flags })
          s in
      let s' = (if matches rule.mask (make_user_host (42 ∷ []) h.host) then applied else s) in
      if out_of_sync then s else update_users fuel h.users.first orig.utrigger rule hc s'

  unfoldable pub update_hosts : ℕ → ℕ → Rule → Rule → Clones → Clones
  unfolding update_host
  update_hosts zero hc orig rule s = s
  update_hosts (suc fuel) hc orig rule s =
      let rest =
        update_hosts fuel (s.listed.main.next hc) orig rule (update_host fuel orig rule hc s) in
      if hc == 0 then s else rest

  unfoldable pub update_crule : ℕ → Rule → ℕ → Clones → Clones
  unfolding update_hosts
  update_crule fuel orig rule s =
      if rule == 0 then s else update_hosts fuel s.listed.main.first orig (s.rule rule) s

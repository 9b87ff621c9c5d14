-- ===== src/Akill.antt =====
-- services/akill.c: autokills, ignores and autohurts, in one list whose newest entry is first. A text is
-- the list of its bytes. The links of the list are those of a plain list; an expiry is a timer of Timer. What
-- other parts say of the one who removes an entry, `match` and the comparison of the C library without
-- regard to case are parameters; what is sent, mailed and done to users is left out.
pub mod Removal
pub mod Compare
pub mod Exact
mod Examples
use Prim.Native.Nat.{bit_and}
use snservices.Base.{
  ℕ, zero, suc, ◌+◌, ◌-◌, ◌||◌, Bool, true, false, not, ◌&&◌, Option, none, some, List, [], ◌∷◌,
  ◌==◌, if◌then◌else◌, Bytes, take,
}
use snservices.Base.Int.{ℤ, pos, negsuc}
use snservices.Timer.{Timers, Call, timer, cancel_timer}

pub record AkillItem : Type 0 where
  pub id : ℕ
  pub nick : Bytes
  pub user : Option Bytes
  pub host : Option Bytes
  pub set : ℕ
  pub unset : ℕ
  pub setby : Bytes
  pub reason : Bytes
  pub kind : ℕ
  pub tid : ℕ

-- `firstBanItem`, `top_akill_stamp` and the timers.
pub record Akills : Type 0 where
  pub first : List AkillItem
  pub top_akill_stamp : ℕ
  pub timers : Timers

-- A mask cut at each `!` and `@`: `user` is what stands behind the last `!`, `host` behind the last `@`.
pub record Parts : Type 0 where
  pub nick : Bytes
  pub user : Option Bytes
  pub host : Option Bytes

-- Up to the next byte that is cut out.
pub piece : Bytes → Bytes
piece [] = []
piece (c ∷ r) = let rest = piece r in if c == 33 then [] else if c == 64 then [] else c ∷ rest

pub behind_last : ℕ → Bytes → Option Bytes
unfolding piece
behind_last sep [] = none
behind_last sep (c ∷ r) =
    let here = (if c == sep then some (piece r) else none) in
    elim (behind_last sep r) [ none ↦ here | some p ↦ some p ]

unfoldable pub split_mask : Bytes → Parts
unfolding piece behind_last
split_mask mask = record {
  nick = piece mask;
  user = behind_last 33 mask;
  host = behind_last 64 mask;
}

-- `!strcmp(s, t)`
unfoldable pub equal_text : Bytes → Bytes → Bool
equal_text [] [] = true
equal_text [] (_ ∷ _) = false
equal_text (_ ∷ _) [] = false
equal_text (a ∷ s) (c ∷ t) = let rest = equal_text s t in if a == c then rest else false

-- The same where either may be NULL, which is then read: nothing.
abbrev pub equal_part : Option Bytes → Option Bytes → Option Bool
equal_part none t = none
equal_part (some s) none = none
equal_part (some s) (some t) = some (equal_text s t)

abbrev pub and_then : Option Bool → Option Bool → Option Bool
and_then none b = none
and_then (some false) b = some false
and_then (some true) b = b

pub same_mask : Parts → AkillItem → Option Bool
unfolding equal_text
same_mask p ak =
    and_then (equal_part p.host ak.host)
      (and_then (equal_part p.user ak.user) (some (equal_text p.nick ak.nick)))

-- What a removal does: it reads through NULL, or returns with the entries and timers after.
pub data Outcome : Type 0 where
  fault : Outcome
  returned : ℤ → Akills → Outcome

abbrev pub akreason_len : ℕ
akreason_len = 255

-- `autoremoveakill`, as a function of a timer.
abbrev pub autoremove : ℕ
autoremove = 1

-- The entry as it stands in the list, given the number of its timer.
unfoldable pub new_akill : ℕ → ℕ → Bytes → Bytes → ℕ → Bytes → ℕ → ℕ → AkillItem
unfolding split_mask
new_akill now length mask by kind reason id tid =
    let p = split_mask mask in
    record {
      id = id;
      nick = p.nick;
      user = p.user;
      host = p.host;
      set = now;
      unset = if length == 0 then 0 else now + length;
      setby = by;
      reason = take (akreason_len - 1) reason;
      kind = kind;
      tid = tid;
    }

-- The number of the timer, 0 for none, and the timers with it.
unfoldable pub expire_in : Call → ℕ → ℕ → ℕ → Timers → ℕ × Timers
unfolding timer
expire_in call now dup zero timers = (0, timers)
expire_in call now dup (suc n) timers = timer call now (pos (suc n)) autoremove dup timers

-- `dup` is the address of the copy of the mask that the timer gets.
unfoldable pub addakill : Call → ℕ → ℕ → ℕ → Bytes → Bytes → ℕ → Bytes → Akills → Akills
unfolding new_akill expire_in
addakill call now dup length mask by kind reason s =
    let id = s.top_akill_stamp + 1 in
    let timed = expire_in call now dup length s.timers in
    record {
      first = new_akill now length mask by kind reason id timed.0 ∷ s.first;
      top_akill_stamp = id;
      timers = timed.1;
    }

-- The answer of `getBanInfo`, or a read through NULL.
pub data Looked : Type 0 where
  read_through : Looked
  answer : Option AkillItem → Looked

-- The entries without one, given the one found and what comes before it; or a read through NULL.
pub data Search : Type 0 where
  null_read : Search
  missing : Search
  denied : Search
  found : AkillItem → List AkillItem → Search

abbrev pub keep_front : AkillItem → Search → Search
keep_front ak null_read = null_read
keep_front ak missing = missing
keep_front ak denied = denied
keep_front ak (found x l) = found x (ak ∷ l)

module _ (match : Bytes → Bytes → ℕ) (nocase : Bytes → Bytes → Bool) (lacks_oakill : Bytes → Bool)
    (operserv : Bytes) where
  -- `!match(mask, text)`; a mask that is NULL is read: nothing.
  abbrev pub fits : Option Bytes → Bytes → Option Bool
  fits none text = none
  fits (some mask) text = some (match mask text == 0)

  unfoldable pub covers : Bytes → Bytes → Bytes → ℕ → AkillItem → Option Bool
  covers nick user host kind ak = and_then (some (match ak.nick nick == 0)) (
      and_then (fits ak.user user)
        (and_then (fits ak.host host) (some (not (bit_and ak.kind kind == 0)))))

  -- The first entry, in a build with autohurts (ENABLE_AHURT), that the masks fit and that has a bit of `kind`.
  unfoldable pub get_ban_info : Bytes → Bytes → Bytes → ℕ → List AkillItem → Looked
  unfolding covers
  get_ban_info nick user host kind [] = answer none
  get_ban_info nick user host kind (ak ∷ r) =
      let rest = get_ban_info nick user host kind r in
      elim (covers nick user host kind ak) [
        | none ↦ read_through
        | some fit ↦ if fit then answer (some ak) else rest
      ]

  -- Whether `from` may not remove the entry.
  abbrev pub is_denied : Bytes → AkillItem → Bool
  is_denied from ak = not (nocase from operserv) && not (nocase from ak.setby) && lacks_oakill from

  -- The loop of `removeAkill`: the first entry of the mask decides.
  unfoldable pub find_akill : Bytes → Parts → List AkillItem → Search
  unfolding same_mask
  find_akill from p [] = missing
  find_akill from p (ak ∷ r) =
      let rest = find_akill from p r in
      elim (same_mask p ak) [
        | none ↦ null_read
        | some same ↦
            if same then (if is_denied from ak then denied else found ak r) else keep_front ak rest
      ]

  -- That of `removeAkillType`: only entries of the type count, any if it is 0, and a refusal goes on.
  unfoldable pub find_akill_type : Bytes → ℕ → Parts → List AkillItem → Search
  unfolding same_mask
  find_akill_type from kind p [] = missing
  find_akill_type from kind p (ak ∷ r) =
      let rest = keep_front ak (find_akill_type from kind p r) in
      if ak.kind == kind || kind == 0
      then (elim (same_mask p ak) [
        | none ↦ null_read
        | some same ↦ if same then (if is_denied from ak then rest else found ak r) else rest
      ])
      else rest

  -- Behind the loop. The timer is not cancelled if OperServ removes the entry.
  unfoldable pub finish : Bytes → Search → Akills → Outcome
  unfolding cancel_timer equal_text
  finish from null_read s = fault
  finish from missing s = returned (negsuc 0) s
  finish from denied s = returned (negsuc 0) s
  finish from (found ak rest) s = returned (pos 0) (record s {
    first = rest;
    timers = if equal_text from operserv then s.timers else (cancel_timer ak.tid s.timers).1;
  })

  unfoldable pub remove_akill : Bytes → Bytes → Akills → Outcome
  unfolding find_akill finish split_mask
  remove_akill from mask s = finish from (find_akill from (split_mask mask) s.first) s

  unfoldable pub remove_akill_type : Bytes → Bytes → ℕ → Akills → Outcome
  unfolding find_akill_type finish split_mask
  remove_akill_type from mask kind s =
      finish from (find_akill_type from kind (split_mask mask) s.first) s

  abbrev pub auto_remove_akill : Bytes → Akills → Outcome
  auto_remove_akill mask s = remove_akill operserv mask s

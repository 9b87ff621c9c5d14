-- ===== src/Clone/Signon.antt =====
-- A client signs on, services/clone.c: addClone, which counts it, and tells of clones or kills them. The
-- addresses that the allocation hands out are arguments.
use Prim.Native.Nat.{bit_or}
use snservices.Base.{
  ℕ, ◌+◌, Bool, true, false, not, ◌&&◌, ◌||◌, Option, none, some, [], leb, ◌==◌, if◌then◌else◌,
  Bytes,
}
use snservices.Clone.{
  Clones, kill, warning, with_host, with_user, with_alert, find_palert, add_palert, has, unset,
  clone_killflag, clone_ignoreflag, clone_ok, clone_alert,
}
use snservices.Clone.Rules.{make_user_host, get_crule_match}
use snservices.Clone.Hosts.{
  send, new_alert, update_clone_alerts, add_user_clone, del_clone, count_on,
}

abbrev pub has_warning : Option Bytes → Bool
has_warning none = false
has_warning (some _) = true

-- `uflags &= ~CLONE_OK; uflags |= CLONE_ALERT;`
abbrev pub alerted : ℕ → ℕ
alerted flags = bit_or (unset flags clone_ok) clone_alert

abbrev message_or_blank : Option Bytes → Bytes
message_or_blank none = []
message_or_blank (some m) = m

-- The warning to the host, when the first client too many comes.
unfoldable pub warn_host : (Bytes → Bytes → Bool) → ℕ → ℕ → Bytes → Bytes → Clones → Clones
unfolding get_crule_match
warn_host matches hc uc user host s =
    let h = s.host hc in
    let u = s.user uc in
    let r = get_crule_match matches (make_user_host user host) s in
    let msg = (s.rule r).warn_msg in
    if not (r == 0) && has_warning msg && (u.clones == u.trigger + 1 || h.clones == h.trigger + 1)
    then send (warning host (message_or_blank msg)) s
    else s

-- A new alert of the host in front of the others, or the one it has, with the kinds of alert.
unfoldable pub raise_alert : ℕ → ℕ → ℕ → Bool → Bool → Clones → Clones
unfolding add_palert
raise_alert found new hc user_alert host_alert s =
    let made = (if found == 0 then add_palert new (with_alert new (new_alert hc s.now) s) else s) in
    let a = (if found == 0 then new else found) in
    let p = made.alert a in
    with_alert a (record p { ua = p.ua || user_alert; ha = p.ha || host_alert }) made

-- From the flags of the user name and of the host on.
unfoldable pub alert_clones : ℕ → ℕ → ℕ → ℕ → Clones → Clones
unfolding find_palert raise_alert update_clone_alerts
alert_clones fuel new hc uc s =
    let h = s.host hc in
    let u = s.user uc in
    let user_alert = leb u.trigger u.clones && not (has u.uflags clone_alert) in
    let host_alert = leb h.trigger h.clones && not (has h.flags clone_alert) in
    let s1 = (if user_alert then with_user uc (record u { uflags = alerted u.uflags }) s else s) in
    let s2 = (if host_alert then with_host hc (record h { flags = alerted h.flags }) s1 else s1) in
    let found = find_palert hc s2 in
    let p = s2.alert found in
    let s3 =
      (if found == 0
        then s2
        else with_alert found
            (record p { signon_ct = p.signon_ct + 1; signon_ct_r = p.signon_ct_r + 1 }) s2) in
    let s4 =
      (if user_alert || host_alert
        then raise_alert found new hc user_alert host_alert s3
        else s3) in
    update_clone_alerts fuel s4.alerts s4

-- The answer says whether the client was killed. `hc`, `uc` and `pa` are new addresses.
unfoldable pub add_clone :
    (Bytes → Bytes → Bool) → ℕ → ℕ → ℕ → ℕ → Bytes → Bytes → Bytes → Clones → Bool × Clones
unfolding get_crule_match count_on add_user_clone del_clone warn_host alert_clones
add_clone matches fuel new_hc new_uc new_pa nick user host s =
    let (hc, s1) = count_on matches fuel new_hc user host s in
    let (uc, s2) = add_user_clone matches fuel hc new_uc user s1 in
    let h = s2.host hc in
    let u = s2.user uc in
    let over = leb h.trigger h.clones || leb u.trigger u.clones in
    let r = get_crule_match matches (make_user_host user host) s2 in
    let reason = (if r == 0 then none else (s2.rule r).kill_msg) in
    if has h.flags clone_ignoreflag
    then (false, s2)
    else if over && has h.flags clone_killflag
    then (true, del_clone matches fuel user host (send (kill nick reason) s2))
    else (
      false,
      alert_clones fuel new_pa hc uc (if over then warn_host matches hc uc user host s2 else s2),
    )

-- ===== src/Clone/Hosts.antt =====
-- Clients that come and go, services/clone.c: the hosts with their user names, and the alerts. The addresses
-- that the allocation hands out are arguments; walks run on fuel. The rate of an alert, a `float`, is
-- compared with .03 only over less than 90 seconds, where the comparison of whole numbers is exact.
use snservices.Base.{
  ℕ, zero, suc, ◌+◌, ◌-◌, ◌*◌, Bool, false, not, ◌&&◌, ◌||◌, List, [], ◌∷◌, ltb, leb, ◌==◌,
  if◌then◌else◌, Bytes,
}
use snservices.Registry.{append, remove}
use snservices.Registry.Names.{same_name, key}
use snservices.Registry.Table.{walk, find, enlist, delist}
use snservices.Clone.{
  Clones, HostClone, UserClone, Alert, Message, host_clones, user_clones, host_cell, user_cell,
  alert_cell, with_host, with_user, with_alert, free_cell, find_palert, remove_palert, has, unset,
  clone_ok, clone_alert, defhostclonetrigger, defuserclonetrigger,
}
use snservices.Clone.Rules.{make_user_host, get_crule_match}

abbrev pub clonehashsize : ℕ
clonehashsize = 1009

abbrev pub host_hash : Clones → ℕ → ℕ
host_hash s n = key clonehashsize (s.host n).host

-- What is sent.
abbrev pub send : Message → Clones → Clones
send m s = record s { sent = m ∷ s.sent }

-- Blank records as they are made.
abbrev pub init_clone_data : HostClone
init_clone_data = record {
  host = [];
  users = record { first = 0; last = 0; next = λ n. 0; prev = λ n. 0 };
  trigger = defhostclonetrigger;
  clones = 0;
  flags = 0;
}

abbrev pub new_alert : ℕ → ℕ → Alert
new_alert hc now = record {
  hc = hc;
  ha = false;
  ua = false;
  signon_ct = 0;
  signoff_ct = 0;
  signon_ct_r = 0;
  signoff_ct_r = 0;
  first_time = now;
  last_alert = 0;
}

-- Whether an alert is passed over for now.
unfoldable pub passed_over : ℕ → Alert → Bool
passed_over now a =
    let d = now - a.last_alert in
    (now == a.last_alert || leb now (a.last_alert + 10))
    || (a.signon_ct_r == 0 && ltb d 1200)
    || ((ltb d 90 && not (a.last_alert == 0))
        && ltb (100 * a.signon_ct_r) (3 * d + 100 * a.signoff_ct_r))
    || (not (a.last_alert == 0) && ltb a.signon_ct a.signoff_ct)

-- Along the user names: a message for each that is over its trigger.
unfoldable pub warn_users : ℕ → ℕ → HostClone → Clones → Clones
warn_users zero uc h s = s
warn_users (suc fuel) uc h s =
    let u = s.user uc in
    let quiet = not (has u.uflags clone_alert) || has u.uflags clone_ok || ltb u.clones u.trigger in
    let s' = (if quiet then s else send (user_clones u.clones u.trigger u.user h.host) s) in
    let rest = warn_users fuel (h.users.next uc) h s' in if uc == 0 then s else rest

unfoldable pub update_alert : ℕ → ℕ → Clones → Clones
unfolding passed_over warn_users
update_alert fuel a s =
    let p = s.alert a in
    let h = s.host p.hc in
    let told =
      with_alert a (record p { last_alert = s.now; signon_ct_r = 0; signoff_ct_r = 0 }) s in
    let loud = has h.flags clone_alert && not (has h.flags clone_ok) && leb h.trigger h.clones in
    let s' = (if loud then send (host_clones h.clones h.trigger h.host) told else told) in
    if passed_over s.now p then s else warn_users fuel h.users.first h s'

-- `updateCloneAlerts`: along the alerts.
unfoldable pub update_clone_alerts : ℕ → List ℕ → Clones → Clones
unfolding update_alert
update_clone_alerts fuel [] s = s
update_clone_alerts fuel (a ∷ r) s = update_clone_alerts fuel r (update_alert fuel a s)

module _ (matches : Bytes → Bytes → Bool) (fuel : ℕ) where
  unfoldable pub get_clone_data : Bytes → Clones → ℕ
  unfolding find
  get_clone_data host s =
      find (key clonehashsize host) (λ n. same_name host (s.host n).host) fuel s.listed

  unfoldable pub get_user_clone_data : ℕ → Bytes → Clones → ℕ
  unfolding walk
  get_user_clone_data hc user s =
      let d = (s.host hc).users in walk (λ n. same_name (s.user n).user user) fuel d.first d.next

  -- The record of a user name that is new on its host.
  unfoldable pub make_user_clone : ℕ → ℕ → Bytes → Clones → Clones
  unfolding get_crule_match append
  make_user_clone hc uc user s =
      let h = s.host hc in
      let r = get_crule_match matches (make_user_host user h.host) s in
      let rule = s.rule r in
      let u : UserClone = record {
        user = user;
        clones = 1;
        trigger =
            if not (r == 0) && ltb 0 rule.utrigger then rule.utrigger else defuserclonetrigger;
        uflags = 0;
      } in
      let plain = not (r == 0) && h.trigger == defhostclonetrigger && h.flags == 0 in
      with_user uc u (
        with_host hc
          (record h {
            users = append uc h.users;
            trigger = if plain && ltb 1 rule.trigger then rule.trigger else h.trigger;
            flags = if plain then rule.flags else h.flags;
          })
          s)

  -- The record is found or made, and counts one client more.
  unfoldable pub add_user_clone : ℕ → ℕ → Bytes → Clones → ℕ × Clones
  unfolding get_user_clone_data make_user_clone
  add_user_clone hc new_user user s =
      let uc = get_user_clone_data hc user s in
      if uc == 0
      then (new_user, make_user_clone hc new_user user s)
      else (uc, with_user uc (record (s.user uc) { clones = (s.user uc).clones + 1 }) s)

  unfoldable pub del_user_clone : ℕ → ℕ → Clones → Clones
  unfolding remove
  del_user_clone hc uc s =
      let h = s.host hc in
      free_cell (user_cell uc) (with_host hc (record h { users = remove uc h.users }) s)

  -- One client of the host and of the user name less; a name that nobody has goes.
  unfoldable pub count_off : ℕ → ℕ → Clones → Clones
  unfolding del_user_clone
  count_off hc uc s =
      let h = s.host hc in
      let u = s.user uc in
      let s' =
        with_user uc (record u { clones = u.clones - 1 })
          (with_host hc (record h { clones = h.clones - 1 }) s) in
      if u.clones - 1 == 0 then del_user_clone hc uc s' else s'

  -- The alert of a host that still has clients. The fields of `uc` are read even if it was freed.
  unfoldable pub quiet_alert : ℕ → ℕ → Clones → Clones
  unfolding find_palert remove_palert
  quiet_alert hc uc s =
      let a = find_palert hc s in
      let p = s.alert a in
      let h = s.host hc in
      let u = s.user uc in
      let s' =
        with_alert a (record p { signoff_ct = p.signoff_ct + 1; signoff_ct_r = p.signoff_ct_r + 1 })
          s in
      let over =
        ltb h.clones h.trigger && ltb u.clones u.trigger && ltb 30 (s.now - p.first_time) in
      let gone =
        with_user uc (record u { uflags = unset u.uflags clone_alert })
          (free_cell (alert_cell a) (remove_palert a s')) in
      if a == 0 then s else if over then gone else s'

  -- The host itself goes, with its alert.
  unfoldable pub del_host : ℕ → Clones → Clones
  unfolding find_palert remove_palert delist
  del_host hc s =
      let a = find_palert hc s in
      let h = s.host hc in
      let s' =
        (if a == 0
          then s
          else with_host hc (record h { flags = unset h.flags clone_alert })
              (free_cell (alert_cell a) (remove_palert a s))) in
      free_cell (host_cell hc) (record s' { listed = delist (host_hash s') fuel hc s'.listed })

  unfoldable pub del_clone : Bytes → Bytes → Clones → Clones
  unfolding get_clone_data get_user_clone_data count_off quiet_alert del_host
  del_clone user host s =
      let hc = get_clone_data host s in
      let uc = get_user_clone_data hc user s in
      let s' = count_off hc uc s in
      if hc == 0 || uc == 0
      then s
      else if (s'.host hc).clones == 0
      then del_host hc s'
      else quiet_alert hc uc s'

  -- The record of a host that is new.
  unfoldable pub make_host : ℕ → Bytes → Bytes → Clones → Clones
  unfolding get_crule_match enlist
  make_host hc user host s =
      let r = get_crule_match matches (make_user_host user host) s in
      let rule = s.rule r in
      let h : HostClone = record init_clone_data {
        host = host;
        clones = 1;
        trigger = if not (r == 0) && ltb 1 rule.trigger then rule.trigger else defhostclonetrigger;
        flags = if r == 0 then 0 else rule.flags;
      } in
      let s' = with_host hc h s in record s' { listed = enlist (host_hash s') hc s'.listed }

  -- The host is found or made, and counts one client more.
  unfoldable pub count_on : ℕ → Bytes → Bytes → Clones → ℕ × Clones
  unfolding get_clone_data make_host
  count_on new_host user host s =
      let hc = get_clone_data host s in
      let h = s.host hc in
      if hc == 0
      then (new_host, make_host new_host user host s)
      else (hc, with_host hc (record h { clones = h.clones + 1 }) s)

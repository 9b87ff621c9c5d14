-- ===== src/Clone/Lists.antt =====
-- The single lists of services/clone.c: rules that are added and removed, and alerts that are told once.
use snservices.Base.{
  ℕ, zero, suc, ◌+◌, ◌<◌, ◌≡◌, refl, sym, ap, ◌∙◌, inl, inr, Bool, true, false, not, ◌&&◌, ◌||◌,
  Option, none, some, List, [], ◌∷◌, leb, ◌==◌, if◌then◌else◌, All, Bool-cases, ==_iff, subst,
  subst₂, false≢true,
}
use snservices.Registry.Chain.{NotIn, ne_sym, set_same, set_other}
use snservices.Registry.Refine.{pos_test}
use snservices.Clone.{
  Clones, Alert, HostClone, remove_item, is_there, insert_rule, at_front, no_items, add_crule,
  remove_crule, with_alert, has, clone_alert, clone_ok, Message, host_clones,
}
use snservices.Clone.Hosts.{passed_over, warn_users, update_alert, update_clone_alerts, send}

is_there-NotIn : (n : ℕ) (xs : List ℕ) → is_there n xs ≡ false → NotIn n xs
unfolding is_there
is_there-NotIn n [] h = tt
is_there-NotIn n (x ∷ r) h = elim (Bool-cases (n == x)) [
  | inl e ↦ absurd (false≢true (sym (rw e at h)))
  | inr e ↦ (ne_sym n x e, is_there-NotIn n r (rw e at h))
]

remove_item-head : (n : ℕ) (xs : List ℕ) → remove_item n (n ∷ xs) ≡ xs
unfolding remove_item
remove_item-head n xs = let e : (n == n) ≡ true = (==_iff n n).1 refl in rw e refl

remove_item-tail :
    (n x : ℕ) (xs ys : List ℕ)
    → (x == n) ≡ false
    → remove_item n xs ≡ ys
    → remove_item n (x ∷ xs) ≡ x ∷ ys
unfolding remove_item
remove_item-tail n x xs ys e f = rw e (ap (◌∷◌ x) f)

remove_item-insert_rule :
    (rule : ℕ) (n : Option ℕ) (ct x : ℕ) (xs : List ℕ)
    → NotIn rule (x ∷ xs)
    → remove_item rule (insert_rule rule n ct (x ∷ xs)) ≡ x ∷ xs
unfolding insert_rule
remove_item-insert_rule rule n ct x [] (h, hs) =
    remove_item-tail rule x (rule ∷ []) [] h (remove_item-head rule [])
remove_item-insert_rule rule none ct x (y ∷ r) (h, hs) =
    remove_item-tail rule x _ (y ∷ r) h (remove_item-insert_rule rule none (ct + 1) y r hs)
remove_item-insert_rule rule (some n) ct x (y ∷ r) (h, hs) = elim (Bool-cases (leb n (ct + 1))) [
  | inl e ↦ rw e (remove_item-tail rule x (rule ∷ y ∷ r) (y ∷ r) h (remove_item-head rule (y ∷ r)))
  | inr e ↦
      rw e (
        remove_item-tail rule x _ (y ∷ r) h (remove_item-insert_rule rule (some n) (ct + 1) y r hs))
]

-- A rule that is not NULL and not in the list, added at any place and removed again, leaves the list of rules as it was.
pub remove_crule-add_crule :
    (rule : ℕ) (n : Option ℕ) (s : Clones)
    → 0 < rule
    → is_there rule s.rules ≡ false
    → (remove_crule rule (add_crule rule n s)).rules ≡ s.rules
unfolding remove_crule add_crule
remove_crule-add_crule rule n s pos h = rw (pos_test rule pos, h) (places s.rules h)
  where
    at_place :
        (b : Bool) (x : ℕ) (xs : List ℕ)
        → NotIn rule (x ∷ xs)
        → remove_item rule (if b then rule ∷ x ∷ xs else insert_rule rule n 1 (x ∷ xs)) ≡ x ∷ xs
    at_place true x xs k = remove_item-head rule (x ∷ xs)
    at_place false x xs k = remove_item-insert_rule rule n 1 x xs k

    to_front :
        (b : Bool)
        → remove_item rule (if b || true then rule ∷ [] else insert_rule rule n 1 []) ≡ []
    to_front true = remove_item-head rule []
    to_front false = remove_item-head rule []

    places :
        (xs : List ℕ)
        → is_there rule xs ≡ false
        → remove_item rule
            (if at_front n || no_items xs then rule ∷ xs else insert_rule rule n 1 xs)
          ≡ xs
    places [] k = to_front (at_front n)
    places (x ∷ r) k = at_place (at_front n || false) x r (is_there-NotIn rule (x ∷ r) k)

-- An alert that is passed over stays so while others are told.
abbrev Passed : Clones → ℕ → Type 0
Passed s a = passed_over s.now (s.alert a) ≡ true

-- The alerts and the time.
record Same (s t : Clones) : Type 0 where
  alert_eq : t.alert ≡ s.alert
  now_eq : t.now ≡ s.now

Same-sent : (s t : Clones) → t.alert ≡ s.alert → t.now ≡ s.now → Same s t
Same-sent s t e f = record { alert_eq = e; now_eq = f }

Same-if : (b : Bool) (s x y : Clones) → Same s x → Same s y → Same s (if b then x else y)
Same-if true s x y h k = h
Same-if false s x y h k = k

Same-after : (s t u : Clones) → Same s t → Same t u → Same s u
Same-after s t u h k = Same-sent s u (k.alert_eq ∙ h.alert_eq) (k.now_eq ∙ h.now_eq)

warn_users-Same : (fuel uc : ℕ) (h : HostClone) (s : Clones) → Same s (warn_users fuel uc h s)
unfolding warn_users
warn_users-Same zero uc h s = (Same-sent _ _ refl refl)
warn_users-Same (suc fuel) uc h s = Same-if (uc == 0) s s _ (Same-sent _ _ refl refl) (
    Same-after s _ _ (Same-if _ s s (send _ s) (Same-sent _ _ refl refl) (Same-sent _ _ refl refl))
      (warn_users-Same fuel (h.users.next uc) h _))

-- What an alert becomes when it is told.
abbrev told : ℕ → Alert → Alert
told now p = record p { last_alert = now; signon_ct_r = 0; signoff_ct_r = 0 }

told-Passed : (now : ℕ) (p : Alert) → passed_over now (told now p) ≡ true
unfolding passed_over
told-Passed now p = let e : (now == now) ≡ true = (==_iff now now).1 refl in rw e refl

update_alert-told :
    (fuel a : ℕ) (s : Clones)
    → passed_over s.now (s.alert a) ≡ false
    → Same (with_alert a (told s.now (s.alert a)) s) (update_alert fuel a s)
unfolding update_alert
update_alert-told fuel a s e = rw e (
    Same-after t sent (warn_users fuel h.users.first h sent)
      (Same-if loud t (send m t) t (Same-sent t (send m t) refl refl) (Same-sent t t refl refl))
      (warn_users-Same fuel h.users.first h sent))
  where
    t : Clones
    t = with_alert a (told s.now (s.alert a)) s

    h : HostClone
    h = s.host (s.alert a).hc

    loud : Bool
    loud = has h.flags clone_alert && not (has h.flags clone_ok) && leb h.trigger h.clones

    m : Message
    m = host_clones h.clones h.trigger h.host

    sent : Clones
    sent = if loud then send m t else t

update_alert_idle : (fuel a : ℕ) (s : Clones) → Passed s a → update_alert fuel a s ≡ s
unfolding update_alert
update_alert_idle fuel a s e = rw e refl

Passed-Same : (s t : Clones) (a : ℕ) → Same s t → Passed s a → Passed t a
Passed-Same s t a e h =
    subst₂ (λ al n. passed_over n (al a) ≡ true) (sym e.alert_eq) (sym e.now_eq) h

told_first : (a : ℕ) (s : Clones) → Passed (with_alert a (told s.now (s.alert a)) s) a
told_first a s =
    subst (λ p. passed_over s.now p ≡ true) (sym (set_same s.alert a (told s.now (s.alert a))))
      (told-Passed s.now (s.alert a))

told_other :
    (a b : ℕ) (s : Clones) → Passed s b → Passed (with_alert a (told s.now (s.alert a)) s) b
told_other a b s h = elim (Bool-cases (b == a)) [
  | inl e ↦
      subst (Passed (with_alert a (told s.now (s.alert a)) s)) (sym ((==_iff b a).0 e))
        (told_first a s)
  | inr e ↦
      subst (λ p. passed_over s.now p ≡ true)
        (sym (set_other s.alert a b (told s.now (s.alert a)) e)) h
]

update_alert-Passed : (fuel a b : ℕ) (s : Clones) → Passed s b → Passed (update_alert fuel a s) b
update_alert-Passed fuel a b s h = elim (Bool-cases (passed_over s.now (s.alert a))) [
  | inl e ↦ subst (λ t. Passed t b) (sym (update_alert_idle fuel a s e)) h
  | inr e ↦ Passed-Same _ _ b (update_alert-told fuel a s e) (told_other a b s h)
]

update_alert_self : (fuel a : ℕ) (s : Clones) → Passed (update_alert fuel a s) a
update_alert_self fuel a s = elim (Bool-cases (passed_over s.now (s.alert a))) [
  | inl e ↦ subst (λ t. Passed t a) (sym (update_alert_idle fuel a s e)) e
  | inr e ↦ Passed-Same _ _ a (update_alert-told fuel a s e) (told_first a s)
]

update-keeps :
    (fuel : ℕ) (xs : List ℕ) (b : ℕ) (s : Clones)
    → Passed s b
    → Passed (update_clone_alerts fuel xs s) b
unfolding update_clone_alerts
update-keeps fuel [] b s h = h
update-keeps fuel (a ∷ r) b s h =
    update-keeps fuel r b (update_alert fuel a s) (update_alert-Passed fuel a b s h)

update-All : (fuel : ℕ) (xs : List ℕ) (s : Clones) → All (Passed (update_clone_alerts fuel xs s)) xs
unfolding update_clone_alerts
update-All fuel [] s = tt
update-All fuel (a ∷ r) s = (
  update-keeps fuel r a (update_alert fuel a s) (update_alert_self fuel a s),
  update-All fuel r (update_alert fuel a s),
)

update_clone_alerts_idle :
    (fuel : ℕ) (xs : List ℕ) (s : Clones) → All (Passed s) xs → update_clone_alerts fuel xs s ≡ s
unfolding update_clone_alerts
update_clone_alerts_idle fuel [] s h = refl
update_clone_alerts_idle fuel (a ∷ r) s (h, hs) =
    ap (update_clone_alerts fuel r) (update_alert_idle fuel a s h)
    ∙ update_clone_alerts_idle fuel r s hs

-- Alerts are told once: when `updateCloneAlerts` runs again over the same alerts at the same time, it changes
-- nothing and sends nothing.
pub update_clone_alerts_again :
    (fuel : ℕ) (xs : List ℕ) (s : Clones)
    → update_clone_alerts fuel xs (update_clone_alerts fuel xs s) ≡ update_clone_alerts fuel xs s
update_clone_alerts_again fuel xs s =
    update_clone_alerts_idle fuel xs (update_clone_alerts fuel xs s) (update-All fuel xs s)

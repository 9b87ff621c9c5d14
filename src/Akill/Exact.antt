-- ===== src/Akill/Exact.antt =====
-- Which entry `removeAkill` and `removeAkillType` of services/akill.c take out, whose timer they cancel, and
-- when they refuse.
use snservices.Base.{
  ℕ, ◌≡◌, ◌≢◌, ◌⊎◌, inl, inr, refl, sym, ◌∙◌, Bool, true, false, false≢true, some, List, [], ◌∷◌,
  Bytes, All, Bool-cases,
}
use snservices.Base.Int.{pos, negsuc}
use snservices.Timer.{cancel_timer}
use snservices.Akill.{
  AkillItem, Akills, Parts, behind_last, piece, split_mask, Outcome, returned, Search, null_read,
  missing, denied, found, keep_front, is_denied, find_akill, find_akill_type, finish, remove_akill,
  remove_akill_type,
}
use snservices.Akill.Removal.{equal_text_refl}
use snservices.Akill.Compare.{IsFull, SameMask, compare_texts, compared, of_kind}

-- The second list is the first without its first item of `P`.
pub data Without (P : AkillItem → Type 0)
    : List AkillItem → AkillItem → List AkillItem → Type 0 where
  here : {ak : AkillItem} {r : List AkillItem} → P ak → Without P (ak ∷ r) ak r
  further :
      {ak x : AkillItem} {r l : List AkillItem}
      → ¬ P ak
      → Without P r x l
      → Without P (ak ∷ r) x (ak ∷ l)

-- What a search for the first entry of `P` comes to, if it may be taken out only as `Q` says.
data Judged (P Q : AkillItem → Type 0) : List AkillItem → Search → Type 0 where
  none_such : {l : List AkillItem} → All (λ ak. ¬ P ak) l → Judged P Q l missing
  turned_down :
      {ak : AkillItem} {l r : List AkillItem} → Without P l ak r → ¬ Q ak → Judged P Q l denied
  taken :
      {ak : AkillItem} {l r : List AkillItem} → Without P l ak r → Q ak → Judged P Q l (found ak r)

-- What a removal does: nothing, since there is no entry of `P`, or since the first may not be taken out;
-- or that entry is taken out, and its timer is cancelled, if it is not OperServ that removes it.
pub data Removes (P Q : AkillItem → Type 0) (from operserv : Bytes) (s : Akills)
    : Outcome → Type 0 where
  nothing : All (λ ak. ¬ P ak) s.first → Removes P Q from operserv s (returned (negsuc 0) s)
  refused :
      {ak : AkillItem} {r : List AkillItem}
      → Without P s.first ak r
      → ¬ Q ak
      → Removes P Q from operserv s (returned (negsuc 0) s)
  by_user :
      {ak : AkillItem} {r : List AkillItem}
      → Without P s.first ak r
      → Q ak
      → from ≢ operserv
      → Removes P Q from operserv s
          (returned (pos 0) (record s { first = r; timers = (cancel_timer ak.tid s.timers).1 }))
  by_operserv :
      {ak : AkillItem} {r : List AkillItem}
      → Without P s.first ak r
      → Q ak
      → from ≡ operserv
      → Removes P Q from operserv s (returned (pos 0) (record s { first = r }))

module _ {P Q : AkillItem → Type 0} where
  Judged-keep_front :
      (ak : AkillItem) (r : List AkillItem) (x : Search)
      → ¬ P ak
      → Judged P Q r x
      → Judged P Q (ak ∷ r) (keep_front ak x)
  Judged-keep_front ak r null_read n w = elim w [ ]
  Judged-keep_front ak r missing n (none_such h) = none_such (n, h)
  Judged-keep_front ak r denied n (turned_down w q) = turned_down (further n w) q
  Judged-keep_front ak r (found x l) n (taken w q) = taken (further n w) q

module _ (match : Bytes → Bytes → ℕ) (nocase : Bytes → Bytes → Bool) (lacks_oakill : Bytes → Bool)
    (operserv : Bytes) where
  -- OperServ and the one who made the entry may remove it, and who does not lack the flag.
  abbrev pub May : Bytes → AkillItem → Type 0
  May from ak =
      (nocase from operserv ≡ true) ⊎ (nocase from ak.setby ≡ true) ⊎ (lacks_oakill from ≡ false)

  abbrev pub Wanted : Bytes → ℕ → Parts → AkillItem → Type 0
  Wanted from kind p ak = ((ak.kind ≡ kind) ⊎ (kind ≡ 0)) × SameMask p ak × May from ak

  permission :
      (from : Bytes) (ak : AkillItem)
      → ((is_denied match nocase lacks_oakill operserv from ak ≡ false) × May from ak)
        ⊎ ((is_denied match nocase lacks_oakill operserv from ak ≡ true) × ¬ May from ak)
  permission from ak = elim (Bool-cases (nocase from operserv)) [
    | inl a ↦ inl (rw a refl, inl a)
    | inr a ↦ elim (Bool-cases (nocase from ak.setby)) [
      | inl b ↦ inl (rw (a, b) refl, inr (inl b))
      | inr b ↦ elim (Bool-cases (lacks_oakill from)) [
        | inr c ↦ inl (rw (a, b, c) refl, inr (inr c))
        | inl c ↦ inr (
          rw (a, b, c) refl,
          λ m. elim m [
            | inl d ↦ false≢true (sym a ∙ d)
            | inr (inl d) ↦ false≢true (sym b ∙ d)
            | inr (inr d) ↦ false≢true (sym d ∙ c)
          ],
        )
      ]
    ]
  ]

  module _ (from nick user host : Bytes) where
    abbrev full : Parts
    full = record { nick = nick; user = some user; host = some host }

    find_akill-Judged :
        (l : List AkillItem)
        → All IsFull l
        → Judged
            (SameMask full)
            (May from)
            l
            (find_akill match nocase lacks_oakill operserv from full l)
    unfolding find_akill
    find_akill-Judged [] h = none_such tt
    find_akill-Judged (ak ∷ r) (h, hs) = elim (compared nick user host ak h) [
      | inr (e, n) ↦ rw e (Judged-keep_front ak r _ n (find_akill-Judged r hs))
      | inl (e, q) ↦ elim (permission from ak) [
        | inl (d, m) ↦ rw (e, d) (taken (here q) m)
        | inr (d, m) ↦ rw (e, d) (turned_down (here q) m)
      ]
    ]

    find_akill_type-Judged :
        (kind : ℕ) (l : List AkillItem)
        → All IsFull l
        → Judged
            (Wanted from kind full)
            (λ ak. Unit)
            l
            (find_akill_type match nocase lacks_oakill operserv from kind full l)
    unfolding find_akill_type
    find_akill_type-Judged kind [] h = none_such tt
    find_akill_type-Judged kind (ak ∷ r) (h, hs) =
        let later = λ (n : ¬ Wanted from kind full ak).
          Judged-keep_front ak r _ n (find_akill_type-Judged kind r hs) in
        elim (of_kind ak.kind kind) [
          | inr (k, n) ↦ rw k (later (λ w. n w.0))
          | inl (k, t) ↦ elim (compared nick user host ak h) [
            | inr (e, n) ↦ rw (k, e) (later (λ w. n w.1))
            | inl (e, q) ↦ elim (permission from ak) [
              | inl (d, m) ↦ rw (k, e, d) (taken (here (t, q, m)) tt)
              | inr (d, n) ↦ rw (k, e, d) (later (λ w. n w.2))
            ]
          ]
        ]

    finish_uncancelled :
        (ak : AkillItem) (r : List AkillItem) (s : Akills)
        → from ≡ operserv
        → finish match nocase lacks_oakill operserv from (found ak r) s
          ≡ returned (pos 0) (record s { first = r })
    unfolding finish
    finish_uncancelled ak r s e = rw (e, equal_text_refl operserv) refl

    finish-Removes :
        (P Q : AkillItem → Type 0) (s : Akills) (x : Search)
        → Judged P Q s.first x
        → Removes P Q from operserv s (finish match nocase lacks_oakill operserv from x s)
    unfolding finish
    finish-Removes P Q s null_read w = elim w [ ]
    finish-Removes P Q s missing (none_such h) = nothing h
    finish-Removes P Q s denied (turned_down w q) = refused w q
    finish-Removes P Q s (found ak r) (taken w q) = elim (compare_texts from operserv) [
      | inl (e, t) ↦ rw (finish_uncancelled ak r s t) (by_operserv w q t)
      | inr (e, t) ↦ rw e (by_user w q t)
    ]

  split_full :
      (mask user host : Bytes)
      → behind_last 33 mask ≡ some user
      → behind_last 64 mask ≡ some host
      → split_mask mask ≡ record { nick = piece mask; user = some user; host = some host }
  unfolding split_mask
  split_full mask user host u h = rw (u, h) refl

  -- Given a mask with `!` and `@`, and entries that all have a user and a host, a removal never reads
  -- through NULL. `removeAkill` returns -1 and changes nothing if no entry has the nick, user and host
  -- of the mask, or if the first that has may not be removed by the one who asks: that is neither
  -- OperServ nor the maker of the entry and lacks the flag. Else it returns 0, that entry alone is taken
  -- out, and its timer is cancelled unless OperServ asks. `removeAkillType` does the same to the first
  -- entry that has the mask, is of the type, if one is given, and may be removed by the one who asks.
  pub remove_akill-Removes :
      (from mask user host : Bytes) (kind : ℕ) (s : Akills)
      → behind_last 33 mask ≡ some user
      → behind_last 64 mask ≡ some host
      → All IsFull s.first
      → Removes
          (SameMask (split_mask mask))
          (May from)
          from
          operserv
          s
          (remove_akill match nocase lacks_oakill operserv from mask s)
        × Removes
            (Wanted from kind (split_mask mask))
            (λ ak. Unit)
            from
            operserv
            s
            (remove_akill_type match nocase lacks_oakill operserv from mask kind s)
  unfolding remove_akill remove_akill_type
  remove_akill-Removes from mask user host kind s u h f = rw (split_full mask user host u h) (
    finish-Removes from (piece mask) user host _ _ s _
        (find_akill-Judged from (piece mask) user host s.first f),
    finish-Removes from (piece mask) user host _ _ s _
        (find_akill_type-Judged from (piece mask) user host kind s.first f),
  )

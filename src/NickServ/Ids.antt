-- ===== src/NickServ/Ids.antt =====
-- What `getIdMap` of services/stuff.c finds after `addRegNick` of services/nickserv.c.
use snservices.Base.{
  ℕ, ◌%◌, ◌≡◌, refl, sym, ap, ◌∙◌, inl, inr, Bool, true, false, ◌&&◌, Option, none, some, List, [],
  ◌∷◌, ◌==◌, if◌then◌else◌, Bool-cases, ==_iff, arith, false≢true, subst,
}
use snservices.Registry.{set}
use snservices.NickServ.{
  RegId, IdMap, Nicks, id_equal, id_greater, id_key, idhashsize, first_map, get_id_map, insert_id,
  add_reg_nick, get_reg_nick_data,
}

and_parts : (p q : Bool) → (p && q) ≡ true → (p ≡ true) × (q ≡ true)
and_parts p q h = ground arith

abbrev with_ids : ℕ → ℕ → RegId
with_ids a b = record { a = a; b = b }

pub id_equal-same : (i x : RegId) → id_equal i x ≡ true → i ≡ x
id_equal-same i x h =
    let (e, f) = and_parts (i.a == x.a) (i.b == x.b) h in
    ap (λ z. with_ids z i.b) ((==_iff i.a x.a).0 e) ∙ ap (with_ids x.a) ((==_iff i.b x.b).0 f)

id_equal_self : (i : RegId) → id_equal i i ≡ true
id_equal_self i =
    let e : (i.a == i.a) ≡ true = (==_iff i.a i.a).1 refl in
    let f : (i.b == i.b) ≡ true = (==_iff i.b i.b).1 refl in rw (e, f) refl

first_map-head :
    (i : RegId) (x : IdMap) (r : List IdMap) → id_equal x.id i ≡ true → first_map i (x ∷ r) ≡ some x
unfolding first_map
first_map-head i x r e = rw e refl

first_map-tail :
    (i : RegId) (x : IdMap) (r : List IdMap)
    → id_equal x.id i ≡ false
    → first_map i (x ∷ r) ≡ first_map i r
unfolding first_map
first_map-tail i x r e = rw e refl

first_map-front :
    (m : IdMap) (i : RegId) (l : List IdMap)
    → first_map i (m ∷ l) ≡ (if id_equal m.id i then some m else first_map i l)
unfolding first_map
first_map-front m i l = refl

-- Two maps with different numbers change places.
swap_maps :
    (i : RegId) (x m : IdMap) (r : List IdMap)
    → id_equal x.id m.id ≡ false
    → first_map i (x ∷ m ∷ r) ≡ first_map i (m ∷ x ∷ r)
swap_maps i x m r ne = elim (Bool-cases (id_equal m.id i)) [
  | inl e ↦
      let k : id_equal x.id i ≡ false =
        subst (λ z. id_equal x.id z ≡ false) (id_equal-same m.id i e) ne in
      first_map-tail i x (m ∷ r) k ∙ first_map-head i m r e ∙ sym (first_map-head i m (x ∷ r) e)
  | inr e ↦ elim (Bool-cases (id_equal x.id i)) [
    | inl k ↦
        first_map-head i x (m ∷ r) k
        ∙ sym (first_map-head i x r k)
        ∙ sym (first_map-tail i m (x ∷ r) e)
    | inr k ↦
        first_map-tail i x (m ∷ r) k
        ∙ first_map-tail i m r e
        ∙ sym (first_map-tail i x r k)
        ∙ sym (first_map-tail i m (x ∷ r) e)
  ]
]

first_map-cons :
    (i : RegId) (x : IdMap) (l r : List IdMap)
    → first_map i l ≡ first_map i r
    → first_map i (x ∷ l) ≡ first_map i (x ∷ r)
unfolding first_map
first_map-cons i x l r e = ap (λ z. if id_equal x.id i then some x else z) e

none≢some : (m : IdMap) → some m ≡ none → true ≡ false
none≢some m e = absurd cc

-- No map has this number: neither the first one nor those behind.
not_there :
    (i : RegId) (x : IdMap) (r : List IdMap)
    → first_map i (x ∷ r) ≡ none
    → (id_equal x.id i ≡ false) × (first_map i r ≡ none)
not_there i x r h = elim (Bool-cases (id_equal x.id i)) [
  | inl e ↦ absurd (false≢true (sym (none≢some x (sym (first_map-head i x r e) ∙ h))))
  | inr e ↦ (e, sym (first_map-tail i x r e) ∙ h)
]

-- Wherever it is inserted: a search for a number cannot tell it from the first place.
first_map-insert_id :
    (m : IdMap) (i : RegId) (l : List IdMap)
    → first_map m.id l ≡ none
    → first_map i (insert_id m l) ≡ first_map i (m ∷ l)
unfolding insert_id
first_map-insert_id m i [] h = refl
first_map-insert_id m i (x ∷ []) h = elim (Bool-cases (id_greater m.id x.id)) [
  | inl e ↦ rw e (swap_maps i x m [] (not_there m.id x [] h).0)
  | inr e ↦ rw e refl
]
first_map-insert_id m i (x ∷ y ∷ r) h =
    let rest = first_map-insert_id m i (y ∷ r) (not_there m.id x (y ∷ r) h).1 in
    elim (Bool-cases (id_greater m.id x.id)) [
      | inl e ↦ rw e (
          first_map-cons i x (insert_id m (y ∷ r)) (m ∷ y ∷ r) rest
          ∙ swap_maps i x m (y ∷ r) (not_there m.id x (y ∷ r) h).0)
      | inr e ↦ rw e refl
    ]

-- The map that `addRegNick` makes.
abbrev pub new_map : ℕ → Nicks → IdMap
new_map n s = record { id = (s.reg_nick n).regnum; nick = n }

abbrev pub id_bucket : RegId → ℕ
id_bucket i = id_key i % idhashsize

module _ (n : ℕ) (s s' : Nicks) (done : add_reg_nick n s ≡ some s') where
  added_hash :
      s'.id_hash
      ≡ set s.id_hash
          (id_bucket (new_map n s).id)
          (insert_id (new_map n s) (s.id_hash (id_bucket (new_map n s).id)))
  unfolding add_reg_nick
  added_hash = elim (Bool-cases (get_reg_nick_data (some (s.reg_nick n).nick) s == 0)) [
    | inl e ↦ let h = rw e at done in ap (λ o. hash_of o) (sym h)
    | inr e ↦ let h = rw e at done in absurd cc
  ]
    where
      hash_of : Option Nicks → ℕ → List IdMap
      hash_of none = s.id_hash
      hash_of (some z) = z.id_hash

  -- When `addRegNick` succeeds and no nickname had its number, `getIdMap` finds the number as
  -- the new nickname, and every other number as before.
  pub get_id_map-add_reg_nick :
      get_id_map (new_map n s).id s ≡ none
      → (i : RegId)
      → get_id_map i s'
        ≡ (if id_equal (new_map n s).id i then some (new_map n s) else get_id_map i s)
  unfolding get_id_map
  get_id_map-add_reg_nick free i =
      ap (λ z. first_map i (z (id_bucket i))) added_hash ∙ elim (Bool-cases (id_bucket i == j)) [
        | inl e ↦ rw e (
            first_map-insert_id m i (s.id_hash j) free
            ∙ ap (first_map i) (ap (◌∷◌ m) (ap s.id_hash (sym ((==_iff (id_bucket i) j).0 e))))
            ∙ first_map-front m i (s.id_hash (id_bucket i)))
        | inr e ↦ rw e (elim (Bool-cases (id_equal m.id i)) [
          | inl q ↦ absurd (
              false≢true
                (sym e ∙ (==_iff (id_bucket i) j).1 (ap id_bucket (sym (id_equal-same m.id i q)))))
          | inr q ↦ rw q refl
        ])
      ]
    where
      m : IdMap
      m = new_map n s

      j : ℕ
      j = id_bucket m.id

-- ===== src/Mask/Parts.antt =====
-- What `split_userhost` of services/stuff.c makes of texts that are put together from their parts.
use snservices.Base.{
  ℕ, ◌≡◌, refl, ◌∙◌, ap, true, false, none, some, [], ◌∷◌, ◌++◌, ◌==◌, Bytes, All, inl, inr,
  Bool-cases, append_assoc,
}
use snservices.Mask.{
  parts, split_first, split_last, first_sep, cut_user, cut_nick, cut_three, cut_at, split_userhost,
}

-- No byte of the text is `sep`.
abbrev pub Free : ℕ → Bytes → Type 0
Free sep s = All (λ c. (c == sep) ≡ false) s

split_first_at :
    (sep : ℕ) (a b : Bytes)
    → Free sep a
    → (sep == sep) ≡ true
    → split_first sep (a ++ sep ∷ b) ≡ some (a, b)
unfolding split_first
split_first_at sep [] b f t = rw t refl
split_first_at sep (c ∷ a) b (h, f) t = rw (h, split_first_at sep a b f t) refl

split_last-none : (sep : ℕ) (s : Bytes) → Free sep s → split_last sep s ≡ none
unfolding split_last
split_last-none sep [] f = refl
split_last-none sep (c ∷ s) (h, f) = rw (split_last-none sep s f, h) refl

split_last_at :
    (sep : ℕ) (a b : Bytes)
    → Free sep b
    → (sep == sep) ≡ true
    → split_last sep (a ++ sep ∷ b) ≡ some (a, b)
unfolding split_last
split_last_at sep [] b f t = rw (split_last-none sep b f, t) refl
split_last_at sep (c ∷ a) b f t = rw (split_last_at sep a b f t) refl

first_sep-none : (s : Bytes) → Free 33 s → Free 64 s → first_sep s ≡ none
unfolding first_sep
first_sep-none [] f g = refl
first_sep-none (c ∷ s) (h, f) (k, g) = rw (h, k) (first_sep-none s f g)

first_sep_at : (s r : Bytes) → Free 33 s → Free 64 s → first_sep (s ++ 64 ∷ r) ≡ some 64
unfolding first_sep
first_sep_at [] r f g = refl
first_sep_at (c ∷ s) r (h, f) (k, g) = rw (h, k) (first_sep_at s r f g)

first_sep_excl : (s r : Bytes) → Free 64 s → first_sep (s ++ 33 ∷ r) ≡ some 33
unfolding first_sep
first_sep_excl [] r g = refl
first_sep_excl (c ∷ s) r (k, g) = elim (Bool-cases (c == 33)) [
  | inl e ↦ rw e refl
  | inr e ↦ rw (e, k) (first_sep_excl s r g)
]

Free-append : (sep : ℕ) (a b : Bytes) → Free sep a → Free sep b → Free sep (a ++ b)
Free-append sep [] b f g = g
Free-append sep (c ∷ a) b (h, f) g = (h, Free-append sep a b f g)

three_parts :
    (nick user host : Bytes)
    → Free 64 nick
    → Free 33 user
    → Free 64 user
    → split_userhost ((nick ++ 33 ∷ user) ++ 64 ∷ host) ≡ parts nick user host
unfolding split_userhost
three_parts nick user host n u v =
    ap (cut_at ((nick ++ 33 ∷ user) ++ 64 ∷ host)) (
      ap first_sep (append_assoc nick (33 ∷ user) (64 ∷ host))
      ∙ first_sep_excl nick (user ++ 64 ∷ host) n)
    ∙ ap (cut_three ((nick ++ 33 ∷ user) ++ 64 ∷ host)) (
        split_first_at 64 (nick ++ 33 ∷ user) host (Free-append 64 nick (33 ∷ user) n (refl, v))
          refl)
    ∙ ap (λ x. cut_nick x host) (split_last_at 33 nick user u refl)

two_parts :
    (user host : Bytes)
    → Free 33 user
    → Free 64 user
    → Free 64 host
    → split_userhost (user ++ 64 ∷ host) ≡ parts [] user host
unfolding split_userhost
two_parts user host u v h =
    ap (cut_at (user ++ 64 ∷ host)) (first_sep_at user host u v)
    ∙ ap cut_user (split_last_at 64 user host h refl)

one_part : (nick : Bytes) → Free 33 nick → Free 64 nick → split_userhost nick ≡ parts nick [] []
unfolding split_userhost
one_part nick n v = ap (cut_at nick) (first_sep-none nick n v)

-- For a nickname without `@`, a user name without `!` and `@`, and any host: nick!user@host gives the three
-- parts, where the host may contain `@`; if the host has no `@`, user@host gives the last two with `*` as
-- the nickname; if the nickname has no `!`, it alone gives `*` for the others. A part that is
-- empty gives `*`, and each is cut to its length.
pub split_userhost_lem :
    (nick user host : Bytes)
    → Free 64 nick
    → Free 33 user
    → Free 64 user
    → (split_userhost ((nick ++ 33 ∷ user) ++ 64 ∷ host) ≡ parts nick user host)
      × (Free 64 host → split_userhost (user ++ 64 ∷ host) ≡ parts [] user host)
      × (Free 33 nick → split_userhost nick ≡ parts nick [] [])
split_userhost_lem nick user host n u v =
    (three_parts nick user host n u v, two_parts user host u v, λ f. one_part nick f n)

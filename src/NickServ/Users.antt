-- ===== src/NickServ/Users.antt =====
-- What `getNickData` of services/nickserv.c finds after `addNick`.
use snservices.Base.{
  ℕ, ◌≡◌, refl, sym, ap, inl, inr, true, ◌==◌, if◌then◌else◌, Bytes, Bool-cases, ==_iff,
}
use snservices.Registry.Names.{same_name, key, same_name-key}
use snservices.Registry.Lookup.{first_such}
use snservices.NickServ.{Nicks, nickhashsize, get_nick_data, add_nick}

-- After `addNick` the new user is found under every spelling of its name, before any other of that name,
-- and every other name is found as before.
pub get_nick_data-add_nick :
    (n : ℕ) (s : Nicks) (nick : Bytes)
    → get_nick_data nick (add_nick n s)
      ≡ (if same_name (s.user n).nick nick then n else get_nick_data nick s)
unfolding get_nick_data add_nick
get_nick_data-add_nick n s nick = elim (Bool-cases (same_name (s.user n).nick nick)) [
  | inl e ↦
      let k : (key nickhashsize nick == key nickhashsize (s.user n).nick) ≡ true =
        (==_iff (key nickhashsize nick) (key nickhashsize (s.user n).nick)).1
          (sym (same_name-key nickhashsize (s.user n).nick nick e)) in
      rw (k, e) refl
  | inr e ↦ elim (Bool-cases (key nickhashsize nick == key nickhashsize (s.user n).nick)) [
    | inl k ↦
        let q = (==_iff (key nickhashsize nick) (key nickhashsize (s.user n).nick)).0 k in
        rw (k, e)
          (ap (λ z. first_such (λ x. same_name (s.user x).nick nick) (s.user_hash z)) (sym q))
    | inr k ↦ rw (k, e) refl
  ]
]

-- ===== src/Users/Sessions/Local.antt =====
-- Authenticate for tokens of local users: the user and the session version that such a token stands for.
use beaverdeck.Base.{
  ◌≤◌, ◌≡◌, refl, subst, sym, ap, ◌∙◌, true, not, some, arith, nat_eq, is_some, Bool-cases, inl,
  inr,
}
use beaverdeck.Text.{Str, codes, ◌==◌}
use beaverdeck.GoMap.{lookup}
use beaverdeck.Users.Types.{
  no_rows, ok, bind-eq_ok, reject_if-eq_ok, ConfigUser, UserWithToken, Store, Env,
}
use beaverdeck.Users.Locked.{session_version, role_def}
use beaverdeck.Users.Invariant.{IsValid}
use beaverdeck.Users.Passwords.{Crypto}
use beaverdeck.Users.Sessions.{
  SessionTokenPayload, TokenCodec, parse_session_token, user_of_payload, authenticate, or_no_rows,
  is_external,
}
use beaverdeck.Users.Sessions.Laws.{authenticate-eq_ok, parse_token_earlier}

-- A payload of a local user gives a user that the store has, at the version of the payload.
local_payload :
    (s : Store) (token : Str) (p : SessionTokenPayload) (u : UserWithToken)
    → (p.auth_source == codes "local") ≡ true
    → user_of_payload s token p ≡ ok u
    → (c : ConfigUser) × (lookup p.username s.users ≡ some c)
      × (u.username ≡ c.username)
      × (session_version s c.username ≡ p.session_version)
unfolding user_of_payload
local_payload s token p u here = rw here λ h.
    let (c, e1, h1) = bind-eq_ok (or_no_rows (lookup p.username s.users)) _ h in
    let (d, e2, h2) = bind-eq_ok (or_no_rows (role_def s c.role)) _ h1 in
    let (e3, h3) =
      reject_if-eq_ok (not (nat_eq (session_version s c.username) p.session_version)) no_rows _
        h2 in
    (c, ground arith, ground arith, ground arith)

-- Only a payload of a local user gives a local user.
local_source :
    (s : Store) (token : Str) (p : SessionTokenPayload) (u : UserWithToken)
    → (u.auth_source == codes "local") ≡ true
    → user_of_payload s token p ≡ ok u
    → (p.auth_source == codes "local") ≡ true
unfolding user_of_payload
local_source s token p u here = elim (Bool-cases (p.auth_source == codes "local")) [
  | inl e ↦ λ _. e
  | inr e ↦ rw e (elim (Bool-cases (is_external p.auth_source)) [
    | inr f ↦ rw f λ h. absurd (cc)
    | inl f ↦ rw f λ h.
        let (d, _, h1) = bind-eq_ok (or_no_rows (role_def s p.role)) _ h in
        let same : p.auth_source ≡ u.auth_source = cc in
        sym e ∙ subst (λ x. (x == codes "local") ≡ true) (sym same) here
  ])
]

module _ (crypto : Crypto) (codec : TokenCodec) (env : Env) (s : Store) (token : Str)
    (u : UserWithToken) (valid : IsValid s) (before : authenticate crypto codec env s token ≡ ok u)
    (here : (u.auth_source == codes "local") ≡ true) where
  -- The payload of a token that gives a local user, who is there at the payload's version.
  payload_of :
      (p : SessionTokenPayload) × (parse_session_token crypto codec env s token ≡ ok p)
      × ((p.auth_source == codes "local") ≡ true)
      × (p.username ≡ u.username)
      × (session_version s u.username ≡ p.session_version)
  payload_of =
      let (p, parsed, named, _) = authenticate-eq_ok crypto codec env s token u before in
      let same = local_source s token p u here named in
      let (c, found, name, version) = local_payload s token p u same named in
      let key = (valid.users.entries p.username c found).0 in
      (
        p,
        parsed,
        same,
        sym key ∙ sym name,
        subst (λ x. session_version s x ≡ p.session_version) (sym name) version,
      )

  -- If the token gives a user in a later store as well, the user is still there, at the same version.
  pub still_there :
      (later : Env) (t : Store) (v : UserWithToken)
      → IsValid t
      → t.session_signing_key ≡ s.session_signing_key
      → env.now ≤ later.now
      → authenticate crypto codec later t token ≡ ok v
      → (is_some (lookup u.username t.users) ≡ true)
        × (session_version t u.username ≡ session_version s u.username)
  still_there later t v valid_t key le h =
      let (p, parsed, same, name, version) = payload_of in
      let (q, parsed_t, named_t, _) = authenticate-eq_ok crypto codec later t token v h in
      let back = parse_token_earlier crypto codec env later s t token q (sym key) le parsed_t in
      let one : q ≡ p = cc in
      let same_q = subst (λ x. (x.auth_source == codes "local") ≡ true) (sym one) same in
      let (c, found, _, version_t) = local_payload t token q v same_q named_t in
      let name_c = (valid_t.users.entries q.username c found).0 in
      let name_q : q.username ≡ u.username = ap (λ x. x.username) one ∙ name in
      (
        subst (λ x. is_some (lookup x t.users) ≡ true) name_q (rw found refl),
        subst (λ x. session_version t x ≡ session_version s u.username) (name_c ∙ name_q)
            (version_t ∙ ap (λ x. x.session_version) one ∙ sym version),
      )

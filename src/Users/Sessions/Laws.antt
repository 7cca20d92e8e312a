-- ===== src/Users/Sessions/Laws.antt =====
-- Authenticate and Logout: what a token needs, and its record after a logout.
use beaverdeck.Base.{
  ◌≤◌, ◌≡◌, ◌≢◌, refl, subst, sym, true, false, not, List, [], ◌∷◌, is_empty, arith, leb,
  Bool-cases, Option-cases, inl, inr,
}
use beaverdeck.Text.{Str, ◌==◌, trim_space, split}
use beaverdeck.GoMap.{lookup}
use beaverdeck.GoMap.Laws.{lookup-put}
use beaverdeck.Text.Laws.{eq_self}
use beaverdeck.Users.Types.{
  no_rows, no_signing_key, ok, bind-eq_ok, reject_if-eq_ok, UserWithToken, Store, Env,
}
use beaverdeck.Users.Passwords.{Crypto}
use beaverdeck.Users.Sessions.{
  SessionTokenPayload, TokenCodec, unix, revoke_session, is_live, token_prefix, or_no_rows, sign,
  is_incomplete, clean_payload, parse_parts, parse_session_token, user_of_payload, authenticate,
  logout,
}

module _ (crypto : Crypto) (codec : TokenCodec) where
  -- Whoever is authenticated presents a token that parses, whose record is there and not revoked, and
  -- whose payload names a user that the store has.
  pub authenticate-eq_ok :
      (env : Env) (s : Store) (token : Str) (u : UserWithToken)
      → authenticate crypto codec env s token ≡ ok u
      → (p : SessionTokenPayload) × (parse_session_token crypto codec env s token ≡ ok p)
        × (user_of_payload s token p ≡ ok u)
        × (is_live (lookup token s.sessions) ≡ true)
  unfolding authenticate
  authenticate-eq_ok env s token u h =
      let (p, parsed, h1) = bind-eq_ok (parse_session_token crypto codec env s token) _ h in
      let (v, named, h2) = bind-eq_ok (user_of_payload s token p) _ h1 in
      let (live, h3) = reject_if-eq_ok (not (is_live (lookup token s.sessions))) no_rows _ h2 in
      let same : v ≡ u = ground arith in
      (p, parsed, subst (λ x. user_of_payload s token p ≡ ok x) same named, ground arith)

  -- A token that parses later would have parsed earlier.
  parse_earlier :
      (env later : Env) (s t : Store) (parts : List Str) (p : SessionTokenPayload)
      → s.session_signing_key ≡ t.session_signing_key
      → env.now ≤ later.now
      → parse_parts crypto codec later t parts ≡ ok p
      → parse_parts crypto codec env s parts ≡ ok p
  unfolding parse_parts
  parse_earlier env later s t (a ∷ b ∷ c ∷ []) p same le h =
      let (h1, k1) = reject_if-eq_ok (not (a == token_prefix)) no_rows _ h in
      let (h2, k2) = reject_if-eq_ok (is_empty t.session_signing_key) no_signing_key _ k1 in
      let (actual, h3, k3) = bind-eq_ok (or_no_rows (codec.decode_signature c)) _ k2 in
      let (h4, k4) = reject_if-eq_ok (not (actual == sign crypto codec t b)) no_rows _ k3 in
      let (raw, h5, k5) = bind-eq_ok (or_no_rows (codec.decode b)) _ k4 in
      let (h6, k6) = reject_if-eq_ok (is_incomplete (clean_payload raw)) no_rows _ k5 in
      let (h7, k7) = reject_if-eq_ok (leb raw.expires_at (unix later.now)) no_rows _ k6 in
      let h7' : leb raw.expires_at (unix env.now) ≡ false = ground arith in
      rw (h1, same, h2, h3, h4, h5, h6, h7') k7
  parse_earlier env later s t [] p same le h = absurd (cc)
  parse_earlier env later s t (a ∷ []) p same le h = absurd (cc)
  parse_earlier env later s t (a ∷ b ∷ []) p same le h = absurd (cc)
  parse_earlier env later s t (a ∷ b ∷ c ∷ d ∷ l) p same le h = absurd (cc)

  pub parse_token_earlier :
      (env later : Env) (s t : Store) (token : Str) (p : SessionTokenPayload)
      → s.session_signing_key ≡ t.session_signing_key
      → env.now ≤ later.now
      → parse_session_token crypto codec later t token ≡ ok p
      → parse_session_token crypto codec env s token ≡ ok p
  unfolding parse_session_token
  parse_token_earlier env later s t token p same le =
      elim (Bool-cases (is_empty (trim_space token))) [
        | inl e ↦ rw e λ h. absurd (cc)
        | inr e ↦ rw e (parse_earlier env later s t (split b'.' token) p same le)
      ]

  logout-signing_key :
      (env : Env) (token : Str) (s : Store)
      → (logout crypto codec env token s).session_signing_key ≡ s.session_signing_key
  unfolding logout revoke_session
  logout-signing_key env token s = ground arith

  revoked-not_live :
      (token : Str) (s : Store) → is_live (lookup token (revoke_session token s).sessions) ≡ false
  unfolding revoke_session
  revoked-not_live token s = elim (Option-cases (lookup token s.sessions)) [
    | inl e ↦ rw (revoke_session, e, e) refl
    | inr (r, e) ↦ rw (revoke_session, e, lookup-put, eq_self) refl
  ]

  -- A token that was logged out authenticates nobody from then on, with the clock not going back.
  pub logout-authenticate :
      (env later : Env) (s : Store) (token : Str) (u : UserWithToken)
      → env.now ≤ later.now
      → authenticate crypto codec later (logout crypto codec env token s) token ≢ ok u
  unfolding logout
  logout-authenticate env later s token u le h =
      let (p, parsed, _, live) =
        authenticate-eq_ok later (logout crypto codec env token s) token u h in
      let before =
        parse_token_earlier env later s (logout crypto codec env token s) token p
          (sym (logout-signing_key env token s)) le parsed in
      let gone = revoked-not_live token s in
      let out : logout crypto codec env token s ≡ revoke_session token s =
        rw (logout, before) refl in
      let stays : is_live (lookup token (revoke_session token s).sessions) ≡ true =
        subst (λ t. is_live (lookup token t.sessions) ≡ true) out live in
      absurd (cc)

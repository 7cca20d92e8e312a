-- ===== src/Users/Sessions/Swept.antt =====
-- sweepSessions of session_tokens.go and Authenticate.
use beaverdeck.Base.{
  ℕ, ◌≡◌, refl, true, none, some, [], ◌∷◌, arith, ltb, if◌then◌else◌, Option-cases, inl, inr,
}
use beaverdeck.Text.{Str}
use beaverdeck.GoMap.{GoMap, lookup, NodupKeys}
use beaverdeck.Users.Types.{SessionRecord, Store, Env}
use beaverdeck.Users.Locked.{role_def, session_version, version_of}
use beaverdeck.Users.Passwords.{Crypto}
use beaverdeck.Users.Sessions.{
  TokenCodec, is_stale, is_live, sweep, sweep_sessions, authenticate, parse_session_token,
  parse_parts, user_of_payload,
}

lookup-sweep :
    (now : ℕ) (token : Str) (m : GoMap SessionRecord)
    → NodupKeys m
    → lookup token (sweep now m)
      ≡ (elim (lookup token m) [ none ↦ none | some r ↦ if is_stale now r then none else some r ])
unfolding sweep lookup
lookup-sweep now token [] u = refl
lookup-sweep now token ((k, r) ∷ m) u = ground (arith, lookup-sweep now token m)

live-sweep :
    (now : ℕ) (token : Str) (m : GoMap SessionRecord)
    → NodupKeys m
    → ((r : SessionRecord) → lookup token m ≡ some r → ltb now r.expires_at ≡ true)
    → is_live (lookup token (sweep now m)) ≡ is_live (lookup token m)
live-sweep now token m u fresh = elim (Option-cases (lookup token m)) [
  | inl e ↦ rw (lookup-sweep now token m u, e) refl
  | inr (r, e) ↦ rw (lookup-sweep now token m u, e, fresh r e) (ground arith)
]

-- A sweep changes nothing about a token whose record, if it has one, has not expired at the sweep.
pub sweep_sessions-authenticate :
    (crypto : Crypto) (codec : TokenCodec) (env : Env) (now : ℕ) (s : Store) (token : Str)
    → NodupKeys s.sessions
    → ((r : SessionRecord) → lookup token s.sessions ≡ some r → ltb now r.expires_at ≡ true)
    → authenticate crypto codec env (sweep_sessions now s) token
      ≡ authenticate crypto codec env s token
unfolding authenticate sweep_sessions parse_session_token parse_parts user_of_payload role_def
    session_version version_of
sweep_sessions-authenticate crypto codec env now s token u fresh =
    rw (live-sweep now token s.sessions u fresh) refl

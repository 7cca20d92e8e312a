-- ===== src/Users/Sessions/Recreated.antt =====
-- Delete and Create of accounts.go for one name, and the tokens of that name.
use beaverdeck.Base.{
  ℕ, ◌≤◌, ◌≡◌, refl, subst, sym, ap, ◌∙◌, true, none, some, arith, nat_eq, Bool-cases, inl, inr,
}
use beaverdeck.Text.{Str, codes, ◌==◌, fold}
use beaverdeck.Text.Laws.{eq_self}
use beaverdeck.GoMap.{lookup, put}
use beaverdeck.GoMap.Laws.{lookup-put}
use beaverdeck.Users.Types.{ok, RoleDef, ConfigUser, UserWithToken, Store, Env}
use beaverdeck.Users.Locked.{
  normalize_role_mode, session_version, below_one, role_def, role_exists, username_exists_folded,
}
use beaverdeck.Users.Passwords.{Crypto}
use beaverdeck.Users.Accounts.{add_user, remove_user, local_user}
use beaverdeck.Users.Sessions.{
  SessionTokenPayload, TokenCodec, parse_session_token, user_of_payload, authenticate, is_live,
}
use beaverdeck.Users.Sessions.Revoked.{session_version_of}
use beaverdeck.Users.Sessions.Laws.{parse_token_earlier}

-- What a store needs for a token of a local user to authenticate.
pub authenticates :
    (crypto : Crypto) (codec : TokenCodec) (env : Env) (s : Store) (token : Str)
    (p : SessionTokenPayload) (c : ConfigUser) (d : RoleDef) (m : Str)
    → parse_session_token crypto codec env s token ≡ ok p
    → (p.auth_source == codes "local") ≡ true
    → lookup p.username s.users ≡ some c
    → role_def s c.role ≡ some d
    → normalize_role_mode d.mode ≡ some m
    → nat_eq (session_version s c.username) p.session_version ≡ true
    → is_live (lookup token s.sessions) ≡ true
    → authenticate crypto codec env s token ≡ ok (local_user s c d token)
unfolding authenticate user_of_payload
authenticates crypto codec env s token p c d m parsed here found role mode version live =
    rw (parsed, here, found, role, version, live, mode) refl

version_one :
    (t : Store) (name : Str) → lookup name t.session_versions ≡ some 1 → session_version t name ≡ 1
unfolding below_one
version_one t name e = session_version_of t name 1 e

-- The store after the closure of Create has succeeded for the name.
record Created (env : Env) (name role hash : Str) (s t : Store) : Type 0 where
  key : t.session_signing_key ≡ s.session_signing_key
  sessions : t.sessions ≡ s.sessions
  roles : t.roles ≡ s.roles
  user :
      lookup name t.users
      ≡ some (record { username = name; role = role; password_hash = hash; created_at = env.now })
  version : session_version t name ≡ 1

add_user-Created :
    (env : Env) (name role hash : Str) (s : Store)
    → (add_user env name role hash s).1 ≡ none
    → Created env name role hash s (add_user env name role hash s).0
unfolding add_user
add_user-Created env name role hash s = elim (Bool-cases (role_exists s role)) [
  | inr e ↦ rw (add_user, e) λ h. absurd (cc)
  | inl e ↦ elim (Bool-cases (username_exists_folded s name)) [
    | inl f ↦ rw (add_user, e, f) λ h. absurd (cc)
    | inr f ↦
        rw (add_user, e, f)
          λ h.
            let t : Store = record s {
              users =
                  put name
                    (record {
                      username = name;
                      role = role;
                      password_hash = hash;
                      created_at = env.now;
                    })
                    s.users;
              session_versions = put name 1 s.session_versions;
            } in
            record {
              key = refl;
              sessions = refl;
              roles = refl;
              user = rw (lookup-put, eq_self) refl;
              version = version_one t name (rw (lookup-put, eq_self) refl);
            }
  ]
]

record Removed (s t : Store) : Type 0 where
  key : t.session_signing_key ≡ s.session_signing_key
  sessions : t.sessions ≡ s.sessions
  roles : t.roles ≡ s.roles

remove_user-Removed : (name : Str) (s : Store) → Removed s (remove_user name s).0
unfolding remove_user
remove_user-Removed name s = record {
  key = ground arith;
  sessions = ground arith;
  roles = ground arith;
}

arith_refl : (n : ℕ) → n ≤ n
arith_refl n = omega arith

-- When the closures of Delete and Create have succeeded for one name, and the role of the new user has
-- a mode, a live token whose payload is for that name at session version 1 and which still parses
-- authenticates as the new user, although it was issued to the deleted one.
pub recreated-authenticate :
    (crypto : Crypto) (codec : TokenCodec) (env : Env) (s : Store) (token name role hash m : Str)
    (p : SessionTokenPayload) (d : RoleDef)
    → (remove_user name s).1 ≡ none
    → (add_user env name role hash (remove_user name s).0).1 ≡ none
    → parse_session_token crypto codec env s token ≡ ok p
    → (p.auth_source == codes "local") ≡ true
    → p.username ≡ name
    → p.session_version ≡ 1
    → is_live (lookup token s.sessions) ≡ true
    → role_def s role ≡ some d
    → normalize_role_mode d.mode ≡ some m
    → (w : UserWithToken) × (w.username ≡ name)
      × (authenticate crypto codec env (add_user env name role hash (remove_user name s).0).0 token
          ≡ ok w)
unfolding role_def
recreated-authenticate crypto codec env s token name role hash m p d _ added parsed here same
      version live def mode =
    let gone = remove_user-Removed name s in
    let t : Store = (remove_user name s).0 in
    let w : Store = (add_user env name role hash t).0 in
    let made = add_user-Created env name role hash t added in
    let key : w.session_signing_key ≡ s.session_signing_key = made.key ∙ gone.key in
    let c : ConfigUser = record {
      username = name;
      role = role;
      password_hash = hash;
      created_at = env.now;
    } in
    (
      local_user w c d token,
      refl,
      authenticates crypto codec env w token p c d m
          (parse_token_earlier crypto codec env env w s token p key (arith_refl env.now) parsed)
          here (subst (λ x. lookup x w.users ≡ some c) (sym same) made.user)
          (ap (lookup (fold role)) (made.roles ∙ gone.roles) ∙ def) mode
          (rw (made.version, version) refl) (rw (made.sessions, gone.sessions) live),
    )

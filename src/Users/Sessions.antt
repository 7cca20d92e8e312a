-- ===== src/Users/Sessions.antt =====
-- session_tokens.go and the session part of accounts.go: tokens, their records, Authenticate and Logout.
-- The JSON and base64 texts inside a token are a parameter.
pub mod Laws
pub mod Local
pub mod Revoked
pub mod Recreated
pub mod Fresh
pub mod Swept
use beaverdeck.Base.{
  ℕ, ◌+◌, ◌*◌, ◌/◌, ◌≡◌, ◌≢◌, Bool, true, false, not, ◌&&◌, ◌||◌, Option, none, some, List, [], ◌∷◌,
  ◌++◌, map, is_empty, leb, ltb, nat_eq, if◌then◌else◌,
}
use beaverdeck.Text.{Str, codes, ◌==◌, trim_space, fold, split, utf8}
use beaverdeck.GoMap.{GoMap, lookup, put, delete}
use beaverdeck.Users.Types.{
  Err, no_rows, username_required, role_missing, external_user_required, unsupported_source,
  no_signing_key, incomplete_payload, invalid_role_mode, Result, ok, err, ◌>>=◌, ◌>>◌, reject_if,
  ConfigUser, RoleDef, UserWithToken, SessionRecord, Store, Env,
}
use beaverdeck.Users.Locked.{normalize_role_mode, session_version, role_def, role_exists}
use beaverdeck.Users.Passwords.{Crypto}
use beaverdeck.Users.Accounts.{local_user, or_no_permissions}

-- Nanoseconds in a second, and sessionTokenTTL.
abbrev pub second : ℕ
second = 1000000000

abbrev pub session_token_ttl : ℕ
session_token_ttl = 12 * 3600 * second

-- t.Unix()
abbrev pub unix : ℕ → ℕ
unix t = t / second

abbrev pub token_prefix : Str
token_prefix = codes "bdkst1"

-- A session version is the bit pattern of an int64; a time before 1970 is 0, which is over as well.
pub record SessionTokenPayload : Type 0 where
  pub username : Str
  pub auth_source : Str
  pub role : Str
  pub session_version : ℕ
  pub issued_at : ℕ
  pub expires_at : ℕ

-- encoding/json on payloads, followed by base64.RawURLEncoding; the latter alone on signatures.
pub record TokenCodec : Type 0 where
  pub encode : SessionTokenPayload → Str
  pub decode : Str → Option SessionTokenPayload
  pub encode_signature : List ℕ → Str
  pub decode_signature : Str → Option (List ℕ)

-- createSession
unfoldable pub create_session_record : Str → ℕ → Store → Store
create_session_record token expires_at s = record s {
  sessions = put token (record { expires_at = expires_at; revoked = false }) s.sessions;
}

-- revokeSession
unfoldable pub revoke_session : Str → Store → Store
revoke_session token s = elim (lookup token s.sessions) [
  | none ↦ s
  | some r ↦ record s { sessions = put token (record r { revoked = true }) s.sessions }
]

-- The test of sweepSessions on a record.
abbrev pub is_stale : ℕ → SessionRecord → Bool
is_stale now r = r.revoked || not (ltb now r.expires_at)

unfoldable pub sweep : ℕ → GoMap SessionRecord → GoMap SessionRecord
sweep now [] = []
sweep now ((k, r) ∷ m) = let rest = sweep now m in if is_stale now r then rest else (k, r) ∷ rest

-- sweepSessions
unfoldable pub sweep_sessions : ℕ → Store → Store
unfolding sweep
sweep_sessions now s = record s { sessions = sweep now s.sessions }

-- What a payload is folded to when it is made and when it is read.
abbrev pub clean_payload : SessionTokenPayload → SessionTokenPayload
clean_payload p = record p {
  username = trim_space p.username;
  auth_source = fold p.auth_source;
  role = fold p.role;
}

abbrev pub is_incomplete : SessionTokenPayload → Bool
is_incomplete p = is_empty p.username || is_empty p.auth_source || is_empty p.role

abbrev pub or_no_rows {ℓ} : {A : Type ℓ} → Option A → Result A
or_no_rows none = err no_rows
or_no_rows (some a) = ok a

abbrev pub is_external : Str → Bool
is_external source = source == codes "google" || source == codes "oidc" || source == codes "entra"

-- `if authSource == ""`
abbrev pub source_or_local : Str → Str
source_or_local source = if is_empty (fold source) then codes "local" else fold source

abbrev pub session_input : Store → Str → Str → Result (Str × ConfigUser)
session_input s username auth_source = do
  let name = trim_space username
  reject_if (is_empty name) username_required
  reject_if (not (source_or_local auth_source == codes "local")) no_rows
  user ← or_no_rows (lookup name s.users)
  ok (name, user)

abbrev external_input : Store → Str → Str → Str → Result (Unit {0})
external_input s name source role = do
  reject_if (is_empty name || is_empty source) external_user_required
  reject_if (not (is_external source)) unsupported_source
  reject_if (not (role_exists s role)) (role_missing role)

abbrev pub is_live : Option SessionRecord → Bool
is_live none = false
is_live (some r) = not r.revoked

abbrev pub or_bad_mode : UserWithToken → Option Str → Result UserWithToken
or_bad_mode user none = err invalid_role_mode
or_bad_mode user (some _) = ok user

-- The user that a payload stands for, by its source.
unfoldable pub user_of_payload : Store → Str → SessionTokenPayload → Result UserWithToken
user_of_payload s token p =
    if p.auth_source == codes "local"
    then (do
      user ← or_no_rows (lookup p.username s.users)
      def ← or_no_rows (role_def s user.role)
      reject_if (not (nat_eq (session_version s user.username) p.session_version)) no_rows
      ok (local_user s user def token))
    else if is_external p.auth_source
    then (do
      def ← or_no_rows (role_def s p.role)
      ok (record {
        username = p.username;
        role = def.name;
        role_mode = def.mode;
        permissions = or_no_permissions def.permissions;
        token = token;
        auth_source = p.auth_source;
        session_version = 1;
      }))
    else err no_rows

module _ (crypto : Crypto) (codec : TokenCodec) where
  abbrev pub sign : Store → Str → List ℕ
  sign s encoded = crypto.hmac_sha256 (utf8 s.session_signing_key) (utf8 encoded)

  -- newSessionToken: the token and the time at which it expires.
  unfoldable pub new_session_token : Env → Store → Str → Str → Str → ℕ → Result (Str × ℕ)
  new_session_token env s username auth_source role version = do
    reject_if (is_empty s.session_signing_key) no_signing_key
    let expires_at = env.now + session_token_ttl
    let payload = clean_payload (record {
      username = username;
      auth_source = auth_source;
      role = role;
      session_version = version;
      issued_at = unix env.now;
      expires_at = unix expires_at;
    })
    reject_if (is_incomplete payload) incomplete_payload
    let encoded = codec.encode payload
    ok (
      token_prefix ++ (b'.' ∷ (encoded ++ (b'.' ∷ codec.encode_signature (sign s encoded)))),
      expires_at,
    )

  -- parseSessionToken after the split of the token.
  unfoldable pub parse_parts : Env → Store → List Str → Result SessionTokenPayload
  parse_parts env s (prefix ∷ encoded ∷ signature ∷ []) = do
    reject_if (not (prefix == token_prefix)) no_rows
    reject_if (is_empty s.session_signing_key) no_signing_key
    actual ← or_no_rows (codec.decode_signature signature)
    reject_if (not (actual == sign s encoded)) no_rows
    raw ← or_no_rows (codec.decode encoded)
    let payload = clean_payload raw
    reject_if (is_incomplete payload) no_rows
    reject_if (leb payload.expires_at (unix env.now)) no_rows
    ok payload
  parse_parts env s _ = err no_rows

  unfoldable pub parse_session_token : Env → Store → Str → Result SessionTokenPayload
  unfolding parse_parts
  parse_session_token env s token =
      if is_empty (trim_space token) then err no_rows else parse_parts env s (split b'.' token)

  -- issueSessionToken
  unfoldable pub issue_session_token : Env → Str → Str → Str → ℕ → Store → Store × Result Str
  unfolding create_session_record
  issue_session_token env username auth_source role version s =
      elim (new_session_token env s username auth_source role version) [
        | err e ↦ (s, err e)
        | ok (token, expires_at) ↦ (create_session_record token expires_at s, ok token)
      ]

  -- CreateSession
  unfoldable pub create_session : Env → Str → Str → Store → Store × Result Str
  unfolding issue_session_token
  create_session env username auth_source s = elim (session_input s username auth_source) [
    | err e ↦ (s, err e)
    | ok (name, user) ↦
        issue_session_token env name (source_or_local auth_source) user.role
          (session_version s user.username) s
  ]

  -- CreateExternalSession
  unfoldable pub create_external_session : Env → Str → Str → Str → Store → Store × Result Str
  unfolding issue_session_token
  create_external_session env username auth_source role s =
      elim (external_input s (fold username) (fold auth_source) (fold role)) [
        | err e ↦ (s, err e)
        | ok _ ↦ issue_session_token env (fold username) (fold auth_source) (fold role) 1 s
      ]

  -- Authenticate
  unfoldable pub authenticate : Env → Store → Str → Result UserWithToken
  unfolding parse_session_token user_of_payload
  authenticate env s token = do
    payload ← parse_session_token env s token
    user ← user_of_payload s token payload
    reject_if (not (is_live (lookup token s.sessions))) no_rows
    or_bad_mode user (normalize_role_mode user.role_mode)

  -- Logout; it returns no error.
  unfoldable pub logout : Env → Str → Store → Store
  unfolding parse_session_token revoke_session
  logout env token s = elim (parse_session_token env s token) [
    | err _ ↦ s
    | ok _ ↦ revoke_session token s
  ]

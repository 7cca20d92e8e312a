-- ===== src/Users/Types.antt =====
-- The data of internal/users: types.go, the snapshot types of config_snapshot.go, and the errors that
-- the package returns. A role name is a string; a time is its nanoseconds, 0 for Go's zero time.
use beaverdeck.Base.{ℕ, ◌≡◌, refl, Bool, true, false, Option, List}
use beaverdeck.Text.{Str, codes}
use beaverdeck.GoMap.{GoMap}

-- One constructor for each error text; `no_rows` is sql.ErrNoRows.
pub data Err : Type 0 where
  no_rows : Err
  field_required field_too_long field_has_controls : Str → Err
  username_required credentials_required password_required admin_password_required : Err
  role_missing : Str → Err
  user_exists last_admin_role last_admin_user : Err
  role_name_required invalid_role_mode admin_mode_fixed role_taken admin_role_fixed : Err
  role_of_users role_of_google_groups role_of_oidc_groups role_of_entra_groups : Err
  already_initialized : Err
  group_required not_in_mapped_group : Str → Err
  external_user_required unsupported_source : Err
  no_signing_key incomplete_payload : Err
  bad_hash_format bad_hash_salt bad_hash_digest : Err
  bad_permissions : Str → Err
  unsupported_schema raw_password admin_user_missing : Err
  duplicate : Str → Err
  staged : Str → Err → Err
  external : ℕ → Err

-- A Go result of a value and an error.
pub data Result {ℓ} (Value : Type ℓ) : Type ℓ where
  err : Err → Result Value
  ok : Value → Result Value

-- What follows `if err != nil { return err }`.
abbrev pub ◌>>=◌ {κ ℓ} : {V : Type κ} {W : Type ℓ} → Result V → (V → Result W) → Result W
err failure >>= next = err failure
ok value >>= next = next value

abbrev pub ◌>>◌ {κ ℓ} : {V : Type κ} {W : Type ℓ} → Result V → Result W → Result W
first >> second = first >>= λ _. second

infixl 5 ◌>>=◌ ◌>>◌
-- `if b { return err }`
abbrev pub reject_if : Bool → Err → Result (Unit {0})
reject_if true e = err e
reject_if false e = ok tt

abbrev pub role_admin : Str
role_admin = codes "admin"

abbrev pub role_viewer : Str
role_viewer = codes "viewer"

-- json.RawMessage(`{}`)
abbrev pub no_permissions : Str
no_permissions = codes "{}"

pub record User : Type 0 where
  pub username : Str
  pub role : Str
  pub auth_source : Str
  pub created_at : ℕ

pub record RoleDef : Type 0 where
  pub name : Str
  pub mode : Str
  pub permissions : Str
  pub created_at : ℕ

pub record ConfigUser : Type 0 where
  pub username : Str
  pub role : Str
  pub password_hash : Str
  pub created_at : ℕ

pub record UserWithToken : Type 0 where
  pub username : Str
  pub role : Str
  pub role_mode : Str
  pub permissions : Str
  pub token : Str
  pub auth_source : Str
  pub session_version : ℕ

pub record GoogleConfig : Type 0 where
  pub client_id : Str
  pub client_secret : Str
  pub hosted_domain : Str
  pub service_account_json : Str
  pub delegated_admin_email : Str
  pub updated_at : Str

pub record GoogleGroupRole : Type 0 where
  pub group_email : Str
  pub role : Str
  pub created_at : ℕ

pub record OidcConfig : Type 0 where
  pub provider_name : Str
  pub issuer_url : Str
  pub client_id : Str
  pub client_secret : Str
  pub scopes : Str
  pub hosted_domain : Str
  pub email_claim : Str
  pub groups_claim : Str
  pub updated_at : Str

pub record OidcGroupRole : Type 0 where
  pub group_name : Str
  pub role : Str
  pub created_at : ℕ

pub record ConfigGoogleAuth : Type 0 where
  pub config : GoogleConfig
  pub mappings : List GoogleGroupRole

pub record ConfigOidcAuth : Type 0 where
  pub config : OidcConfig
  pub mappings : List OidcGroupRole

pub record ConfigSnapshot : Type 0 where
  pub schema_version : ℕ
  pub exported_at : Str
  pub initialized : Bool
  pub roles : List RoleDef
  pub users : List ConfigUser
  pub google : ConfigGoogleAuth
  pub oidc : ConfigOidcAuth
  pub entra : ConfigOidcAuth

-- sessionRecord; the flag is atomic in the source.
pub record SessionRecord : Type 0 where
  pub expires_at : ℕ
  pub revoked : Bool

-- The callback that stores a snapshot durably; `none` is a nil callback, a result of `none` is success.
abbrev pub ConfigSaver : Type 0
ConfigSaver = Option (ConfigSnapshot → Option Err)

-- Store, less its database handle and its locks: each operation below is one critical section.
-- A session version is the bit pattern of an int64.
pub record Store : Type 0 where
  pub session_signing_key : Str
  pub sessions : GoMap SessionRecord
  pub roles : GoMap RoleDef
  pub users : GoMap ConfigUser
  pub session_versions : GoMap ℕ
  pub google_config : GoogleConfig
  pub google_mappings : GoMap GoogleGroupRole
  pub oidc_config : OidcConfig
  pub oidc_mappings : GoMap OidcGroupRole
  pub entra_config : OidcConfig
  pub entra_mappings : GoMap OidcGroupRole
  pub config_saver : ConfigSaver

-- What an operation reads from outside: the clock, its text in RFC 3339, and the random bytes that it
-- draws or the error of drawing them.
pub record Env : Type 0 where
  pub now : ℕ
  pub stamp : Str
  pub random : Result (List ℕ)

-- What a chain of steps that succeeds has passed.
pub bind-eq_ok {κ ℓ} :
    {V : Type κ} {W : Type ℓ} {out : W} (first : Result V) (next : V → Result W)
    → first >>= next ≡ ok out
    → (value : V) × (first ≡ ok value) × (next value ≡ ok out)
bind-eq_ok (err e) next passed = cc
bind-eq_ok (ok value) next passed = (value, refl, passed)

pub reject_if-eq_ok {ℓ} :
    {B : Type ℓ} (test : Bool) (e : Err) (k : Result B) {b : B}
    → (reject_if test e >> k) ≡ ok b
    → (test ≡ false) × (k ≡ ok b)
reject_if-eq_ok true e k h = cc
reject_if-eq_ok false e k h = (refl, h)

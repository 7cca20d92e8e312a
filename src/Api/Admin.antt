-- ===== src/Api/Admin.antt =====
-- internal/api/admin_handlers.go, admin_auth_handlers.go and admin_config_handlers.go: the requests of
-- administrators that change the user store. A body is `none` when it does not decode.
pub mod Laws
use beaverdeck.Base.{ℕ, Bool, true, false, Option, none, some, if◌then◌else◌}
use beaverdeck.Text.{Str, codes}
use beaverdeck.Users.Types.{
  Err, no_rows, Result, ok, err, GoogleConfig, OidcConfig, ConfigSnapshot, Store, Env,
}
use beaverdeck.Users.Json.{JsonCodec}
use beaverdeck.Users.Passwords.{Crypto}
use beaverdeck.Users.Normalize.{normalize_config_snapshot}
use beaverdeck.Users.Oidc.{OidcProvider}
use beaverdeck.Users.Commands
use beaverdeck.Users.Commands.{Command, run}
use beaverdeck.Api.Request.{Request}
use beaverdeck.Api.Permissions.{is_admin, strings_trim_or_fallback}

pub record CreateUserRequest : Type 0 where
  pub username : Str
  pub password : Str
  pub token : Str
  pub role : Str

pub record UpdateUserRoleRequest : Type 0 where
  pub username : Str
  pub role : Str

pub record ResetPasswordRequest : Type 0 where
  pub username : Str
  pub password : Str

pub record CreateRoleRequest : Type 0 where
  pub name : Str
  pub mode : Str
  pub permissions : Str

pub record GoogleMappingRequest : Type 0 where
  pub group_email : Str
  pub role : Str

pub record OidcMappingRequest : Type 0 where
  pub group_name : Str
  pub role : Str

-- The statuses that the handlers give to an error of the store.
abbrev pub bad_request : Err → ℕ
bad_request e = 400

abbrev pub not_found_or_bad : Err → ℕ
not_found_or_bad no_rows = 404
not_found_or_bad e = 400

abbrev pub internal_error : Err → ℕ
internal_error e = 500

abbrev pub status_of : (Err → ℕ) → Option Err → ℕ
status_of status none = 200
status_of status (some e) = status e

-- Each route, with its decoded body.
pub data AdminEndpoint : Type 0 where
  users_create : Option CreateUserRequest → AdminEndpoint
  users_update_role : Option UpdateUserRoleRequest → AdminEndpoint
  users_reset_password : Option ResetPasswordRequest → AdminEndpoint
  users_delete roles_delete : Option Str → AdminEndpoint
  roles_create roles_update : Option CreateRoleRequest → AdminEndpoint
  google_config_update : Option GoogleConfig → AdminEndpoint
  google_reset : AdminEndpoint
  google_mappings_upsert google_mappings_delete : Option GoogleMappingRequest → AdminEndpoint
  oidc_config_update : OidcProvider → Option OidcConfig → AdminEndpoint
  oidc_reset : OidcProvider → AdminEndpoint
  oidc_mappings_upsert oidc_mappings_delete :
      OidcProvider → Option OidcMappingRequest → AdminEndpoint
  config_import : Option ConfigSnapshot → AdminEndpoint

module _ (crypto : Crypto) (codec : JsonCodec) (env : Env) (r : Request) (s : Store) where
  -- The store and the status after an operation.
  unfoldable pub answer : (Err → ℕ) → Command → Store × ℕ
  answer status command =
      let (after, failed) = run crypto codec env command s in (after, status_of status failed)

  -- requireAdmin, the decoding of the body, and the operation.
  unfoldable pub admin_change : {B : Type 0} → (Err → ℕ) → (B → Command) → Option B → Store × ℕ
  admin_change status command body =
      if is_admin r
      then elim body [ none ↦ (s, 400) | some b ↦ answer status (command b) ]
      else (s, 403)

  unfoldable pub admin_users_create : Option CreateUserRequest → Store × ℕ
  admin_users_create = admin_change bad_request λ req.
      Commands.create_user req.username (strings_trim_or_fallback req.password req.token) req.role

  unfoldable pub admin_users_update_role : Option UpdateUserRoleRequest → Store × ℕ
  admin_users_update_role =
      admin_change not_found_or_bad λ req. Commands.update_user_role req.username req.role

  unfoldable pub admin_users_reset_password : Option ResetPasswordRequest → Store × ℕ
  admin_users_reset_password =
      admin_change not_found_or_bad λ req. Commands.reset_local_password req.username req.password

  unfoldable pub admin_users_delete : Option Str → Store × ℕ
  admin_users_delete = admin_change not_found_or_bad Commands.delete_user

  unfoldable pub admin_roles_create : Option CreateRoleRequest → Store × ℕ
  admin_roles_create =
      admin_change bad_request λ req. Commands.create_role req.name req.mode req.permissions

  unfoldable pub admin_roles_update : Option CreateRoleRequest → Store × ℕ
  admin_roles_update =
      admin_change not_found_or_bad λ req. Commands.update_role req.name req.mode req.permissions

  unfoldable pub admin_roles_delete : Option Str → Store × ℕ
  admin_roles_delete = admin_change not_found_or_bad Commands.delete_role

  unfoldable pub admin_google_config_update : Option GoogleConfig → Store × ℕ
  admin_google_config_update = admin_change bad_request Commands.update_google_config

  unfoldable pub admin_google_reset : Store × ℕ
  admin_google_reset =
      admin_change internal_error (λ (_ : Unit {0}). Commands.reset_google_auth) (some tt)

  unfoldable pub admin_google_mappings_upsert : Option GoogleMappingRequest → Store × ℕ
  admin_google_mappings_upsert =
      admin_change bad_request λ req. Commands.upsert_google_group_role req.group_email req.role

  unfoldable pub admin_google_mappings_delete : Option GoogleMappingRequest → Store × ℕ
  admin_google_mappings_delete =
      admin_change not_found_or_bad λ req. Commands.delete_google_group_role req.group_email

  -- The handlers of OIDC and of Entra.
  unfoldable pub admin_oidc_config_update : OidcProvider → Option OidcConfig → Store × ℕ
  admin_oidc_config_update provider =
      admin_change bad_request (Commands.update_oidc_config provider)

  unfoldable pub admin_oidc_reset : OidcProvider → Store × ℕ
  admin_oidc_reset provider =
      admin_change internal_error (λ (_ : Unit {0}). Commands.reset_oidc_auth provider) (some tt)

  unfoldable pub admin_oidc_mappings_upsert : OidcProvider → Option OidcMappingRequest → Store × ℕ
  admin_oidc_mappings_upsert provider =
      admin_change bad_request
        λ req. Commands.upsert_oidc_group_role provider req.group_name req.role

  unfoldable pub admin_oidc_mappings_delete : OidcProvider → Option OidcMappingRequest → Store × ℕ
  admin_oidc_mappings_delete provider =
      admin_change not_found_or_bad λ req. Commands.delete_oidc_group_role provider req.group_name

  -- The import of a decoded snapshot, which is normalised before the store normalises it again.
  unfoldable pub import_decoded : Result ConfigSnapshot → Store × ℕ
  import_decoded (err e) = (s, 400)
  import_decoded (ok normalized) = answer internal_error (Commands.replace_config normalized)

  unfoldable pub admin_config_import : Option ConfigSnapshot → Store × ℕ
  admin_config_import body =
      if is_admin r
      then elim body [
        | none ↦ (s, 400)
        | some snapshot ↦ import_decoded (normalize_config_snapshot codec env.now snapshot)
      ]
      else (s, 403)

  unfoldable pub admin_handle : AdminEndpoint → Store × ℕ
  admin_handle (users_create body) = admin_users_create body
  admin_handle (users_update_role body) = admin_users_update_role body
  admin_handle (users_reset_password body) = admin_users_reset_password body
  admin_handle (users_delete body) = admin_users_delete body
  admin_handle (roles_delete body) = admin_roles_delete body
  admin_handle (roles_create body) = admin_roles_create body
  admin_handle (roles_update body) = admin_roles_update body
  admin_handle (google_config_update body) = admin_google_config_update body
  admin_handle google_reset = admin_google_reset
  admin_handle (google_mappings_upsert body) = admin_google_mappings_upsert body
  admin_handle (google_mappings_delete body) = admin_google_mappings_delete body
  admin_handle (oidc_config_update provider body) = admin_oidc_config_update provider body
  admin_handle (oidc_reset provider) = admin_oidc_reset provider
  admin_handle (oidc_mappings_upsert provider body) = admin_oidc_mappings_upsert provider body
  admin_handle (oidc_mappings_delete provider body) = admin_oidc_mappings_delete provider body
  admin_handle (config_import body) = admin_config_import body

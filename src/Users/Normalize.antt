-- ===== src/Users/Normalize.antt =====
-- config_snapshot.go: NormalizeConfigSnapshot.
pub mod Roles
pub mod Providers
pub mod Laws
use beaverdeck.Base.{
  ℕ, ◌*◌, Bool, true, false, not, ◌&&◌, ◌||◌, Option, none, some, List, [], ◌∷◌, ◌++◌, any,
  is_empty, nat_eq, ltb, leb, if◌then◌else◌,
}
use beaverdeck.Text.{Str, codes, ◌==◌, less, trim_space, to_lower, fold, byte_len}
use beaverdeck.GoMap.{GoMap, lookup, put, values, has}
use beaverdeck.GoMap.Sorted.{sort_by}
use beaverdeck.Users.Types.{
  Err, staged, role_missing, invalid_role_mode, admin_mode_fixed, field_too_long,
  field_has_controls, bad_permissions, unsupported_schema, raw_password, admin_user_missing,
  duplicate, Result, ok, err, ◌>>=◌, ◌>>◌, reject_if, role_admin, no_permissions, RoleDef,
  ConfigUser, GoogleConfig, GoogleGroupRole, OidcConfig, OidcGroupRole, ConfigGoogleAuth,
  ConfigOidcAuth, ConfigSnapshot,
}
use beaverdeck.Users.Json.{JsonCodec}
use beaverdeck.Users.Oidc.{generic, entra}
use beaverdeck.Users.Snapshot.{role_before, schema_version_1}
use beaverdeck.Users.Normalize.Roles.{
  normalize_config_roles, normalize_config_users, config_has_local_admin,
}
use beaverdeck.Users.Normalize.Providers.{normalize_config_google, normalize_config_oidc}

-- NormalizeConfigSnapshot after the test of the schema version.
unfoldable pub normalize_parts : JsonCodec → ℕ → ConfigSnapshot → Result ConfigSnapshot
unfolding normalize_config_roles normalize_config_users normalize_config_google
    normalize_config_oidc
normalize_parts codec now c = do
  role_defs ← normalize_config_roles codec now c.roles
  users ← normalize_config_users role_defs now c.initialized c.users
  google ← normalize_config_google role_defs now c.google
  oidc ← normalize_config_oidc generic role_defs now c.oidc
  azure ← normalize_config_oidc entra role_defs now c.entra
  ok (record {
    schema_version = schema_version_1;
    exported_at = trim_space c.exported_at;
    initialized = config_has_local_admin users role_defs;
    roles = sort_by role_before (values role_defs);
    users = users;
    google = google;
    oidc = oidc;
    entra = azure;
  })

-- NormalizeConfigSnapshot; a version of 0 is read as the present one.
unfoldable pub normalize_config_snapshot : JsonCodec → ℕ → ConfigSnapshot → Result ConfigSnapshot
unfolding normalize_parts
normalize_config_snapshot codec now c =
    if leb c.schema_version schema_version_1
    then normalize_parts codec now c
    else err (staged (codes "schema") unsupported_schema)

-- ===== src/Users/Normalize/Roles.antt =====
-- config_snapshot.go: normalizeConfigRoles and normalizeConfigUsers.
use beaverdeck.Base.{ℕ, Bool, false, not, ◌&&◌, ◌||◌, List, [], ◌∷◌, any, is_empty, if◌then◌else◌}
use beaverdeck.Text.{Str, codes, ◌==◌, trim_space, to_lower, fold}
use beaverdeck.GoMap.{GoMap, lookup, put, has}
use beaverdeck.GoMap.Sorted.{sort_by}
use beaverdeck.Users.Types.{
  role_missing, invalid_role_mode, admin_mode_fixed, bad_permissions, raw_password,
  admin_user_missing, duplicate, Result, ok, err, ◌>>=◌, ◌>>◌, reject_if, role_admin,
  no_permissions, RoleDef, ConfigUser,
}
use beaverdeck.Users.Locked.{normalize_role_mode, mode_is_admin}
use beaverdeck.Users.Fields.{clean_config_field, is_local_password_hash, at_stage, or_err, or_now}
use beaverdeck.Users.Json.{JsonCodec}
use beaverdeck.Users.Permissions.{mem}
use beaverdeck.Users.Permissions.Write.{normalize_role_permissions}
use beaverdeck.Users.Snapshot.{user_before}

-- Another error takes the place of one about permissions.
abbrev or_bad_permissions : Str → Result Str → Result Str
or_bad_permissions name (ok p) = ok p
or_bad_permissions name (err e) = err (bad_permissions name)

-- One role of the input: its name in normal form and its definition.
unfoldable pub normalize_role : JsonCodec → ℕ → GoMap RoleDef → RoleDef → Result RoleDef
normalize_role codec now seen role = do
  name ← clean_config_field (codes "role name") (to_lower role.name) 80 false
  mode ← or_err invalid_role_mode (normalize_role_mode role.mode)
  reject_if (name == role_admin && not (mode == role_admin)) admin_mode_fixed
  let given =
      if is_empty role.permissions || mode == role_admin then no_permissions else role.permissions
  permissions ← or_bad_permissions name (normalize_role_permissions codec given)
  reject_if (has name seen) (duplicate name)
  ok (record {
    name = name;
    mode = mode;
    permissions = permissions;
    created_at = or_now now role.created_at;
  })

-- The loop of normalizeConfigRoles.
unfoldable pub collect_roles : JsonCodec → ℕ → GoMap RoleDef → List RoleDef → Result (GoMap RoleDef)
collect_roles codec now seen [] = ok seen
collect_roles codec now seen (role ∷ rest) = do
  def ← normalize_role codec now seen role
  collect_roles codec now (put def.name def seen) rest

-- The role admin is added if the input lacks it.
abbrev pub with_admin_role : ℕ → GoMap RoleDef → GoMap RoleDef
with_admin_role now seen =
    if has role_admin seen
    then seen
    else put role_admin
        (record {
          name = role_admin;
          mode = role_admin;
          permissions = no_permissions;
          created_at = now;
        })
        seen

-- normalizeConfigRoles; the list that it returns too is the values of the map, sorted by name.
unfoldable pub normalize_config_roles : JsonCodec → ℕ → List RoleDef → Result (GoMap RoleDef)
unfolding collect_roles
normalize_config_roles codec now input =
    at_stage (codes "roles")
      (do seen ← collect_roles codec now [] input; ok (with_admin_role now seen))

-- One user of the input.
unfoldable pub normalize_user : GoMap RoleDef → ℕ → List Str → ConfigUser → Result ConfigUser
normalize_user role_defs now seen user = do
  username ← clean_config_field (codes "username") user.username 160 false
  reject_if (mem (to_lower username) seen) (duplicate username)
  reject_if (not (has (fold user.role) role_defs)) (role_missing (fold user.role))
  reject_if (not (is_local_password_hash user.password_hash)) raw_password
  ok (record {
    username = username;
    role = fold user.role;
    password_hash = trim_space user.password_hash;
    created_at = or_now now user.created_at;
  })

-- The loop of normalizeConfigUsers.
unfoldable pub collect_users :
    GoMap RoleDef → ℕ → List Str → List ConfigUser → Result (List ConfigUser)
collect_users role_defs now seen [] = ok []
collect_users role_defs now seen (user ∷ rest) = do
  normalized ← normalize_user role_defs now seen user
  others ← collect_users role_defs now (to_lower normalized.username ∷ seen) rest
  ok (normalized ∷ others)

-- configHasLocalAdmin
unfoldable pub config_has_local_admin : List ConfigUser → GoMap RoleDef → Bool
config_has_local_admin users role_defs = any (λ u. mode_is_admin (lookup u.role role_defs)) users

-- normalizeConfigUsers
unfoldable pub normalize_config_users :
    GoMap RoleDef → ℕ → Bool → List ConfigUser → Result (List ConfigUser)
unfolding collect_users
normalize_config_users role_defs now initialized input = at_stage (codes "users") (do
  users ← collect_users role_defs now [] input
  reject_if (initialized && not (config_has_local_admin users role_defs)) admin_user_missing
  ok (sort_by user_before users))

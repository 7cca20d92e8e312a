-- ===== src/Users/Roles.antt =====
-- accounts.go: creating, changing and deleting roles.
pub mod Keeps
use beaverdeck.Base.{
  ℕ, Bool, true, false, not, ◌&&◌, ◌||◌, Option, none, some, List, [], ◌∷◌, any, is_some, is_empty,
  if◌then◌else◌,
}
use beaverdeck.Text.{Str, ◌==◌, less, fold}
use beaverdeck.GoMap.{lookup, put, delete, values}
use beaverdeck.GoMap.Sorted.{sort_by}
use beaverdeck.Users.Types.{
  Err, no_rows, role_name_required, invalid_role_mode, admin_mode_fixed, role_taken,
  admin_role_fixed, role_of_users, role_of_google_groups, role_of_oidc_groups, role_of_entra_groups,
  Result, ok, err, ◌>>=◌, ◌>>◌, reject_if, role_admin, no_permissions, RoleDef, Store, Env,
}
use beaverdeck.Users.Locked.{normalize_role_mode, role_exists}
use beaverdeck.Users.Json.{JsonCodec}
use beaverdeck.Users.Permissions.Write.{normalize_role_permissions}
use beaverdeck.Users.Snapshot.{Mutation, checked, mutate_config_and_persist}

abbrev or_invalid_mode : Option Str → Result Str
or_invalid_mode none = err invalid_role_mode
or_invalid_mode (some m) = ok m

-- What CreateRole and UpdateRole check first: the name, the mode and the permissions in normal form.
unfoldable pub check_role : JsonCodec → Str → Str → Str → Result (Str × Str × Str)
check_role codec name mode permissions = do
  let n = fold name
  reject_if (is_empty n) role_name_required
  m ← or_invalid_mode (normalize_role_mode mode)
  reject_if (n == role_admin && not (m == role_admin)) admin_mode_fixed
  let given = if is_empty permissions || m == role_admin then no_permissions else permissions
  p ← normalize_role_permissions codec given
  ok (n, m, p)

-- The closure of CreateRole.
unfoldable pub add_role : Env → Str → Str → Str → Mutation
add_role env name mode permissions s = if role_exists s name then (s, some role_taken) else (
  record s {
    roles =
        put name
          (record { name = name; mode = mode; permissions = permissions; created_at = env.now })
          s.roles;
  },
  none,
)

unfoldable pub create_role : JsonCodec → Env → Str → Str → Str → Mutation
unfolding add_role
create_role codec env name mode permissions =
    checked (check_role codec name mode permissions)
      (λ (n, m, p). mutate_config_and_persist (add_role env n m p))

-- The closure of UpdateRole.
unfoldable pub change_role : Str → Str → Str → Mutation
change_role name mode permissions s = elim (lookup name s.roles) [
  | none ↦ (s, some no_rows)
  | some def ↦ (
    record s { roles = put name (record def { mode = mode; permissions = permissions }) s.roles },
    none,
  )
]

unfoldable pub update_role : JsonCodec → Str → Str → Str → Mutation
unfolding change_role
update_role codec name mode permissions =
    checked (check_role codec name mode permissions)
      (λ (n, m, p). mutate_config_and_persist (change_role n m p))

-- The closure of DeleteRole.
unfoldable pub remove_role : Str → Mutation
remove_role name s =
    if not (role_exists s name)
    then (s, some no_rows)
    else if any (λ u. u.role == name) (values s.users)
    then (s, some role_of_users)
    else if any (λ g. g.role == name) (values s.google_mappings)
    then (s, some role_of_google_groups)
    else if any (λ g. g.role == name) (values s.oidc_mappings)
    then (s, some role_of_oidc_groups)
    else if any (λ g. g.role == name) (values s.entra_mappings)
    then (s, some role_of_entra_groups)
    else (record s { roles = delete name s.roles }, none)

-- What DeleteRole checks first.
unfoldable pub deletable : Str → Result (Unit {0})
deletable name = do
  reject_if (is_empty (fold name)) role_name_required
  reject_if (fold name == role_admin) admin_role_fixed

unfoldable pub delete_role : Str → Mutation
unfolding remove_role deletable
delete_role name =
    checked (deletable name) (λ _. mutate_config_and_persist (remove_role (fold name)))

-- ListRoles
unfoldable pub list_roles : Store → List RoleDef
list_roles s = sort_by (λ a b. less a.name b.name) (values s.roles)

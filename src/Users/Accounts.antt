-- ===== src/Users/Accounts.antt =====
-- accounts.go: creating, changing, listing and deleting local users, and checking their passwords.
pub mod Laws
pub mod Keeps
use beaverdeck.Base.{
  ℕ, Bool, true, false, not, ◌&&◌, ◌||◌, Option, none, some, List, [], ◌∷◌, map, is_empty,
  if◌then◌else◌,
}
use beaverdeck.Text.{Str, codes, ◌==◌, less, to_lower, trim_space, fold}
use beaverdeck.GoMap.{GoMap, lookup, put, delete, values}
use beaverdeck.GoMap.Sorted.{sort_by}
use beaverdeck.Users.Types.{
  Err, no_rows, username_required, credentials_required, role_missing, user_exists, last_admin_role,
  last_admin_user, Result, ok, err, ◌>>=◌, ◌>>◌, reject_if, no_permissions, RoleDef, ConfigUser,
  User, UserWithToken, Store, Env,
}
use beaverdeck.Users.Locked.{
  next_session_version, version_of, session_version, role_def, role_exists, username_exists_folded,
  is_last_local_admin, removes_last_local_admin,
}
use beaverdeck.Users.Fields.{clean_config_field}
use beaverdeck.Users.Passwords.{Crypto, hash_local_password, verify_local_password}
use beaverdeck.Users.Snapshot.{Mutation, checked, mutate_config_and_persist}

-- The closure of Create.
unfoldable pub add_user : Env → Str → Str → Str → Mutation
add_user env username role password_hash s =
    if not (role_exists s role)
    then (s, some (role_missing role))
    else if username_exists_folded s username
    then (s, some user_exists)
    else (
      record s {
        users =
            put username
              (record {
                username = username;
                role = role;
                password_hash = password_hash;
                created_at = env.now;
              })
              s.users;
        session_versions = put username 1 s.session_versions;
      },
      none,
    )

-- What Create checks first: the name, and the hash of the password.
unfoldable pub new_user_input : Crypto → Env → Str → Str → Result (Str × Str)
new_user_input crypto env username token = do
  name ← clean_config_field (codes "username") username 160 false
  reject_if (is_empty (trim_space token)) credentials_required
  hash ← hash_local_password crypto env (trim_space token)
  ok (name, hash)

unfoldable pub create_user : Crypto → Env → Str → Str → Str → Mutation
unfolding add_user new_user_input
create_user crypto env username token role =
    checked (new_user_input crypto env username token)
      (λ (name, hash). mutate_config_and_persist (add_user env name (fold role) hash))

-- The closure of UpdateUserRole.
unfoldable pub change_user_role : Str → Str → Mutation
change_user_role username role s =
    if not (role_exists s role)
    then (s, some (role_missing role))
    else elim (lookup username s.users) [
      | none ↦ (s, some no_rows)
      | some user ↦
          if removes_last_local_admin s username role
          then (s, some last_admin_role)
          else (record s { users = put username (record user { role = role }) s.users }, none)
    ]

unfoldable pub update_user_role : Str → Str → Mutation
unfolding change_user_role
update_user_role username role =
    checked (reject_if (is_empty (trim_space username)) username_required)
      (λ _. mutate_config_and_persist (change_user_role (trim_space username) (fold role)))

-- The closure of ResetLocalPassword.
unfoldable pub set_password : Str → Str → Mutation
set_password username password_hash s = elim (lookup username s.users) [
  | none ↦ (s, some no_rows)
  | some user ↦ (
    record s {
      users = put username (record user { password_hash = password_hash }) s.users;
      session_versions =
          put username (next_session_version (version_of s username)) s.session_versions;
    },
    none,
  )
]

-- What ResetLocalPassword checks first.
unfoldable pub new_password_input : Crypto → Env → Str → Str → Result Str
new_password_input crypto env username password = do
  reject_if (is_empty (trim_space username) || is_empty (trim_space password)) credentials_required
  hash_local_password crypto env (trim_space password)

unfoldable pub reset_local_password : Crypto → Env → Str → Str → Mutation
unfolding set_password new_password_input
reset_local_password crypto env username password =
    checked (new_password_input crypto env username password)
      (λ hash. mutate_config_and_persist (set_password (trim_space username) hash))

-- The closure of Delete.
unfoldable pub remove_user : Str → Mutation
remove_user username s = elim (lookup username s.users) [
  | none ↦ (s, some no_rows)
  | some _ ↦ if is_last_local_admin s username then (s, some last_admin_user) else (
    record s {
      users = delete username s.users;
      session_versions = delete username s.session_versions;
    },
    none,
  )
]

unfoldable pub delete_user : Str → Mutation
unfolding remove_user
delete_user username =
    checked (reject_if (is_empty (trim_space username)) username_required)
      (λ _. mutate_config_and_persist (remove_user (trim_space username)))

-- `if len(user.Permissions) == 0`
abbrev pub or_no_permissions : Str → Str
or_no_permissions p = if is_empty p then no_permissions else p

abbrev pub local_user : Store → ConfigUser → RoleDef → Str → UserWithToken
local_user s user def token = record {
  username = user.username;
  role = user.role;
  role_mode = def.mode;
  permissions = or_no_permissions def.permissions;
  token = token;
  auth_source = codes "local";
  session_version = session_version s user.username;
}

abbrev or_no_rows {ℓ} : {A : Type ℓ} → Option A → Result A
or_no_rows none = err no_rows
or_no_rows (some a) = ok a

-- VerifyLocalCredentials up to the release of the read lock: the user, the hash that was checked and
-- whether it is due for an upgrade.
unfoldable pub check_credentials : Crypto → Store → Str → Str → Result (UserWithToken × Str × Bool)
check_credentials crypto s username password = do
  let name = trim_space username
  reject_if (is_empty name || is_empty (trim_space password)) no_rows
  user ← or_no_rows (lookup name s.users)
  def ← or_no_rows (role_def s user.role)
  (matched, upgrade) ← verify_local_password crypto user.password_hash (trim_space password)
  reject_if (not matched) no_rows
  ok (local_user s user def [], user.password_hash, upgrade)

-- The closure of the upgrade: it writes only if the stored hash is still the one that was checked.
unfoldable pub replace_hash : Str → Str → Str → Mutation
replace_hash username previous password_hash s = elim (lookup username s.users) [
  | none ↦ (s, none)
  | some user ↦
      if user.password_hash == previous
      then (
        record s { users = put username (record user { password_hash = password_hash }) s.users },
        none,
      )
      else (s, none)
]

-- The second critical section; the store may have changed since the first. Its errors are dropped.
unfoldable pub upgrade_hash : Crypto → Env → Str → Str → Str → Store → Store
unfolding replace_hash
upgrade_hash crypto env username password previous s =
    elim (hash_local_password crypto env (trim_space password)) [
      | err _ ↦ s
      | ok hash ↦ (mutate_config_and_persist (replace_hash (trim_space username) previous hash) s).0
    ]

abbrev listed : ConfigUser → User
listed u = record {
  username = u.username;
  role = u.role;
  auth_source = codes "local";
  created_at = u.created_at;
}

-- List
unfoldable pub list_users : Store → List User
list_users s =
    sort_by (λ a b. less (to_lower a.username) (to_lower b.username)) (map listed (values s.users))

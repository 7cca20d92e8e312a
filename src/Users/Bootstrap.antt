-- ===== src/Users/Bootstrap.antt =====
-- bootstrap.go: the default roles and the first local administrator.
pub mod Keeps
use beaverdeck.Base.{Bool, false, Option, none, some, [], is_empty, if◌then◌else◌}
use beaverdeck.Text.{Str, codes, trim_space}
use beaverdeck.GoMap.{lookup, put}
use beaverdeck.Users.Types.{
  admin_password_required, already_initialized, Result, ok, err, ◌>>=◌, ◌>>◌, reject_if, role_admin,
  no_permissions, RoleDef, Store, Env,
}
use beaverdeck.Users.Locked.{next_session_version, version_of, has_local_admin}
use beaverdeck.Users.Fields.{clean_config_field}
use beaverdeck.Users.Passwords.{Crypto, hash_local_password}
use beaverdeck.Users.Snapshot.{Mutation, checked, mutate_config_and_persist}

-- ensureDefaultsLocked
unfoldable pub ensure_defaults : Env → Store → Store
ensure_defaults env s = elim (lookup role_admin s.roles) [
  | none ↦ record s {
    roles =
        put role_admin
          (record {
            name = role_admin;
            mode = role_admin;
            permissions = no_permissions;
            created_at = env.now;
          })
          s.roles;
  }
  | some def ↦ record s {
    roles = put role_admin (record def { mode = role_admin; permissions = no_permissions }) s.roles;
  }
]

-- PrepareBootstrap: the defaults, and whether a local administrator is there.
unfoldable pub prepare_bootstrap : Env → Store → Store × Bool
unfolding ensure_defaults
prepare_bootstrap env s = let t = ensure_defaults env s in (t, has_local_admin t)

-- The closure of CompleteBootstrap.
unfoldable pub add_first_admin : Env → Str → Str → Mutation
unfolding ensure_defaults
add_first_admin env username password_hash s =
    let t = ensure_defaults env s in
    if has_local_admin t then (t, some already_initialized) else (
      record t {
        users =
            put username
              (record {
                username = username;
                role = role_admin;
                password_hash = password_hash;
                created_at = env.now;
              })
              t.users;
        session_versions =
            put username (next_session_version (version_of t username)) t.session_versions;
      },
      none,
    )

-- What CompleteBootstrap checks first.
unfoldable pub first_admin_input : Crypto → Env → Str → Str → Result (Str × Str)
first_admin_input crypto env username password = do
  name ← clean_config_field (codes "admin username") username 160 false
  reject_if (is_empty (trim_space password)) admin_password_required
  hash ← hash_local_password crypto env (trim_space password)
  ok (name, hash)

unfoldable pub complete_bootstrap : Crypto → Env → Str → Str → Mutation
unfolding add_first_admin first_admin_input
complete_bootstrap crypto env username password =
    checked (first_admin_input crypto env username password)
      (λ (name, hash). mutate_config_and_persist (add_first_admin env name hash))

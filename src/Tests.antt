-- ===== src/Tests.antt =====
-- A small store, concrete parameters, and the theorems applied to them.
pub mod Codec
mod Sessions
mod Api
mod Pool
mod Kube
use beaverdeck.Base.{
  subst, ℕ, ◌+◌, ◌*◌, ◌≡◌, ◌≤◌, ◌<◌, ◌≢◌, refl, Bool, true, false, Option, none, some, List, [],
  ◌∷◌, arith, any, count, is_empty, if◌then◌else◌, Bool-cases, inl, inr,
}
use beaverdeck.Text.{
  utf8, is_control, Str, Str_discrete, codes, ◌==◌, fold, trim_space, trim_left, trim_right,
  is_space, to_lower, lower,
}
use beaverdeck.GoMap.{GoMap, lookup, put, delete, values, index_from}
use beaverdeck.Users.Types.{
  Result, ok, err, RoleDef, ConfigUser, UserWithToken, Store, Env, last_admin_user, no_rows,
}
use beaverdeck.Users.Json.{str, str, JsonCodec, obj, end}
use beaverdeck.Users.Invariant.{IsValid, SameConfig}
use beaverdeck.Users.Locked.{
  normalize_role_mode, has_local_admin, is_local_admin, role_def, role_exists,
  username_exists_folded, has_folded_key, is_last_local_admin,
}
use beaverdeck.Users.Permissions.Levels.{parse_permission_resource_value-written}
use beaverdeck.Users.Permissions.{
  RolePermissionFlags, imply, permission_flags_to_level, parse_permission_resource_value,
  parse_role_permissions, normalize_permission_namespaces,
}
use beaverdeck.Users.Permissions.Write.{flags_json, normalize_role_permissions}
use beaverdeck.Users.Snapshot.{
  apply_snapshot, snapshot, save_config_snapshot, mutate_config_and_persist,
}
use beaverdeck.Users.Passwords.{Crypto, hash_text, hash_local_password, verify_local_password}
use beaverdeck.Users.Passwords.Hex.{AreBytes}
use beaverdeck.Users.Passwords.Verified.{verify_local_password-hash_local_password}
use beaverdeck.Users.Bootstrap.{complete_bootstrap, first_admin_input}
use beaverdeck.Users.Fields.{clean_config_field, is_refused}
use beaverdeck.Users.Commands.Started.{complete_bootstrap-has_local_admin}
use beaverdeck.Users.Accounts.{add_user}
use beaverdeck.Users.Accounts.Keeps.{add_user-IsValid}
use beaverdeck.Users.Roles.{add_role, check_role, change_role, update_role}
use beaverdeck.Users.Roles.Keeps.{add_role-IsValid}
use beaverdeck.Users.Commands.Demotion.{update_role_demotes}
use beaverdeck.Users.Import.{open_store}
use beaverdeck.Users.Import.Keeps.{open_store-IsValid}
use beaverdeck.Users.Commands.{
  Command, ensure_defaults, reset_to_empty_config, create_role, delete_user,
  upsert_google_group_role, run, run_all, all_operations,
}
use beaverdeck.Users.Commands.Valid.{run_all-IsValid}
use beaverdeck.Users.Commands.Atomic.{run-SameConfig}
use beaverdeck.Users.Commands.Guarded.{run-has_local_admin}

-- What the concrete runs below compute.
unfoldable pub everything : Unit {0}
unfolding all_operations run Str_discrete any count values lookup put delete index_from trim_left
    trim_right is_space to_lower lower trim_space fold role_def role_exists username_exists_folded
    has_folded_key is_last_local_admin has_local_admin add_user apply_snapshot open_store
    mutate_config_and_persist
everything = tt

abbrev pub test_crypto : Crypto
test_crypto = record { sha256 = λ b. 7 ∷ []; hmac_sha256 = λ k m. 9 ∷ [] }

-- A codec that reads and prints `{}` alone.
abbrev pub test_json : JsonCodec
test_json = record {
  parse = λ s. if s == codes "{}" then some (obj end) else none;
  print = λ j. codes "{}";
}

abbrev pub test_env : Env
test_env = record { now = 1000000000; stamp = codes "2024"; random = ok (1 ∷ 2 ∷ []) }

abbrev pub empty_store : Store
empty_store = open_store test_env (codes "key")

-- A store with one administrator.
abbrev pub one_admin : Store
one_admin = (add_user test_env (codes "root") (codes "admin") (codes "hash") empty_store).0

abbrev pub root : ConfigUser
root = record {
  username = codes "root";
  role = codes "admin";
  password_hash = codes "hash";
  created_at = 1000000000;
}

pub admin_fold : fold (codes "admin") ≡ codes "admin"
unfolding fold trim_space trim_left trim_right is_space to_lower lower
admin_fold = refl

pub hash_full : is_empty (trim_space (codes "hash")) ≡ false
unfolding trim_space trim_left trim_right is_space
hash_full = refl

pub one_admin-IsValid : IsValid one_admin
one_admin-IsValid =
    add_user-IsValid test_env (codes "root") (codes "admin") (codes "hash") empty_store admin_fold
      hash_full (open_store-IsValid test_env (codes "key"))

abbrev some_commands : List (Env × Command)
some_commands =
    (test_env, create_role (codes "Ops") (codes "viewer") (codes "{}"))
    ∷ (test_env, upsert_google_group_role (codes "ops@example.org") (codes "ops"))
    ∷ (test_env, delete_user (codes "root"))
    ∷ (test_env, ensure_defaults)
    ∷ (test_env, reset_to_empty_config)
    ∷ []

run_all-IsValid_example : IsValid (run_all test_crypto test_json some_commands one_admin)
run_all-IsValid_example =
    run_all-IsValid test_crypto test_json some_commands one_admin one_admin-IsValid

last_admin_stays :
    (run test_crypto test_json test_env (delete_user (codes "root")) one_admin).1
    ≡ some last_admin_user
unfolding everything
last_admin_stays = refl

one_admin-has_local_admin : has_local_admin one_admin ≡ true
unfolding everything
one_admin-has_local_admin = refl

run-SameConfig_example :
    SameConfig
      (run test_crypto test_json test_env (delete_user (codes "root")) one_admin).0
      one_admin
run-SameConfig_example =
    run-SameConfig test_crypto test_json test_env (delete_user (codes "root")) one_admin
      last_admin_user refl one_admin-IsValid last_admin_stays

run-has_local_admin_example :
    has_local_admin (run test_crypto test_json test_env (delete_user (codes "root")) one_admin).0
    ≡ true
run-has_local_admin_example =
    run-has_local_admin test_crypto test_json test_env (delete_user (codes "root")) one_admin refl
      one_admin-IsValid one_admin-has_local_admin

-- A store whose administrator has a role of its own.
abbrev with_ops : Store
with_ops = (add_role test_env (codes "ops") (codes "admin") (codes "{}") empty_store).0

abbrev ops_store : Store
ops_store = (add_user test_env (codes "root") (codes "ops") (codes "hash") with_ops).0

ops_fold : fold (codes "ops") ≡ codes "ops"
unfolding everything
ops_fold = refl

ops_store-IsValid : IsValid ops_store
ops_store-IsValid =
    add_user-IsValid test_env (codes "root") (codes "ops") (codes "hash") with_ops ops_fold
      hash_full
      (add_role-IsValid test_env (codes "ops") (codes "admin") (codes "{}") empty_store ops_fold
        (open_store-IsValid test_env (codes "key")))

abbrev ops : RoleDef
ops = record {
  name = codes "ops";
  mode = codes "admin";
  permissions = codes "{}";
  created_at = 1000000000;
}

ops_read :
    check_role test_json (codes "Ops") (codes "viewer") (codes "{}")
    ≡ ok (codes "ops", codes "viewer", codes "{}")
unfolding everything check_role normalize_role_mode normalize_role_permissions
    parse_role_permissions normalize_permission_namespaces
ops_read = refl

ops_there : lookup (codes "ops") ops_store.roles ≡ some ops
unfolding everything add_role
ops_there = refl

lesser : (codes "viewer" == codes "admin") ≡ false
unfolding everything
lesser = refl

ops_only :
    (k : Str) (u : ConfigUser)
    → lookup k ops_store.users ≡ some u
    → is_local_admin ops_store u ≡ true
    → u.role ≡ codes "ops"
unfolding everything add_role
ops_only k u = elim (Bool-cases (codes "root" == k)) [
  | inl e ↦ rw e λ h _. ground arith
  | inr e ↦ rw e λ h _. absurd (cc)
]

ops_saved :
    save_config_snapshot
      (change_role (codes "ops") (codes "viewer") (codes "{}") ops_store).0
      (snapshot (change_role (codes "ops") (codes "viewer") (codes "{}") ops_store).0)
    ≡ none
unfolding everything add_role change_role save_config_snapshot
ops_saved = refl

update_role_demotes_example :
    ((update_role test_json (codes "Ops") (codes "viewer") (codes "{}") ops_store).1 ≡ none)
    × (has_local_admin
          (update_role test_json (codes "Ops") (codes "viewer") (codes "{}") ops_store).0
        ≡ false)
update_role_demotes_example =
    update_role_demotes test_json ops_store ops_store-IsValid (codes "Ops") (codes "viewer")
      (codes "{}") (codes "ops") (codes "viewer") (codes "{}") ops ops_read ops_there lesser
      ops_only ops_saved

abbrev stored_hash : Str
stored_hash = hash_text test_crypto (codes "secret") (1 ∷ 2 ∷ [])

hashed : hash_local_password test_crypto test_env (codes "secret") ≡ ok stored_hash
unfolding everything hash_local_password
hashed = refl

salted : (salt : List ℕ) → test_env.random ≡ ok salt → AreBytes salt
salted salt e =
    let same : 1 ∷ 2 ∷ [] ≡ salt = cc in subst AreBytes same (omega arith, (omega arith, tt))

verify_local_password-hash_local_password_example :
    verify_local_password test_crypto stored_hash (codes "secret") ≡ ok (true, false)
verify_local_password-hash_local_password_example =
    verify_local_password-hash_local_password test_crypto (λ b. (omega arith, tt)) test_env
      (codes "secret") stored_hash salted hashed

started_once :
    (complete_bootstrap test_crypto test_env (codes "root") (codes "secret") empty_store).1 ≡ none
unfolding everything hash_local_password clean_config_field is_refused is_control utf8
    first_admin_input complete_bootstrap
started_once = refl

complete_bootstrap-has_local_admin_example :
    (has_local_admin empty_store ≡ false)
    × (has_local_admin
          (complete_bootstrap test_crypto test_env (codes "root") (codes "secret") empty_store).0
        ≡ true)
complete_bootstrap-has_local_admin_example =
    complete_bootstrap-has_local_admin test_crypto test_env (codes "root") (codes "secret")
      empty_store (open_store-IsValid test_env (codes "key")) started_once

abbrev only_delete : RolePermissionFlags
only_delete = record { view = false; edit = false; delete = true }

parse_permission_resource_value-written_example :
    (parse_permission_resource_value (codes "pods") (str (permission_flags_to_level only_delete))
      ≡ ok (imply only_delete))
    × (parse_permission_resource_value (codes "pods") (flags_json only_delete)
        ≡ ok (imply only_delete))
parse_permission_resource_value-written_example =
    parse_permission_resource_value-written (codes "pods") only_delete

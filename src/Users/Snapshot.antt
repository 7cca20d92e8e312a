-- ===== src/Users/Snapshot.antt =====
-- config_snapshot.go: snapshotLocked, applyConfigSnapshotLocked, mutateConfigAndPersist and the
-- operations that replace the whole configuration.
pub mod Laws
use beaverdeck.Base.{
  ℕ, ◌+◌, Bool, true, false, ◌&&◌, Option, none, some, List, [], ◌∷◌, if◌then◌else◌, any, nat_eq,
}
use beaverdeck.Text.{Str, codes, ◌==◌, less, to_lower, trim_space}
use beaverdeck.GoMap.{GoMap, lookup, put, values, index}
use beaverdeck.GoMap.Sorted.{sort_by}
use beaverdeck.Users.Types.{
  Err, Result, ok, err, Store, RoleDef, ConfigUser, GoogleGroupRole, OidcGroupRole, ConfigSnapshot,
  GoogleConfig, OidcConfig, role_admin, no_permissions,
}
use beaverdeck.Users.Locked.{version_of, next_session_version, has_local_admin}

abbrev pub schema_version_1 : ℕ
schema_version_1 = 1

abbrev pub google_key : GoogleGroupRole → Str
google_key item = to_lower item.group_email

abbrev pub oidc_key : OidcGroupRole → Str
oidc_key item = to_lower (trim_space item.group_name)

-- The orders of the `sort.Slice` calls.
abbrev pub role_before : RoleDef → RoleDef → Bool
role_before a b = less a.name b.name

abbrev pub user_before : ConfigUser → ConfigUser → Bool
user_before a b = less (to_lower a.username) (to_lower b.username)

abbrev pub google_before : GoogleGroupRole → GoogleGroupRole → Bool
google_before a b = less a.group_email b.group_email

abbrev pub oidc_before : OidcGroupRole → OidcGroupRole → Bool
oidc_before a b = less (to_lower a.group_name) (to_lower b.group_name)

unfoldable pub snapshot : Store → ConfigSnapshot
snapshot s = record {
  schema_version = schema_version_1;
  exported_at = [];
  initialized = has_local_admin s;
  roles = sort_by role_before (values s.roles);
  users = sort_by user_before (values s.users);
  google = record {
    config = s.google_config;
    mappings = sort_by google_before (values s.google_mappings);
  };
  oidc = record { config = s.oidc_config; mappings = sort_by oidc_before (values s.oidc_mappings) };
  entra = record {
    config = s.entra_config;
    mappings = sort_by oidc_before (values s.entra_mappings);
  };
}

-- The loop that gives each user of a snapshot the version after the one that the store has.
unfoldable pub next_versions : Store → GoMap ℕ → List ConfigUser → GoMap ℕ
next_versions s acc [] = acc
next_versions s acc (user ∷ users) =
    next_versions s (put user.username (next_session_version (version_of s user.username)) acc)
      users

unfoldable pub apply_snapshot : ConfigSnapshot → Store → Store
apply_snapshot c s = record s {
  roles = index (λ r. r.name) c.roles;
  users = index (λ u. u.username) c.users;
  session_versions = next_versions s [] c.users;
  google_config = c.google.config;
  google_mappings = index google_key c.google.mappings;
  oidc_config = c.oidc.config;
  oidc_mappings = index oidc_key c.oidc.mappings;
  entra_config = c.entra.config;
  entra_mappings = index oidc_key c.entra.mappings;
}

-- saveConfigSnapshot
unfoldable pub save_config_snapshot : Store → ConfigSnapshot → Option Err
save_config_snapshot s c = elim s.config_saver [ none ↦ none | some save ↦ save c ]

-- The closures that change the store in place; what they wrote before an error stays written.
abbrev pub Mutation : Type 0
Mutation = Store → Store × Option Err

unfoldable pub mutate_config_and_persist : Mutation → Mutation
unfolding save_config_snapshot
mutate_config_and_persist mutate s =
    let (changed, failed) = mutate s in
    elim failed [
      | some e ↦ (changed, some e)
      | none ↦ elim (save_config_snapshot changed (snapshot changed)) [
        | none ↦ (changed, none)
        | some e ↦ (
          record (apply_snapshot (snapshot s) changed) { session_versions = s.session_versions },
          some e,
        )
      ]
    ]

-- What an operation checks before it takes the lock; a failed check leaves the store alone.
abbrev pub checked {ℓ} : {A : Type ℓ} → Result A → (A → Mutation) → Mutation
checked (err e) f s = (s, some e)
checked (ok a) f s = f a s

-- ===== src/Users/Google.antt =====
-- google.go: the Google configuration and the roles of Google groups.
pub mod Keeps
use beaverdeck.Base.{
  Bool, not, ◌&&◌, Option, none, some, List, [], ◌∷◌, any, is_empty, if◌then◌else◌,
}
use beaverdeck.Text.{Str, codes, ◌==◌, less, trim_space, to_lower, fold}
use beaverdeck.GoMap.{GoMap, lookup, put, delete, values}
use beaverdeck.GoMap.Sorted.{sort_by}
use beaverdeck.Users.Types.{
  no_rows, role_missing, group_required, not_in_mapped_group, Result, ok, err, ◌>>=◌, ◌>>◌,
  reject_if, role_admin, RoleDef, GoogleConfig, GoogleGroupRole, Store, Env,
}
use beaverdeck.Users.Locked.{role_exists, mode_is_admin}
use beaverdeck.Users.Permissions.{mem}
use beaverdeck.Users.Snapshot.{Mutation, checked, mutate_config_and_persist, google_before}

-- UpdateGoogleConfig
unfoldable pub update_google_config : Env → GoogleConfig → Mutation
update_google_config env cfg = mutate_config_and_persist λ s. (
  record s {
    google_config = record {
      client_id = trim_space cfg.client_id;
      client_secret = trim_space cfg.client_secret;
      hosted_domain = fold cfg.hosted_domain;
      service_account_json = trim_space cfg.service_account_json;
      delegated_admin_email = fold cfg.delegated_admin_email;
      updated_at = env.stamp;
    };
  },
  none,
)

-- ListGoogleGroupRoles
unfoldable pub list_google_group_roles : Store → List GoogleGroupRole
list_google_group_roles s = sort_by google_before (values s.google_mappings)

-- The entry that the closure of UpsertGoogleGroupRole starts from.
abbrev google_entry : Env → Str → Option GoogleGroupRole → GoogleGroupRole
google_entry env email none = record { group_email = email; role = []; created_at = env.now }
google_entry env email (some item) = item

unfoldable pub put_google_group : Env → Str → Str → Mutation
put_google_group env email role s =
    if not (role_exists s role) then (s, some (role_missing role)) else (
      record s {
        google_mappings =
            put email
              (record (google_entry env email (lookup email s.google_mappings)) { role = role })
              s.google_mappings;
      },
      none,
    )

unfoldable pub upsert_google_group_role : Env → Str → Str → Mutation
unfolding put_google_group
upsert_google_group_role env group_email role =
    checked (reject_if (is_empty (fold group_email)) (group_required (codes "google")))
      (λ _. mutate_config_and_persist (put_google_group env (fold group_email) (fold role)))

unfoldable pub remove_google_group : Str → Mutation
remove_google_group email s = elim (lookup email s.google_mappings) [
  | none ↦ (s, some no_rows)
  | some _ ↦ (record s { google_mappings = delete email s.google_mappings }, none)
]

unfoldable pub delete_google_group_role : Str → Mutation
unfolding remove_google_group
delete_google_group_role group_email =
    checked (reject_if (is_empty (fold group_email)) (group_required (codes "google")))
      (λ _. mutate_config_and_persist (remove_google_group (fold group_email)))

-- ResetGoogleAuth
unfoldable pub reset_google_auth : Env → Mutation
reset_google_auth env = mutate_config_and_persist λ s. (
  record s {
    google_config = record {
      client_id = [];
      client_secret = [];
      hosted_domain = [];
      service_account_json = [];
      delegated_admin_email = [];
      updated_at = env.stamp;
    };
    google_mappings = [];
  },
  none,
)

-- The order in which a user's groups are tried: the roles that are administrators come first.
unfoldable pub role_rank_before : Store → Str → Str → Str → Str → Bool
role_rank_before s role key other_role other_key =
    let left = mode_is_admin (lookup role s.roles) in
    let right = mode_is_admin (lookup other_role s.roles) in
    if left && not right
    then left
    else if not left && right
    then left
    else if not (role == other_role)
    then less role other_role
    else less key other_key

-- The groups of a user in normal form; the empty ones are left out.
unfoldable pub normalized_groups : (Str → Str) → List Str → List Str
normalized_groups normal [] = []
normalized_groups normal (g ∷ gs) =
    let rest = normalized_groups normal gs in if is_empty (normal g) then rest else normal g ∷ rest

-- The first of the sorted mappings that the test accepts.
unfoldable pub find_first {ℓ} : {A : Type ℓ} → (A → Bool) → List A → Option A
find_first p [] = none
find_first p (x ∷ xs) = if p x then some x else find_first p xs

-- ResolveGoogleRole: the role and the mapping that gives it.
unfoldable pub resolve_google_role : Store → List Str → Result (Str × Str)
unfolding normalized_groups role_rank_before find_first
resolve_google_role s groups = do
  let normalized = normalized_groups fold groups
  reject_if (is_empty normalized) (not_in_mapped_group (codes "google"))
  let before =
      λ (a b : GoogleGroupRole). role_rank_before s a.role a.group_email b.role b.group_email
  let mappings = sort_by before (values s.google_mappings)
  elim (find_first (λ m. mem (to_lower m.group_email) normalized) mappings) [
    | none ↦ err (not_in_mapped_group (codes "google"))
    | some m ↦ ok (m.role, m.group_email)
  ]

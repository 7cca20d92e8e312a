-- ===== src/Users/Oidc.antt =====
-- oidc.go: the OpenID Connect and Entra ID configurations and the roles of their groups.
pub mod Keeps
use beaverdeck.Base.{Bool, not, ◌&&◌, Option, none, some, List, [], ◌∷◌, is_empty, if◌then◌else◌}
use beaverdeck.Text.{Str, codes, ◌==◌, less, trim_space, to_lower, fold}
use beaverdeck.GoMap.{GoMap, lookup, put, delete, values}
use beaverdeck.GoMap.Sorted.{sort_by}
use beaverdeck.Users.Types.{
  no_rows, role_missing, group_required, not_in_mapped_group, Result, ok, err, ◌>>=◌, ◌>>◌,
  reject_if, OidcConfig, OidcGroupRole, Store, Env,
}
use beaverdeck.Users.Locked.{role_exists}
use beaverdeck.Users.Permissions.{mem}
use beaverdeck.Users.Google.{role_rank_before, find_first, normalized_groups}
use beaverdeck.Users.Snapshot.{Mutation, checked, mutate_config_and_persist, oidc_before}

pub data OidcProvider : Type 0 where
  generic entra : OidcProvider

-- oidcProviderLabel, which is the default name of the provider too
abbrev pub provider_label : OidcProvider → Str
provider_label generic = codes "OpenID Connect"
provider_label entra = codes "Azure Entra ID"

abbrev pub default_scopes : OidcProvider → Str
default_scopes generic = codes "openid email profile groups"
default_scopes entra = codes "openid email profile User.Read GroupMember.Read.All"

abbrev pub default_email_claim : Str
default_email_claim = codes "email"

abbrev pub default_groups_claim : Str
default_groups_claim = codes "groups"

abbrev pub config_of : OidcProvider → Store → OidcConfig
config_of generic s = s.oidc_config
config_of entra s = s.entra_config

abbrev pub with_config : OidcProvider → OidcConfig → Store → Store
with_config generic cfg s = record s { oidc_config = cfg }
with_config entra cfg s = record s { entra_config = cfg }

abbrev pub mappings_of : OidcProvider → Store → GoMap OidcGroupRole
mappings_of generic s = s.oidc_mappings
mappings_of entra s = s.entra_mappings

abbrev pub with_mappings : OidcProvider → GoMap OidcGroupRole → Store → Store
with_mappings generic m s = record s { oidc_mappings = m }
with_mappings entra m s = record s { entra_mappings = m }

-- The text without its spaces, or a default where nothing is left.
unfoldable pub trim_or : Str → Str → Str
trim_or value default = if is_empty (trim_space value) then default else trim_space value

unfoldable pub normalized_oidc_config : OidcProvider → Str → OidcConfig → OidcConfig
unfolding trim_or
normalized_oidc_config provider updated_at cfg = record {
  provider_name = trim_or cfg.provider_name (provider_label provider);
  issuer_url = trim_space cfg.issuer_url;
  client_id = trim_space cfg.client_id;
  client_secret = trim_space cfg.client_secret;
  scopes = trim_or cfg.scopes (default_scopes provider);
  hosted_domain = fold cfg.hosted_domain;
  email_claim = trim_or cfg.email_claim default_email_claim;
  groups_claim = trim_or cfg.groups_claim default_groups_claim;
  updated_at = updated_at;
}

-- updateOIDCConfig
unfoldable pub update_oidc_config : Env → OidcProvider → OidcConfig → Mutation
unfolding normalized_oidc_config
update_oidc_config env provider cfg =
    mutate_config_and_persist
      λ s. (with_config provider (normalized_oidc_config provider env.stamp cfg) s, none)

-- listOIDCGroupRoles
unfoldable pub list_oidc_group_roles : OidcProvider → Store → List OidcGroupRole
list_oidc_group_roles provider s = sort_by oidc_before (values (mappings_of provider s))

abbrev oidc_entry : Env → Str → Option OidcGroupRole → OidcGroupRole
oidc_entry env name none = record { group_name = name; role = []; created_at = env.now }
oidc_entry env name (some item) = item

-- The closure of upsertOIDCGroupRole.
unfoldable pub put_oidc_group : Env → OidcProvider → Str → Str → Mutation
put_oidc_group env provider name role s =
    if not (role_exists s role)
    then (s, some (role_missing role))
    else let m = mappings_of provider s in
      let entry = oidc_entry env name (lookup (to_lower name) m) in
      (
        with_mappings provider
            (put (to_lower name) (record entry { group_name = name; role = role }) m) s,
        none,
      )

unfoldable pub upsert_oidc_group_role : Env → OidcProvider → Str → Str → Mutation
unfolding put_oidc_group
upsert_oidc_group_role env provider group_name role =
    checked
      (reject_if (is_empty (trim_space group_name)) (group_required (provider_label provider)))
      (λ _.
        mutate_config_and_persist (put_oidc_group env provider (trim_space group_name) (fold role)))

-- The closure of deleteOIDCGroupRole.
unfoldable pub remove_oidc_group : OidcProvider → Str → Mutation
remove_oidc_group provider key s = elim (lookup key (mappings_of provider s)) [
  | none ↦ (s, some no_rows)
  | some _ ↦ (with_mappings provider (delete key (mappings_of provider s)) s, none)
]

unfoldable pub delete_oidc_group_role : OidcProvider → Str → Mutation
unfolding remove_oidc_group
delete_oidc_group_role provider group_name =
    checked
      (reject_if (is_empty (trim_space group_name)) (group_required (provider_label provider)))
      (λ _.
        mutate_config_and_persist (remove_oidc_group provider (to_lower (trim_space group_name))))

-- resetOIDCAuth
unfoldable pub reset_oidc_auth : Env → OidcProvider → Mutation
reset_oidc_auth env provider = mutate_config_and_persist λ s. (
  with_mappings provider [] (
      with_config provider
        (record {
          provider_name = provider_label provider;
          issuer_url = [];
          client_id = [];
          client_secret = [];
          scopes = default_scopes provider;
          hosted_domain = [];
          email_claim = default_email_claim;
          groups_claim = default_groups_claim;
          updated_at = env.stamp;
        })
        s),
  none,
)

-- resolveOIDCRole: the role and the mapping that gives it.
unfoldable pub resolve_oidc_role : OidcProvider → Store → List Str → Result (Str × Str)
unfolding normalized_groups role_rank_before find_first
resolve_oidc_role provider s groups = do
  let normalized = normalized_groups (λ g. to_lower (trim_space g)) groups
  reject_if (is_empty normalized) (not_in_mapped_group (provider_label provider))
  let before = λ (a b : OidcGroupRole).
      role_rank_before s a.role (to_lower a.group_name) b.role (to_lower b.group_name)
  let mappings = sort_by before (values (mappings_of provider s))
  elim (find_first (λ m. mem (to_lower (trim_space m.group_name)) normalized) mappings) [
    | none ↦ err (not_in_mapped_group (provider_label provider))
    | some m ↦ ok (m.role, m.group_name)
  ]

-- ===== src/Users/Normalize/Providers.antt =====
-- config_snapshot.go: normalizeConfigGoogle and normalizeOIDCProviderConfig.
use beaverdeck.Base.{ℕ, ◌*◌, false, not, List, [], ◌∷◌, ◌++◌, any, nat_eq, ltb}
use beaverdeck.Text.{Str, codes, trim_space, to_lower, fold, byte_len}
use beaverdeck.GoMap.{GoMap, has}
use beaverdeck.GoMap.Sorted.{sort_by}
use beaverdeck.Users.Types.{
  role_missing, field_too_long, field_has_controls, duplicate, Result, ok, ◌>>=◌, ◌>>◌, reject_if,
  RoleDef, GoogleConfig, GoogleGroupRole, OidcConfig, OidcGroupRole, ConfigGoogleAuth,
  ConfigOidcAuth,
}
use beaverdeck.Users.Fields.{clean_config_field, validate_config_text_fields, at_stage, or_now}
use beaverdeck.Users.Permissions.{mem}
use beaverdeck.Users.Oidc.{OidcProvider, generic, entra, normalized_oidc_config}
use beaverdeck.Users.Snapshot.{google_before, oidc_before}

-- One Google mapping of the input.
unfoldable pub normalize_google_mapping :
    GoMap RoleDef → ℕ → List Str → GoogleGroupRole → Result GoogleGroupRole
normalize_google_mapping role_defs now seen item = do
  email ← clean_config_field (codes "google group email") (to_lower item.group_email) 320 false
  reject_if (mem email seen) (duplicate email)
  reject_if (not (has (fold item.role) role_defs)) (role_missing (fold item.role))
  ok (record {
    group_email = email;
    role = fold item.role;
    created_at = or_now now item.created_at;
  })

unfoldable pub collect_google :
    GoMap RoleDef → ℕ → List Str → List GoogleGroupRole → Result (List GoogleGroupRole)
collect_google role_defs now seen [] = ok []
collect_google role_defs now seen (item ∷ rest) = do
  normalized ← normalize_google_mapping role_defs now seen item
  others ← collect_google role_defs now (normalized.group_email ∷ seen) rest
  ok (normalized ∷ others)

abbrev pub trimmed_google_config : GoogleConfig → GoogleConfig
trimmed_google_config cfg = record {
  client_id = trim_space cfg.client_id;
  client_secret = trim_space cfg.client_secret;
  hosted_domain = fold cfg.hosted_domain;
  service_account_json = trim_space cfg.service_account_json;
  delegated_admin_email = fold cfg.delegated_admin_email;
  updated_at = trim_space cfg.updated_at;
}

unfoldable pub check_google_config : GoogleConfig → Result (Unit {0})
check_google_config cfg = at_stage (codes "google config") (do
  validate_config_text_fields
      ((codes "client_id", cfg.client_id)
        ∷ (codes "client_secret", cfg.client_secret)
        ∷ (codes "hosted_domain", cfg.hosted_domain)
        ∷ (codes "delegated_admin_email", cfg.delegated_admin_email)
        ∷ [])
      4096
  reject_if (any (λ c. nat_eq c 0) cfg.service_account_json)
      (field_has_controls (codes "service_account_json"))
  reject_if (ltb (128 * 1024) (byte_len cfg.service_account_json))
      (field_too_long (codes "service_account_json")))

-- normalizeConfigGoogle
unfoldable pub normalize_config_google :
    GoMap RoleDef → ℕ → ConfigGoogleAuth → Result ConfigGoogleAuth
unfolding check_google_config collect_google
normalize_config_google role_defs now input = do
  let cfg = trimmed_google_config input.config
  check_google_config cfg
  mappings ← at_stage (codes "google mappings") (collect_google role_defs now [] input.mappings)
  ok (record { config = cfg; mappings = sort_by google_before mappings })

-- The key of a provider in the texts of errors.
abbrev provider_key : OidcProvider → Str
provider_key generic = codes "oidc"
provider_key entra = codes "entra"

-- One group mapping of a provider.
unfoldable pub normalize_oidc_mapping :
    OidcProvider → GoMap RoleDef → ℕ → List Str → OidcGroupRole → Result OidcGroupRole
normalize_oidc_mapping provider role_defs now seen item = do
  name ← clean_config_field (provider_key provider ++ codes " group") item.group_name 512 false
  reject_if (mem (to_lower name) seen) (duplicate name)
  reject_if (not (has (fold item.role) role_defs)) (role_missing (fold item.role))
  ok (record { group_name = name; role = fold item.role; created_at = or_now now item.created_at })

unfoldable pub collect_oidc :
    OidcProvider → GoMap RoleDef → ℕ → List Str → List OidcGroupRole → Result (List OidcGroupRole)
collect_oidc provider role_defs now seen [] = ok []
collect_oidc provider role_defs now seen (item ∷ rest) = do
  normalized ← normalize_oidc_mapping provider role_defs now seen item
  others ← collect_oidc provider role_defs now (to_lower normalized.group_name ∷ seen) rest
  ok (normalized ∷ others)

unfoldable pub check_oidc_config : OidcProvider → OidcConfig → Result (Unit {0})
check_oidc_config provider cfg = at_stage (provider_key provider ++ codes " config") (
    validate_config_text_fields
      ((codes "provider_name", cfg.provider_name)
        ∷ (codes "issuer_url", cfg.issuer_url)
        ∷ (codes "client_id", cfg.client_id)
        ∷ (codes "client_secret", cfg.client_secret)
        ∷ (codes "scopes", cfg.scopes)
        ∷ (codes "hosted_domain", cfg.hosted_domain)
        ∷ (codes "email_claim", cfg.email_claim)
        ∷ (codes "groups_claim", cfg.groups_claim)
        ∷ [])
      4096)

-- normalizeOIDCProviderConfig
unfoldable pub normalize_config_oidc :
    OidcProvider → GoMap RoleDef → ℕ → ConfigOidcAuth → Result ConfigOidcAuth
unfolding check_oidc_config collect_oidc
normalize_config_oidc provider role_defs now input = do
  let cfg = normalized_oidc_config provider (trim_space input.config.updated_at) input.config
  check_oidc_config provider cfg
  mappings ←
      at_stage (provider_key provider ++ codes " mappings")
        (collect_oidc provider role_defs now [] input.mappings)
  ok (record { config = cfg; mappings = sort_by oidc_before mappings })

-- ===== src/Users/Import.antt =====
-- config_snapshot.go and store.go: the operations that install a whole configuration.
pub mod Keeps
use beaverdeck.Base.{ℕ, Bool, true, false, Option, none, some, List, [], ◌∷◌}
use beaverdeck.Text.{Str, codes}
use beaverdeck.Users.Types.{
  Err, Result, ok, err, role_admin, no_permissions, ConfigSnapshot, GoogleConfig, OidcConfig,
  ConfigOidcAuth, Store, Env, ConfigSaver,
}
use beaverdeck.Users.Json.{JsonCodec}
use beaverdeck.Users.Oidc.{
  OidcProvider, generic, entra, provider_label, default_scopes, default_email_claim,
  default_groups_claim,
}
use beaverdeck.Users.Snapshot.{
  Mutation, checked, snapshot, apply_snapshot, save_config_snapshot, mutate_config_and_persist,
  schema_version_1,
}
use beaverdeck.Users.Normalize.{normalize_config_snapshot}

-- ImportConfigSnapshot, for the start of the program: nothing is stored.
unfoldable pub import_config_snapshot : JsonCodec → Env → ConfigSnapshot → Mutation
import_config_snapshot codec env c =
    checked (normalize_config_snapshot codec env.now c) (λ n s. (apply_snapshot n s, none))

-- ReplaceConfigSnapshot
unfoldable pub replace_config_snapshot : JsonCodec → Env → ConfigSnapshot → Mutation
replace_config_snapshot codec env c =
    checked (normalize_config_snapshot codec env.now c)
      (λ n. mutate_config_and_persist (λ s. (apply_snapshot n s, none)))

abbrev default_google_config : GoogleConfig
default_google_config = record {
  client_id = [];
  client_secret = [];
  hosted_domain = [];
  service_account_json = [];
  delegated_admin_email = [];
  updated_at = [];
}

abbrev default_oidc : OidcProvider → ConfigOidcAuth
default_oidc provider = record {
  config = record {
    provider_name = provider_label provider;
    issuer_url = [];
    client_id = [];
    client_secret = [];
    scopes = default_scopes provider;
    hosted_domain = [];
    email_claim = default_email_claim;
    groups_claim = default_groups_claim;
    updated_at = [];
  };
  mappings = [];
}

unfoldable pub default_config_snapshot : ℕ → ConfigSnapshot
default_config_snapshot now = record {
  schema_version = schema_version_1;
  exported_at = [];
  initialized = false;
  roles =
      record {
        name = role_admin;
        mode = role_admin;
        permissions = no_permissions;
        created_at = now;
      }
      ∷ [];
  users = [];
  google = record { config = default_google_config; mappings = [] };
  oidc = default_oidc generic;
  entra = default_oidc entra;
}

-- ResetToEmptyConfig
unfoldable pub reset_to_empty_config : Env → Store → Store
unfolding default_config_snapshot
reset_to_empty_config env = apply_snapshot (default_config_snapshot env.now)

-- The store before Open applies the default configuration.
abbrev empty_store : Str → Store
empty_store key = record {
  session_signing_key = key;
  sessions = [];
  roles = [];
  users = [];
  session_versions = [];
  google_config = default_google_config;
  google_mappings = [];
  oidc_config = (default_oidc generic).config;
  oidc_mappings = [];
  entra_config = (default_oidc entra).config;
  entra_mappings = [];
  config_saver = none;
}

-- Open, after the database is there and the signing key is drawn.
unfoldable pub open_store : Env → Str → Store
unfolding default_config_snapshot
open_store env key = apply_snapshot (default_config_snapshot env.now) (empty_store key)

-- SetConfigSaver
unfoldable pub set_config_saver : ConfigSaver → Store → Store
set_config_saver saver s = record s { config_saver = saver }

-- ExportConfig, and the snapshot that PersistConfig saves
unfoldable pub export_config : Env → Store → ConfigSnapshot
export_config env s = record (snapshot s) { exported_at = env.stamp }

-- PersistConfig
unfoldable pub persist_config : Env → Store → Option Err
unfolding export_config
persist_config env s = save_config_snapshot s (export_config env s)

-- ===== src/Users/Commands.antt =====
-- Every operation of internal/users that changes the configuration of an open store, as one type of
-- commands, so that runs of a store are sequences of commands.
pub mod Valid
pub mod Atomic
pub mod Admins
pub mod Keeping
pub mod Guarded
pub mod Demotion
pub mod Started
use beaverdeck.Base.{Bool, true, false, none, List, [], ◌∷◌}
use beaverdeck.Text.{Str}
use beaverdeck.Users.Types.{GoogleConfig, OidcConfig, ConfigSnapshot, Store, Env}
use beaverdeck.Users.Json.{JsonCodec}
use beaverdeck.Users.Passwords.{Crypto}
use beaverdeck.Users.Snapshot.{Mutation}
use beaverdeck.Users.Accounts
use beaverdeck.Users.Roles
use beaverdeck.Users.Bootstrap
use beaverdeck.Users.Google
use beaverdeck.Users.Oidc
use beaverdeck.Users.Oidc.{OidcProvider}
use beaverdeck.Users.Import

-- The operations; a proof opens them all by this name.
unfoldable pub all_operations : Unit {0}
unfolding Accounts.create_user Accounts.update_user_role Accounts.reset_local_password
    Accounts.delete_user Roles.create_role Roles.update_role Roles.delete_role
    Bootstrap.complete_bootstrap Google.update_google_config Google.upsert_google_group_role
    Google.delete_google_group_role Google.reset_google_auth Oidc.update_oidc_config
    Oidc.upsert_oidc_group_role Oidc.delete_oidc_group_role Oidc.reset_oidc_auth
all_operations = tt

pub data Command : Type 0 where
  create_user : (username token role : Str) → Command
  update_user_role : (username role : Str) → Command
  reset_local_password : (username password : Str) → Command
  delete_user : (username : Str) → Command
  create_role update_role : (name mode permissions : Str) → Command
  delete_role : (name : Str) → Command
  complete_bootstrap : (username password : Str) → Command
  update_google_config : GoogleConfig → Command
  upsert_google_group_role : (group_email role : Str) → Command
  delete_google_group_role : (group_email : Str) → Command
  reset_google_auth : Command
  update_oidc_config : OidcProvider → OidcConfig → Command
  upsert_oidc_group_role : OidcProvider → (group_name role : Str) → Command
  delete_oidc_group_role : OidcProvider → (group_name : Str) → Command
  reset_oidc_auth : OidcProvider → Command
  import_config replace_config : ConfigSnapshot → Command
  -- ResetToEmptyConfig and EnsureDefaults, and what VerifyLocalCredentials does with a checked
  -- hash that is due for an upgrade
  reset_to_empty_config ensure_defaults : Command
  upgrade_hash : (username password previous : Str) → Command

module _ (crypto : Crypto) (codec : JsonCodec) where
  unfoldable pub run : Env → Command → Mutation
  run env (create_user u t r) = Accounts.create_user crypto env u t r
  run env (update_user_role u r) = Accounts.update_user_role u r
  run env (reset_local_password u p) = Accounts.reset_local_password crypto env u p
  run env (delete_user u) = Accounts.delete_user u
  run env (create_role n m p) = Roles.create_role codec env n m p
  run env (update_role n m p) = Roles.update_role codec n m p
  run env (delete_role n) = Roles.delete_role n
  run env (complete_bootstrap u p) = Bootstrap.complete_bootstrap crypto env u p
  run env (update_google_config c) = Google.update_google_config env c
  run env (upsert_google_group_role g r) = Google.upsert_google_group_role env g r
  run env (delete_google_group_role g) = Google.delete_google_group_role g
  run env reset_google_auth = Google.reset_google_auth env
  run env (update_oidc_config p c) = Oidc.update_oidc_config env p c
  run env (upsert_oidc_group_role p g r) = Oidc.upsert_oidc_group_role env p g r
  run env (delete_oidc_group_role p g) = Oidc.delete_oidc_group_role p g
  run env (reset_oidc_auth p) = Oidc.reset_oidc_auth env p
  run env (import_config c) = Import.import_config_snapshot codec env c
  run env (replace_config c) = Import.replace_config_snapshot codec env c
  run env reset_to_empty_config = λ s. (Import.reset_to_empty_config env s, none)
  run env ensure_defaults = λ s. (Bootstrap.ensure_defaults env s, none)
  run env (upgrade_hash u p previous) = λ s. (Accounts.upgrade_hash crypto env u p previous s, none)

  -- A run of the program: each command with its environment, whether it succeeds or not.
  unfoldable pub run_all : List (Env × Command) → Store → Store
  unfolding run
  run_all [] s = s
  run_all ((env, c) ∷ rest) s = run_all rest (run env c s).0

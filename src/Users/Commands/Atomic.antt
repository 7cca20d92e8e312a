-- ===== src/Users/Commands/Atomic.antt =====
-- The commands one by one, where they return an error.
use beaverdeck.Base.{◌≡◌, subst, sym, Bool, true, false, none, some, is_empty, arith}
use beaverdeck.Text.{Str, fold, trim_space, to_lower}
use beaverdeck.Users.Types.{Err, Result, ok, err, reject_if, ConfigSnapshot, Store, Env}
use beaverdeck.Users.Json.{JsonCodec}
use beaverdeck.Users.Passwords.{Crypto}
use beaverdeck.Users.Snapshot.{Mutation, checked, mutate_config_and_persist, apply_snapshot}
use beaverdeck.Users.Snapshot.Laws.{persist-SameConfig}
use beaverdeck.Users.Invariant.{IsValid, SameConfig, SameConfig-refl}
use beaverdeck.Users.Normalize.{normalize_config_snapshot}
use beaverdeck.Users.Accounts
use beaverdeck.Users.Roles
use beaverdeck.Users.Google
use beaverdeck.Users.Oidc
use beaverdeck.Users.Import
use beaverdeck.Users.Commands.{
  Command, create_user, update_user_role, reset_local_password, delete_user, create_role,
  update_role, delete_role, complete_bootstrap, update_google_config, upsert_google_group_role,
  delete_google_group_role, reset_google_auth, update_oidc_config, upsert_oidc_group_role,
  delete_oidc_group_role, reset_oidc_auth, import_config, replace_config, reset_to_empty_config,
  ensure_defaults, upgrade_hash, all_operations, run,
}

-- A closure that writes nothing before it fails.
abbrev FailsClean : Mutation → Store → Type 0
FailsClean mutate s = (e : Err) → (mutate s).1 ≡ some e → (mutate s).0 ≡ s

module _ (s : Store) where
  add_user_clean : (env : Env) (u r h : Str) → FailsClean (Accounts.add_user env u r h) s
  unfolding Accounts.add_user
  add_user_clean env u r h e fails = ground arith

  change_user_role_clean : (u r : Str) → FailsClean (Accounts.change_user_role u r) s
  unfolding Accounts.change_user_role
  change_user_role_clean u r e fails = ground arith

  set_password_clean : (u h : Str) → FailsClean (Accounts.set_password u h) s
  unfolding Accounts.set_password
  set_password_clean u h e fails = ground arith

  remove_user_clean : (u : Str) → FailsClean (Accounts.remove_user u) s
  unfolding Accounts.remove_user
  remove_user_clean u e fails = ground arith

  add_role_clean : (env : Env) (n m p : Str) → FailsClean (Roles.add_role env n m p) s
  unfolding Roles.add_role
  add_role_clean env n m p e fails = ground arith

  change_role_clean : (n m p : Str) → FailsClean (Roles.change_role n m p) s
  unfolding Roles.change_role
  change_role_clean n m p e fails = ground arith

  remove_role_clean : (n : Str) → FailsClean (Roles.remove_role n) s
  unfolding Roles.remove_role
  remove_role_clean n e fails = ground arith

  put_google_group_clean : (env : Env) (g r : Str) → FailsClean (Google.put_google_group env g r) s
  unfolding Google.put_google_group
  put_google_group_clean env g r e fails = ground arith

  remove_google_group_clean : (g : Str) → FailsClean (Google.remove_google_group g) s
  unfolding Google.remove_google_group
  remove_google_group_clean g e fails = ground arith

  put_oidc_group_clean :
      (env : Env) (p : Oidc.OidcProvider) (g r : Str) → FailsClean (Oidc.put_oidc_group env p g r) s
  unfolding Oidc.put_oidc_group
  put_oidc_group_clean env p g r e fails = ground arith

  remove_oidc_group_clean :
      (p : Oidc.OidcProvider) (g : Str) → FailsClean (Oidc.remove_oidc_group p g) s
  unfolding Oidc.remove_oidc_group
  remove_oidc_group_clean p g e fails = ground arith

module _ (s : Store) (valid : IsValid s) where
  persisted :
      (mutate : Mutation)
      → FailsClean mutate s
      → (e : Err) → (mutate_config_and_persist mutate s).1 ≡ some e
      → SameConfig (mutate_config_and_persist mutate s).0 s
  persisted mutate clean e =
      persist-SameConfig mutate s e valid
        (λ e fails. subst (λ t. SameConfig t s) (sym (clean e fails)) (SameConfig-refl s))

  checked_persisted :
      {A : Type 0} (r : Result A) (f : A → Mutation)
      → ((a : A) → FailsClean (f a) s)
      → (e : Err) → (checked r (λ a. mutate_config_and_persist (f a)) s).1 ≡ some e
      → SameConfig (checked r (λ a. mutate_config_and_persist (f a)) s).0 s
  checked_persisted (err e') f clean e fails = SameConfig-refl s
  checked_persisted (ok a) f clean e fails = persisted (f a) (clean a) e fails

-- The bootstrap is apart: it writes the default role before it finds that an administrator is there.
abbrev pub is_bootstrap : Command → Bool
is_bootstrap (complete_bootstrap u p) = true
is_bootstrap _ = false

module _ (crypto : Crypto) (codec : JsonCodec) where
  -- A command other than the bootstrap that returns an error, from its checks, its closure or the failed
  -- save, leaves every configuration map with the same entries, and the provider configurations and
  -- the session versions as they were.
  pub run-SameConfig :
      (env : Env) (c : Command) (s : Store) (e : Err)
      → is_bootstrap c ≡ false
      → IsValid s
      → (run crypto codec env c s).1 ≡ some e
      → SameConfig (run crypto codec env c s).0 s
  unfolding run all_operations Import.import_config_snapshot Import.replace_config_snapshot
  run-SameConfig env (create_user u t r) s e b valid =
      checked_persisted s valid (Accounts.new_user_input crypto env u t) _
        (λ a. add_user_clean s env a.0 (fold r) a.1) e
  run-SameConfig env (update_user_role u r) s e b valid =
      checked_persisted s valid (reject_if (is_empty (trim_space u)) _) _
        (λ _. change_user_role_clean s (trim_space u) (fold r)) e
  run-SameConfig env (reset_local_password u p) s e b valid =
      checked_persisted s valid (Accounts.new_password_input crypto env u p) _
        (λ h. set_password_clean s (trim_space u) h) e
  run-SameConfig env (delete_user u) s e b valid =
      checked_persisted s valid (reject_if (is_empty (trim_space u)) _) _
        (λ _. remove_user_clean s (trim_space u)) e
  run-SameConfig env (create_role n m p) s e b valid =
      checked_persisted s valid (Roles.check_role codec n m p) _
        (λ a. add_role_clean s env a.0 a.1 a.2) e
  run-SameConfig env (update_role n m p) s e b valid =
      checked_persisted s valid (Roles.check_role codec n m p) _
        (λ a. change_role_clean s a.0 a.1 a.2) e
  run-SameConfig env (delete_role n) s e b valid =
      checked_persisted s valid (Roles.deletable n) _ (λ _. remove_role_clean s (fold n)) e
  run-SameConfig env (complete_bootstrap u p) s e b valid = absurd (cc)
  run-SameConfig env (update_google_config c) s e b valid = persisted s valid _ (λ e h. cc) e
  run-SameConfig env (upsert_google_group_role g r) s e b valid =
      checked_persisted s valid (reject_if (is_empty (fold g)) _) _
        (λ _. put_google_group_clean s env (fold g) (fold r)) e
  run-SameConfig env (delete_google_group_role g) s e b valid =
      checked_persisted s valid (reject_if (is_empty (fold g)) _) _
        (λ _. remove_google_group_clean s (fold g)) e
  run-SameConfig env reset_google_auth s e b valid = persisted s valid _ (λ e h. cc) e
  run-SameConfig env (update_oidc_config p c) s e b valid = persisted s valid _ (λ e h. cc) e
  run-SameConfig env (upsert_oidc_group_role p g r) s e b valid =
      checked_persisted s valid (reject_if (is_empty (trim_space g)) _) _
        (λ _. put_oidc_group_clean s env p (trim_space g) (fold r)) e
  run-SameConfig env (delete_oidc_group_role p g) s e b valid =
      checked_persisted s valid (reject_if (is_empty (trim_space g)) _) _
        (λ _. remove_oidc_group_clean s p (to_lower (trim_space g))) e
  run-SameConfig env (reset_oidc_auth p) s e b valid = persisted s valid _ (λ e h. cc) e
  run-SameConfig env (import_config c) s e b valid =
      imported (normalize_config_snapshot codec env.now c)
    where
      imported :
          (r : Result ConfigSnapshot)
          → (checked r (λ n s. (apply_snapshot n s, none)) s).1 ≡ some e
          → SameConfig (checked r (λ n s. (apply_snapshot n s, none)) s).0 s
      imported (err x) h = SameConfig-refl s
      imported (ok n) h = absurd (cc)
  run-SameConfig env (replace_config c) s e b valid =
      checked_persisted s valid (normalize_config_snapshot codec env.now c)
        (λ n s. (apply_snapshot n s, none)) (λ n e h. cc) e
  run-SameConfig env reset_to_empty_config s e b valid = λ fails. absurd cc
  run-SameConfig env ensure_defaults s e b valid = λ fails. absurd cc
  run-SameConfig env (upgrade_hash u p previous) s e b valid = λ fails. absurd cc

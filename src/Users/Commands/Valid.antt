-- ===== src/Users/Commands/Valid.antt =====
-- The commands one by one, and the well-formedness of the store; runs of commands.
use beaverdeck.Base.{◌≡◌, refl, List, [], ◌∷◌, is_empty}
use beaverdeck.Text.{Str, fold, trim_space, to_lower}
use beaverdeck.Text.Laws.{fold_idem, trim_space_idem, to_lower-fold}
use beaverdeck.GoMap.Entries.{MapOf-nil}
use beaverdeck.Users.Types.{Result, ok, err, reject_if, username_required, Store, Env}
use beaverdeck.Users.Json.{JsonCodec}
use beaverdeck.Users.Passwords.{Crypto, hash_local_password}
use beaverdeck.Users.Passwords.Laws.{hash_local_password-not_blank}
use beaverdeck.Users.Snapshot.{Mutation, checked, mutate_config_and_persist}
use beaverdeck.Users.Snapshot.Laws.{persist-IsValid}
use beaverdeck.Users.Invariant.{IsValid}
use beaverdeck.Users.Accounts.Laws.{new_user_input-not_blank, new_password_input-not_blank}
use beaverdeck.Users.Accounts.Keeps.{
  add_user-IsValid, change_user_role-IsValid, set_password-IsValid, remove_user-IsValid,
  replace_hash-IsValid,
}
use beaverdeck.Users.Oidc.{with_config}
use beaverdeck.Users.Roles.Keeps.{
  check_role_name, add_role-IsValid, change_role-IsValid, remove_role-IsValid,
}
use beaverdeck.Users.Bootstrap.Keeps.{
  ensure_defaults-IsValid, add_first_admin-IsValid, first_admin_input-not_blank,
}
use beaverdeck.Users.Google.Keeps.{
  with_google-IsValid, put_google_group-IsValid, remove_google_group-IsValid,
}
use beaverdeck.Users.Oidc.Keeps.{
  with_config-IsValid, with_mappings-IsValid, put_oidc_group-IsValid, remove_oidc_group-IsValid,
}
use beaverdeck.Users.Import.Keeps.{
  import_config_snapshot-IsValid, replace_config_snapshot-IsValid, reset_to_empty_config-IsValid,
}
use beaverdeck.Users.Accounts
use beaverdeck.Users.Roles
use beaverdeck.Users.Bootstrap
use beaverdeck.Users.Google
use beaverdeck.Users.Oidc
use beaverdeck.Users.Commands.{
  Command, create_user, update_user_role, reset_local_password, delete_user, create_role,
  update_role, delete_role, complete_bootstrap, update_google_config, upsert_google_group_role,
  delete_google_group_role, reset_google_auth, update_oidc_config, upsert_oidc_group_role,
  delete_oidc_group_role, reset_oidc_auth, import_config, replace_config, reset_to_empty_config,
  ensure_defaults, upgrade_hash, all_operations, run, run_all,
}

-- An operation that checks its input first, and then persists a change that keeps stores valid.
checked-IsValid :
    {A : Type 0} (r : Result A) (f : A → Mutation) (s : Store)
    → IsValid s
    → ((a : A) → r ≡ ok a → IsValid (f a s).0)
    → IsValid (checked r f s).0
checked-IsValid (ok a) f s valid keeps = keeps a refl
checked-IsValid (err e) f s valid keeps = valid

module _ (crypto : Crypto) (codec : JsonCodec) where
  run-IsValid :
      (env : Env) (c : Command) (s : Store) → IsValid s → IsValid (run crypto codec env c s).0
  unfolding run all_operations Accounts.upgrade_hash
  run-IsValid env (create_user u t r) s valid =
      checked-IsValid (Accounts.new_user_input crypto env u t) _ s valid λ (name, hash) e.
        persist-IsValid (Accounts.add_user env name (fold r) hash) s valid (
          add_user-IsValid env name (fold r) hash s (fold_idem r)
            (new_user_input-not_blank crypto env u t name hash e) valid)
  run-IsValid env (update_user_role u r) s valid =
      checked-IsValid (reject_if (is_empty (trim_space u)) username_required) _ s valid λ _ e.
        persist-IsValid (Accounts.change_user_role (trim_space u) (fold r)) s valid
          (change_user_role-IsValid (trim_space u) (fold r) s (fold_idem r) valid)
  run-IsValid env (reset_local_password u p) s valid =
      checked-IsValid (Accounts.new_password_input crypto env u p) _ s valid λ hash e.
        persist-IsValid (Accounts.set_password (trim_space u) hash) s valid (
          set_password-IsValid (trim_space u) hash s
            (new_password_input-not_blank crypto env u p hash e) valid)
  run-IsValid env (delete_user u) s valid =
      checked-IsValid (reject_if (is_empty (trim_space u)) username_required) _ s valid λ _ e.
        persist-IsValid (Accounts.remove_user (trim_space u)) s valid
          (remove_user-IsValid (trim_space u) s valid)
  run-IsValid env (create_role n m p) s valid =
      checked-IsValid (Roles.check_role codec n m p) _ s valid λ (name, mode, perms) e.
        persist-IsValid (Roles.add_role env name mode perms) s valid (
          add_role-IsValid env name mode perms s (check_role_name codec n m p name mode perms e)
            valid)
  run-IsValid env (update_role n m p) s valid =
      checked-IsValid (Roles.check_role codec n m p) _ s valid λ (name, mode, perms) e.
        persist-IsValid (Roles.change_role name mode perms) s valid
          (change_role-IsValid name mode perms s valid)
  run-IsValid env (delete_role n) s valid = checked-IsValid (Roles.deletable n) _ s valid λ _ e.
      persist-IsValid (Roles.remove_role (fold n)) s valid (remove_role-IsValid (fold n) s valid)
  run-IsValid env (complete_bootstrap u p) s valid =
      checked-IsValid (Bootstrap.first_admin_input crypto env u p) _ s valid λ (name, hash) e.
        persist-IsValid (Bootstrap.add_first_admin env name hash) s valid (
          add_first_admin-IsValid env name hash s
            (first_admin_input-not_blank crypto env u p name hash e) valid)
  run-IsValid env (update_google_config c) s valid =
      persist-IsValid _ s valid (with_google-IsValid s valid _ s.google_mappings valid.google)
  run-IsValid env (upsert_google_group_role g r) s valid =
      checked-IsValid (reject_if (is_empty (fold g)) _) _ s valid λ _ e.
        persist-IsValid (Google.put_google_group env (fold g) (fold r)) s valid
          (put_google_group-IsValid env (fold g) (fold r) s (to_lower-fold g) (fold_idem r) valid)
  run-IsValid env (delete_google_group_role g) s valid =
      checked-IsValid (reject_if (is_empty (fold g)) _) _ s valid λ _ e.
        persist-IsValid (Google.remove_google_group (fold g)) s valid
          (remove_google_group-IsValid (fold g) s valid)
  run-IsValid env reset_google_auth s valid =
      persist-IsValid _ s valid (with_google-IsValid s valid _ [] MapOf-nil)
  run-IsValid env (update_oidc_config p c) s valid =
      persist-IsValid _ s valid (with_config-IsValid p _ s valid)
  run-IsValid env (upsert_oidc_group_role p g r) s valid =
      checked-IsValid (reject_if (is_empty (trim_space g)) _) _ s valid λ _ e.
        persist-IsValid (Oidc.put_oidc_group env p (trim_space g) (fold r)) s valid (
          put_oidc_group-IsValid env p (trim_space g) (fold r) s (trim_space_idem g) (fold_idem r)
            valid)
  run-IsValid env (delete_oidc_group_role p g) s valid =
      checked-IsValid (reject_if (is_empty (trim_space g)) _) _ s valid λ _ e.
        persist-IsValid (Oidc.remove_oidc_group p (to_lower (trim_space g))) s valid
          (remove_oidc_group-IsValid p (to_lower (trim_space g)) s valid)
  run-IsValid env (reset_oidc_auth p) s valid =
      persist-IsValid _ s valid
        (with_mappings-IsValid p (with_config p _ s) [] (with_config-IsValid p _ s valid) MapOf-nil)
  run-IsValid env (import_config c) s valid = import_config_snapshot-IsValid codec env c s valid
  run-IsValid env (replace_config c) s valid = replace_config_snapshot-IsValid codec env c s valid
  run-IsValid env reset_to_empty_config s valid = reset_to_empty_config-IsValid env s
  run-IsValid env ensure_defaults s valid = ensure_defaults-IsValid env s valid
  run-IsValid env (upgrade_hash u p previous) s valid =
      upgraded (hash_local_password crypto env (trim_space p)) refl
    where
      upgraded :
          (r : Result Str)
          → hash_local_password crypto env (trim_space p) ≡ r
          → IsValid (elim r [
            | err _ ↦ s
            | ok hash ↦
                (mutate_config_and_persist (Accounts.replace_hash (trim_space u) previous hash) s).0
          ])
      upgraded (err e) h = valid
      upgraded (ok hash) h =
          persist-IsValid (Accounts.replace_hash (trim_space u) previous hash) s valid (
            replace_hash-IsValid (trim_space u) previous hash s
              (hash_local_password-not_blank crypto env (trim_space p) hash h) valid)

  -- Whatever sequence of commands a valid store is given, failing ones included, it stays valid: every
  -- map is keyed by its values, each user and each group mapping names a role that is defined, and each
  -- user has a password hash and a session version.
  pub run_all-IsValid :
      (commands : List (Env × Command)) (s : Store)
      → IsValid s
      → IsValid (run_all crypto codec commands s)
  unfolding run_all
  run_all-IsValid [] s valid = valid
  run_all-IsValid ((env, c) ∷ rest) s valid =
      run_all-IsValid rest (run crypto codec env c s).0 (run-IsValid env c s valid)

-- ===== src/Users/Commands/Guarded.antt =====
-- The commands one by one, and the local administrators before and after each.
use beaverdeck.Base.{◌≡◌, refl, Bool, true, false, is_empty}
use beaverdeck.Text.{Str, fold, trim_space, to_lower}
use beaverdeck.Text.Laws.{fold_idem}
use beaverdeck.Users.Types.{Result, ok, err, reject_if, Store, Env}
use beaverdeck.Users.Locked.{has_local_admin}
use beaverdeck.Users.Json.{JsonCodec}
use beaverdeck.Users.Passwords.{Crypto, hash_local_password}
use beaverdeck.Users.Passwords.Laws.{hash_local_password-not_blank}
use beaverdeck.Users.Snapshot.{mutate_config_and_persist}
use beaverdeck.Users.Invariant.{IsValid}
use beaverdeck.Users.Accounts
use beaverdeck.Users.Accounts.Laws.{new_password_input-not_blank}
use beaverdeck.Users.Roles
use beaverdeck.Users.Roles.Keeps.{check_role_name}
use beaverdeck.Users.Bootstrap
use beaverdeck.Users.Commands.{
  Command, create_user, update_user_role, reset_local_password, delete_user, create_role,
  update_role, delete_role, complete_bootstrap, update_google_config, upsert_google_group_role,
  delete_google_group_role, reset_google_auth, update_oidc_config, upsert_oidc_group_role,
  delete_oidc_group_role, reset_oidc_auth, import_config, replace_config, reset_to_empty_config,
  ensure_defaults, upgrade_hash, all_operations, run,
}
use beaverdeck.Users.Commands.Admins.{
  persisted, checked_persisted, remove_user_keeps, change_user_role_keeps,
}
use beaverdeck.Users.Commands.Keeping.{
  add_user_keeps, replace_hash_keeps, set_password_keeps, add_role_keeps, remove_role_keeps,
  ensure_defaults_keeps, add_first_admin_keeps, put_google_group_keeps, remove_google_group_keeps,
  put_oidc_group_keeps, remove_oidc_group_keeps, new_name-trimmed, with_config_keeps,
  with_mappings_keeps,
}

-- The commands that may take the last local administrator away.
abbrev pub may_demote : Command → Bool
may_demote (update_role n m p) = true
may_demote (import_config c) = true
may_demote (replace_config c) = true
may_demote reset_to_empty_config = true
may_demote _ = false

module _ (crypto : Crypto) (codec : JsonCodec) where
  -- A valid store with a local administrator still has one after any command, successful or not, other
  -- than the change of a role, the two imports and the reset to the empty configuration.
  pub run-has_local_admin :
      (env : Env) (c : Command) (s : Store)
      → may_demote c ≡ false
      → IsValid s
      → has_local_admin s ≡ true
      → has_local_admin (run crypto codec env c s).0 ≡ true
  unfolding run all_operations Accounts.upgrade_hash
  run-has_local_admin env (create_user u t r) s d valid =
      checked_persisted s valid (Accounts.new_user_input crypto env u t) _ (λ (name, hash) e.
        add_user_keeps s valid env name (fold r) hash (new_name-trimmed crypto env u t name hash e))
  run-has_local_admin env (update_user_role u r) s d valid =
      checked_persisted s valid (reject_if (is_empty (trim_space u)) _) _
        (λ _ e. change_user_role_keeps s valid (trim_space u) (fold r) (fold_idem r))
  run-has_local_admin env (delete_user u) s d valid =
      checked_persisted s valid (reject_if (is_empty (trim_space u)) _) _
        (λ _ e. remove_user_keeps s valid (trim_space u))
  run-has_local_admin env (reset_local_password u p) s d valid =
      checked_persisted s valid (Accounts.new_password_input crypto env u p) _ (λ hash e.
        set_password_keeps s valid (trim_space u) hash
          (new_password_input-not_blank crypto env u p hash e))
  run-has_local_admin env (create_role n m p) s d valid =
      checked_persisted s valid (Roles.check_role codec n m p) _ (λ (name, mode, perms) e.
        add_role_keeps s valid env name mode perms (check_role_name codec n m p name mode perms e))
  run-has_local_admin env (update_role n m p) s d valid = absurd (cc)
  run-has_local_admin env (delete_role n) s d valid =
      checked_persisted s valid (Roles.deletable n) _ (λ _ e. remove_role_keeps s valid (fold n))
  run-has_local_admin env (complete_bootstrap u p) s d valid =
      checked_persisted s valid (Bootstrap.first_admin_input crypto env u p) _
        (λ (name, hash) e. add_first_admin_keeps s valid env name hash)
  run-has_local_admin env (update_google_config c) s d valid =
      persisted s valid _ (λ h. unfold has_local_admin in h)
  run-has_local_admin env (upsert_google_group_role g r) s d valid =
      checked_persisted s valid (reject_if (is_empty (fold g)) _) _
        (λ _ e. put_google_group_keeps s valid env (fold g) (fold r))
  run-has_local_admin env (delete_google_group_role g) s d valid =
      checked_persisted s valid (reject_if (is_empty (fold g)) _) _
        (λ _ e. remove_google_group_keeps s valid (fold g))
  run-has_local_admin env reset_google_auth s d valid =
      persisted s valid _ (λ h. unfold has_local_admin in h)
  run-has_local_admin env (update_oidc_config p c) s d valid =
      persisted s valid _ (with_config_keeps p _ s)
  run-has_local_admin env (upsert_oidc_group_role p g r) s d valid =
      checked_persisted s valid (reject_if (is_empty (trim_space g)) _) _
        (λ _ e. put_oidc_group_keeps s valid env p (trim_space g) (fold r))
  run-has_local_admin env (delete_oidc_group_role p g) s d valid =
      checked_persisted s valid (reject_if (is_empty (trim_space g)) _) _
        (λ _ e. remove_oidc_group_keeps s valid p (to_lower (trim_space g)))
  run-has_local_admin env (reset_oidc_auth p) s d valid =
      persisted s valid _ (λ h. with_mappings_keeps p _ _ (with_config_keeps p _ s h))
  run-has_local_admin env (import_config c) s d valid = absurd (cc)
  run-has_local_admin env (replace_config c) s d valid = absurd (cc)
  run-has_local_admin env reset_to_empty_config s d valid = absurd (cc)
  run-has_local_admin env ensure_defaults s d valid = ensure_defaults_keeps s valid env
  run-has_local_admin env (upgrade_hash u p previous) s d valid =
      λ h. upgraded h (hash_local_password crypto env (trim_space p)) refl
    where
      upgraded :
          has_local_admin s ≡ true
          → (r : Result Str) → hash_local_password crypto env (trim_space p) ≡ r
          → has_local_admin (elim r [
            | err _ ↦ s
            | ok hash ↦
                (mutate_config_and_persist (Accounts.replace_hash (trim_space u) previous hash) s).0
          ])
            ≡ true
      upgraded h (err e) given = h
      upgraded h (ok hash) given =
          persisted s valid (Accounts.replace_hash (trim_space u) previous hash)
            (replace_hash_keeps s valid (trim_space u) previous hash
              (hash_local_password-not_blank crypto env (trim_space p) hash given))
            h

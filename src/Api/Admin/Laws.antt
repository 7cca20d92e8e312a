-- ===== src/Api/Admin/Laws.antt =====
-- Who may change the user store, and what a refused change leaves.
use beaverdeck.Base.{
  ℕ, ◌≡◌, refl, ◌⊎◌, inl, inr, Bool, true, false, Option, none, some, [], ◌∷◌, if◌then◌else◌,
}
use beaverdeck.Users.Types.{Err, Result, ok, err, ConfigSnapshot, Store, Env}
use beaverdeck.Users.Json.{JsonCodec}
use beaverdeck.Users.Passwords.{Crypto}
use beaverdeck.Users.Invariant.{IsValid, SameConfig, SameConfig-refl}
use beaverdeck.Users.Normalize.{normalize_config_snapshot}
use beaverdeck.Users.Commands
use beaverdeck.Users.Commands.{Command, run, run_all}
use beaverdeck.Users.Commands.Valid.{run_all-IsValid}
use beaverdeck.Users.Commands.Atomic.{is_bootstrap, run-SameConfig}
use beaverdeck.Api.Request.{Request}
use beaverdeck.Api.Permissions.{is_admin}
use beaverdeck.Api.Admin

module _ (crypto : Crypto) (codec : JsonCodec) (env : Env) (r : Request) (s : Store) where
  -- A valid store, which is changed only by an administrator's request with status 200.
  abbrev pub IsGuarded : Store × ℕ → Type 0
  IsGuarded after =
      IsValid after.0 × (((is_admin r ≡ true) × (after.1 ≡ 200)) ⊎ SameConfig after.0 s)

  run-IsValid : (c : Command) → IsValid s → IsValid (run crypto codec env c s).0
  unfolding run_all
  run-IsValid c valid = run_all-IsValid crypto codec ((env, c) ∷ []) s valid

  answer-IsGuarded :
      (status : Err → ℕ) (c : Command)
      → is_bootstrap c ≡ false
      → IsValid s
      → is_admin r ≡ true
      → IsGuarded (Admin.answer crypto codec env r s status c)
  unfolding Admin.answer
  answer-IsGuarded status c plain valid admin =
      (run-IsValid c valid, outcome (run crypto codec env c s).1 refl)
    where
      outcome :
          (failed : Option Err)
          → (run crypto codec env c s).1 ≡ failed
          → ((is_admin r ≡ true) × (Admin.status_of status failed ≡ 200))
            ⊎ SameConfig (run crypto codec env c s).0 s
      outcome none h = inl (admin, refl)
      outcome (some e) h = inr (run-SameConfig crypto codec env c s e plain valid h)

  unchanged-IsGuarded : (status : ℕ) → IsValid s → IsGuarded (s, status)
  unchanged-IsGuarded status valid = (valid, inr (SameConfig-refl s))

  -- requireAdmin and the decoding of the body keep the store.
  gate-IsGuarded :
      (admin : Bool) (x : Store × ℕ)
      → IsValid s
      → (admin ≡ true → IsGuarded x)
      → IsGuarded (if admin then x else (s, 403))
  gate-IsGuarded true x valid rest = rest refl
  gate-IsGuarded false x valid rest = unchanged-IsGuarded 403 valid

  body-IsGuarded :
      {B : Type 0} (body : Option B) (next : B → Store × ℕ)
      → IsValid s
      → ((b : B) → IsGuarded (next b))
      → IsGuarded (elim body as (λ _. Store × ℕ) [ none ↦ (s, 400) | some b ↦ next b ])
  body-IsGuarded none next valid rest = unchanged-IsGuarded 400 valid
  body-IsGuarded (some b) next valid rest = rest b

  admin_change-IsGuarded :
      {B : Type 0} (status : Err → ℕ) (command : B → Command) (body : Option B)
      → ((b : B) → is_bootstrap (command b) ≡ false)
      → IsValid s
      → IsGuarded (Admin.admin_change crypto codec env r s status command body)
  unfolding Admin.admin_change
  admin_change-IsGuarded status command body plain valid =
      gate-IsGuarded (is_admin r) _ valid λ admin.
        body-IsGuarded body _ valid λ b. answer-IsGuarded status (command b) (plain b) valid admin

  import-IsGuarded :
      (body : Option ConfigSnapshot)
      → IsValid s
      → IsGuarded (Admin.admin_config_import crypto codec env r s body)
  unfolding Admin.admin_config_import Admin.import_decoded
  import-IsGuarded body valid = gate-IsGuarded (is_admin r) _ valid λ admin.
      body-IsGuarded body _ valid
        λ snapshot. decoded admin (normalize_config_snapshot codec env.now snapshot)
    where
      decoded :
          is_admin r ≡ true
          → (n : Result ConfigSnapshot) → IsGuarded (Admin.import_decoded crypto codec env r s n)
      decoded admin (err e) = unchanged-IsGuarded 400 valid
      decoded admin (ok normalized) =
          answer-IsGuarded Admin.internal_error (Commands.replace_config normalized) refl valid
            admin

  -- Whatever the request to an administration route, a valid store stays valid; and it is changed only
  -- when the request is an administrator's and is answered with the status 200: otherwise it keeps the
  -- same configuration and session versions.
  pub admin_handle-IsGuarded :
      (endpoint : Admin.AdminEndpoint)
      → IsValid s
      → IsGuarded (Admin.admin_handle crypto codec env r s endpoint)
  unfolding Admin.admin_handle Admin.admin_users_create Admin.admin_users_update_role
      Admin.admin_users_reset_password Admin.admin_users_delete Admin.admin_roles_create
      Admin.admin_roles_update Admin.admin_roles_delete Admin.admin_google_config_update
      Admin.admin_google_reset Admin.admin_google_mappings_upsert Admin.admin_google_mappings_delete
      Admin.admin_oidc_config_update Admin.admin_oidc_reset Admin.admin_oidc_mappings_upsert
      Admin.admin_oidc_mappings_delete
  admin_handle-IsGuarded (Admin.users_create body) = admin_change-IsGuarded _ _ body λ b. refl
  admin_handle-IsGuarded (Admin.users_update_role body) = admin_change-IsGuarded _ _ body λ b. refl
  admin_handle-IsGuarded (Admin.users_reset_password body) =
      admin_change-IsGuarded _ _ body λ b. refl
  admin_handle-IsGuarded (Admin.users_delete body) = admin_change-IsGuarded _ _ body λ b. refl
  admin_handle-IsGuarded (Admin.roles_delete body) = admin_change-IsGuarded _ _ body λ b. refl
  admin_handle-IsGuarded (Admin.roles_create body) = admin_change-IsGuarded _ _ body λ b. refl
  admin_handle-IsGuarded (Admin.roles_update body) = admin_change-IsGuarded _ _ body λ b. refl
  admin_handle-IsGuarded (Admin.google_config_update body) =
      admin_change-IsGuarded _ _ body λ b. refl
  admin_handle-IsGuarded Admin.google_reset = admin_change-IsGuarded _ _ (some tt) λ b. refl
  admin_handle-IsGuarded (Admin.google_mappings_upsert body) =
      admin_change-IsGuarded _ _ body λ b. refl
  admin_handle-IsGuarded (Admin.google_mappings_delete body) =
      admin_change-IsGuarded _ _ body λ b. refl
  admin_handle-IsGuarded (Admin.oidc_config_update provider body) =
      admin_change-IsGuarded _ _ body λ b. refl
  admin_handle-IsGuarded (Admin.oidc_reset provider) =
      admin_change-IsGuarded _ _ (some tt) λ b. refl
  admin_handle-IsGuarded (Admin.oidc_mappings_upsert provider body) =
      admin_change-IsGuarded _ _ body λ b. refl
  admin_handle-IsGuarded (Admin.oidc_mappings_delete provider body) =
      admin_change-IsGuarded _ _ body λ b. refl
  admin_handle-IsGuarded (Admin.config_import body) = import-IsGuarded body

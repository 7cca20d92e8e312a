-- ===== src/Users/Commands/Started.antt =====
-- CompleteBootstrap of bootstrap.go and the local administrators.
use beaverdeck.Base.{
  ◌≡◌, refl, ap, ◌∙◌, true, false, none, is_empty, Bool-cases, Option-cases, inl, inr,
}
use beaverdeck.Text.{Str, trim_space}
use beaverdeck.Text.Laws.{eq_self}
use beaverdeck.GoMap.{lookup, put}
use beaverdeck.GoMap.Laws.{lookup-put}
use beaverdeck.Users.Types.{Result, ok, err, ConfigUser, Store, Env, role_admin}
use beaverdeck.Users.Locked.{has_local_admin, mode_is_admin, next_session_version, version_of}
use beaverdeck.Users.Invariant.{IsValid}
use beaverdeck.Users.Passwords.{Crypto}
use beaverdeck.Users.Snapshot.{checked, mutate_config_and_persist}
use beaverdeck.Users.Snapshot.Laws.{persist-eq_ok}
use beaverdeck.Users.Bootstrap.{
  ensure_defaults, add_first_admin, first_admin_input, complete_bootstrap,
}
use beaverdeck.Users.Bootstrap.Keeps.{first_admin_input-not_blank}
use beaverdeck.Users.Commands.Admins.{admin_intro}
use beaverdeck.Users.Commands.Keeping.{ensure_defaults_keeps}

-- After the defaults the role admin has the mode admin.
admin_role :
    (env : Env) (s : Store) → mode_is_admin (lookup role_admin (ensure_defaults env s).roles) ≡ true
unfolding ensure_defaults
admin_role env s = elim (Option-cases (lookup role_admin s.roles)) [
  | inl e ↦ rw (ensure_defaults, e, lookup-put, eq_self) (eq_self role_admin)
  | inr (d, e) ↦ rw (ensure_defaults, e, lookup-put, eq_self) (eq_self role_admin)
]

module _ (env : Env) (name hash : Str) (s : Store) where
  abbrev first : ConfigUser
  first = record { username = name; role = role_admin; password_hash = hash; created_at = env.now }

  abbrev started : Store
  started = record (ensure_defaults env s) {
    users = put name first (ensure_defaults env s).users;
    session_versions =
        put name (next_session_version (version_of (ensure_defaults env s) name))
          (ensure_defaults env s).session_versions;
  }

  started-has_local_admin : is_empty (trim_space hash) ≡ false → has_local_admin started ≡ true
  started-has_local_admin full =
      admin_intro started name first (rw (lookup-put, eq_self) refl)
        (rw (full, admin_role env s) refl)

  add_first_admin-eq_none :
      (add_first_admin env name hash s).1 ≡ none
      → (has_local_admin (ensure_defaults env s) ≡ false)
        × ((add_first_admin env name hash s).0 ≡ started)
  unfolding add_first_admin
  add_first_admin-eq_none = elim (Bool-cases (has_local_admin (ensure_defaults env s))) [
    | inl e ↦ rw (add_first_admin, e) λ h. absurd (cc)
    | inr e ↦ rw (add_first_admin, e) λ h. (refl, refl)
  ]

module _ (crypto : Crypto) (env : Env) (username password : Str) (s : Store)
    (valid : IsValid s) where
  opened :
      (r : Result (Str × Str))
      → first_admin_input crypto env username password ≡ r
      → (checked r (λ (name, hash). mutate_config_and_persist (add_first_admin env name hash)) s).1
        ≡ none
      → (has_local_admin s ≡ false)
        × (has_local_admin
              (checked r
                (λ (name, hash). mutate_config_and_persist (add_first_admin env name hash))
                s).0
            ≡ true)
  opened (err e) given h = absurd (cc)
  opened (ok (name, hash)) given h =
      let (e1, e2, _) = persist-eq_ok (add_first_admin env name hash) s h in
      let (before, made) = add_first_admin-eq_none env name hash s e1 in
      let full = first_admin_input-not_blank crypto env username password name hash given in
      (
        elim (Bool-cases (has_local_admin s)) [
          | inr e ↦ e
          | inl e ↦ absurd (let there = ensure_defaults_keeps s valid env e in cc)
        ],
        ap has_local_admin (e2 ∙ made) ∙ started-has_local_admin env name hash s full,
      )

  -- When CompleteBootstrap succeeds on a valid store, no local administrator was there before, and one
  -- is there afterwards.
  pub complete_bootstrap-has_local_admin :
      (complete_bootstrap crypto env username password s).1 ≡ none
      → (has_local_admin s ≡ false)
        × (has_local_admin (complete_bootstrap crypto env username password s).0 ≡ true)
  unfolding complete_bootstrap
  complete_bootstrap-has_local_admin = opened (first_admin_input crypto env username password) refl

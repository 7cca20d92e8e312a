-- ===== src/Users/Commands/Keeping.antt =====
-- The closures of the operations of internal/users one by one, and the local administrators.
use beaverdeck.Base.{
  ◌≡◌, subst, sym, true, false, not, ◌&&◌, some, [], ◌∷◌, is_empty, arith, any, Bool-cases,
  Option-cases, inl, inr,
}
use beaverdeck.Text.{Str, fold, trim_space, to_lower, ◌==◌}
use beaverdeck.Text.Laws.{eq_self, trim_space_idem}
use beaverdeck.GoMap.{GoMap, lookup, put, delete, values, has}
use beaverdeck.GoMap.Laws.{lookup-delete, lookup-put, any-values-false}
use beaverdeck.Users.Types.{
  ok, RoleDef, ConfigUser, OidcConfig, OidcGroupRole, Store, Env, role_admin,
}
use beaverdeck.Users.Locked.{
  role_exists, has_folded_key, username_exists_folded, is_local_admin, has_local_admin,
}
use beaverdeck.Users.Fields.Laws.{clean_config_field-eq_ok}
use beaverdeck.Users.Passwords.{Crypto}
use beaverdeck.Users.Invariant.{IsValid}
use beaverdeck.Users.Accounts
use beaverdeck.Users.Accounts.Laws.{new_user_input-eq_ok}
use beaverdeck.Users.Roles
use beaverdeck.Users.Bootstrap
use beaverdeck.Users.Google
use beaverdeck.Users.Oidc
use beaverdeck.Users.Commands.Admins.{KeepsAdmin, admin_intro, admin_elim, put_keeps}

lookup-has_folded_key :
    (k : Str) (w : ConfigUser) (m : GoMap ConfigUser)
    → lookup k m ≡ some w
    → has_folded_key (to_lower k) m ≡ true
unfolding lookup has_folded_key
lookup-has_folded_key k w [] h = absurd (cc)
lookup-has_folded_key k w ((j, v) ∷ m) h = ground (arith, lookup-has_folded_key k w m)

module _ (s : Store) (valid : IsValid s) where
  is_new :
      (k : Str) (w : ConfigUser)
      → trim_space k ≡ k
      → username_exists_folded s k ≡ false
      → lookup k s.users ≡ some w
      → ⊥
  unfolding username_exists_folded
  is_new k w trimmed fresh found =
      let there = lookup-has_folded_key k w s.users found in
      let missing : has_folded_key (to_lower k) s.users ≡ false = rw trimmed at fresh in cc

  pub add_user_keeps :
      (env : Env) (k role hash : Str)
      → trim_space k ≡ k
      → KeepsAdmin (Accounts.add_user env k role hash) s
  unfolding Accounts.add_user
  add_user_keeps env k role hash trimmed h = elim (Bool-cases (role_exists s role)) [
    | inr e ↦ rw (e, Accounts.add_user) h
    | inl e ↦ elim (Bool-cases (username_exists_folded s k)) [
      | inl t ↦ rw (e, t, Accounts.add_user) h
      | inr f ↦
          rw (e, f, Accounts.add_user)
            (put_keeps s valid k _ _ (λ w found _. absurd (is_new k w trimmed f found)) h)
    ]
  ]

  still :
      (hash : Str) (u w : ConfigUser) (k : Str)
      → is_empty (trim_space hash) ≡ false
      → lookup k s.users ≡ some u
      → lookup k s.users ≡ some w
      → is_local_admin s w ≡ true
      → is_local_admin s (record u { password_hash = hash }) ≡ true
  still hash u w k full t found admin =
      let same : u ≡ w = cc in
      subst (λ x. is_local_admin s (record x { password_hash = hash }) ≡ true) (sym same)
        (rw full (ground arith))

  pub replace_hash_keeps :
      (k previous hash : Str)
      → is_empty (trim_space hash) ≡ false
      → KeepsAdmin (Accounts.replace_hash k previous hash) s
  unfolding Accounts.replace_hash
  replace_hash_keeps k previous hash full h = elim (Option-cases (lookup k s.users)) [
    | inl t ↦ rw (t, Accounts.replace_hash) h
    | inr (u, t) ↦ elim (Bool-cases (u.password_hash == previous)) [
      | inr other ↦ rw (t, other, Accounts.replace_hash) h
      | inl same ↦
          rw (t, same, Accounts.replace_hash)
            (put_keeps s valid k _ s.session_versions
              (λ w found admin. still hash u w k full t found admin) h)
    ]
  ]

  pub set_password_keeps :
      (k hash : Str)
      → is_empty (trim_space hash) ≡ false
      → KeepsAdmin (Accounts.set_password k hash) s
  unfolding Accounts.set_password
  set_password_keeps k hash full h = elim (Option-cases (lookup k s.users)) [
    | inl t ↦ rw (t, Accounts.set_password) h
    | inr (u, t) ↦
        rw (t, Accounts.set_password)
          (put_keeps s valid k _ _ (λ w found admin. still hash u w k full t found admin) h)
  ]

  -- A change of the roles that leaves the administrators' roles as they are, or makes them such.
  roles_keep :
      (roles : GoMap RoleDef)
      → ((u : ConfigUser)
          → has u.role s.roles ≡ true
          → is_local_admin s u ≡ true
          → is_local_admin (record s { roles = roles }) u ≡ true)
      → has_local_admin s ≡ true
      → has_local_admin (record s { roles = roles }) ≡ true
  roles_keep roles keeps h =
      let (k, u, found, admin) = admin_elim s valid h in
      admin_intro _ k u found (keeps u (valid.users.entries k u found).1.1 admin)

  pub add_role_keeps :
      (env : Env) (n m p : Str) → fold n ≡ n → KeepsAdmin (Roles.add_role env n m p) s
  unfolding Roles.add_role role_exists
  add_role_keeps env n m p folded h = elim (Bool-cases (role_exists s n)) [
    | inl e ↦ rw (e, Roles.add_role) h
    | inr e ↦
        rw (e, Roles.add_role)
          (roles_keep _
            (λ u there admin.
              rw (lookup-put n u.role) (ground (arith, other u there (rw folded at e))))
            h)
  ]
    where
      other :
          (u : ConfigUser)
          → has u.role s.roles ≡ true
          → has n s.roles ≡ false
          → (n == u.role) ≡ false
      other u there fresh = ground arith

  without_role_keeps :
      (n : Str)
      → any (λ u. u.role == n) (values s.users) ≡ false
      → has_local_admin s ≡ true
      → has_local_admin (record s { roles = delete n s.roles }) ≡ true
  without_role_keeps n unused h =
      let (k, u, found, admin) = admin_elim s valid h in
      let other = any-values-false (λ u. u.role == n) s.users k u unused found in
      admin_intro _ k u found (rw (lookup-delete n u.role s.roles valid.roles.nodup) (ground arith))

  pub remove_role_keeps : (n : Str) → KeepsAdmin (Roles.remove_role n) s
  unfolding Roles.remove_role
  remove_role_keeps n h = elim (Bool-cases (any (λ u. u.role == n) (values s.users))) [
    | inr u ↦ ground (arith, without_role_keeps n u h)
    | inl u ↦ ground arith
  ]

  admin_role_keeps :
      (n : Str) (r : RoleDef)
      → (r.mode == role_admin) ≡ true
      → has_local_admin s ≡ true
      → has_local_admin (record s { roles = put n r s.roles }) ≡ true
  admin_role_keeps n r mode = roles_keep (put n r s.roles) λ u there admin.
      rw (lookup-put n u.role r s.roles) (elim (Bool-cases (n == u.role)) [
        | inl e ↦ rw (e, mode) (blank_test u admin)
        | inr e ↦ rw e admin
      ])
    where
      blank_test :
          (u : ConfigUser)
          → is_local_admin s u ≡ true
          → (not (is_empty (trim_space u.password_hash)) && true) ≡ true
      blank_test u admin = ground arith

  pub ensure_defaults_keeps :
      (env : Env)
      → has_local_admin s ≡ true
      → has_local_admin (Bootstrap.ensure_defaults env s) ≡ true
  unfolding Bootstrap.ensure_defaults
  ensure_defaults_keeps env h = elim (Option-cases (lookup role_admin s.roles)) [
    | inl t ↦
        rw (t, Bootstrap.ensure_defaults) (admin_role_keeps role_admin _ (eq_self role_admin) h)
    | inr (r, t) ↦
        rw (t, Bootstrap.ensure_defaults) (admin_role_keeps role_admin _ (eq_self role_admin) h)
  ]

  pub add_first_admin_keeps :
      (env : Env) (name hash : Str) → KeepsAdmin (Bootstrap.add_first_admin env name hash) s
  unfolding Bootstrap.add_first_admin
  add_first_admin_keeps env name hash h =
      let there = ensure_defaults_keeps env h in rw (there, Bootstrap.add_first_admin) there

  pub put_google_group_keeps :
      (env : Env) (g r : Str) → KeepsAdmin (Google.put_google_group env g r) s
  unfolding Google.put_google_group has_local_admin
  put_google_group_keeps env g r h = ground arith

  pub remove_google_group_keeps : (g : Str) → KeepsAdmin (Google.remove_google_group g) s
  unfolding Google.remove_google_group has_local_admin
  remove_google_group_keeps g h = ground arith

  pub put_oidc_group_keeps :
      (env : Env) (p : Oidc.OidcProvider) (g r : Str) → KeepsAdmin (Oidc.put_oidc_group env p g r) s
  unfolding Oidc.put_oidc_group has_local_admin
  put_oidc_group_keeps env p g r h = ground arith

  pub remove_oidc_group_keeps :
      (p : Oidc.OidcProvider) (g : Str) → KeepsAdmin (Oidc.remove_oidc_group p g) s
  unfolding Oidc.remove_oidc_group has_local_admin
  remove_oidc_group_keeps p g h = ground arith

pub new_name-trimmed :
    (crypto : Crypto) (env : Env) (u t name hash : Str)
    → Accounts.new_user_input crypto env u t ≡ ok (name, hash)
    → trim_space name ≡ name
new_name-trimmed crypto env u t name hash e =
    let cleaned = (new_user_input-eq_ok crypto env u t name hash e).0 in
    rw (clean_config_field-eq_ok _ u 160 false name cleaned).0 (trim_space_idem u)

pub with_config_keeps :
    (p : Oidc.OidcProvider) (cfg : OidcConfig) (s : Store)
    → has_local_admin s ≡ true
    → has_local_admin (Oidc.with_config p cfg s) ≡ true
unfolding has_local_admin
with_config_keeps Oidc.generic cfg s h = h
with_config_keeps Oidc.entra cfg s h = h

pub with_mappings_keeps :
    (p : Oidc.OidcProvider) (m : GoMap OidcGroupRole) (s : Store)
    → has_local_admin s ≡ true
    → has_local_admin (Oidc.with_mappings p m s) ≡ true
unfolding has_local_admin
with_mappings_keeps Oidc.generic m s h = h
with_mappings_keeps Oidc.entra m s h = h

-- ===== src/Users/Normalize/Laws.antt =====
-- What a normalised configuration satisfies, list by list.
use beaverdeck.Base.{
  ℕ, ◌≡◌, refl, subst, ◌∙◌, Bool, true, false, List, [], ◌∷◌, arith, is_empty, Bool-cases, inl, inr,
}
use beaverdeck.Text.{Str, fold, trim_space, to_lower, codes}
use beaverdeck.Text.Laws.{fold_idem, trim_space_idem}
use beaverdeck.GoMap.{GoMap, put, has}
use beaverdeck.GoMap.Entries.{MapOf, MapOf-put, MapOf-nil}
use beaverdeck.GoMap.Lists.{All, All-sort_by}
use beaverdeck.Users.Types.{
  ok, bind-eq_ok, role_admin, RoleDef, ConfigUser, GoogleGroupRole, OidcGroupRole, ConfigGoogleAuth,
  ConfigOidcAuth,
}
use beaverdeck.GoMap.Sorted.{sort_by}
use beaverdeck.Users.Snapshot.{user_before, google_before, oidc_before}
use beaverdeck.Users.Oidc.{OidcProvider, normalized_oidc_config}
use beaverdeck.Users.Normalize.Providers.{
  normalize_google_mapping, collect_google, check_google_config, trimmed_google_config,
  normalize_config_google, normalize_oidc_mapping, collect_oidc, check_oidc_config,
  normalize_config_oidc,
}
use beaverdeck.Users.Fields.{clean_config_field, is_local_password_hash, at_stage}
use beaverdeck.Users.Fields.Laws.{
  clean_config_field-eq_ok, at_stage-eq_ok, is_local_password_hash-not_blank,
}
use beaverdeck.Users.Json.{JsonCodec}
use beaverdeck.Users.Invariant.{RoleOk, DefOk}
use beaverdeck.Users.Normalize.Roles.{
  normalize_role, collect_roles, with_admin_role, normalize_config_roles, normalize_user,
  collect_users, normalize_config_users,
}

pub fold-trim_lower : (s : Str) → fold (trim_space (to_lower s)) ≡ trim_space (to_lower s)
fold-trim_lower s = unfold fold in (unfold fold in fold_idem s)

normalize_role_name :
    (codec : JsonCodec) (now : ℕ) (seen : GoMap RoleDef) (role def : RoleDef)
    → normalize_role codec now seen role ≡ ok def
    → fold def.name ≡ def.name
unfolding normalize_role
normalize_role_name codec now seen role def h =
    let (name, cleaned, h1) =
      bind-eq_ok (clean_config_field (codes "role name") (to_lower role.name) 80 false) _ h in
    let same : def.name ≡ name = ground arith in
    let trimmed : def.name ≡ trim_space (to_lower role.name) =
      same ∙ (clean_config_field-eq_ok _ _ _ _ name cleaned).0 in
    rw trimmed (fold-trim_lower role.name)

collect_roles-MapOf :
    (codec : JsonCodec) (now : ℕ) (seen : GoMap RoleDef) (input : List RoleDef)
    {out : GoMap RoleDef}
    → collect_roles codec now seen input ≡ ok out
    → MapOf DefOk seen
    → MapOf DefOk out
unfolding collect_roles
collect_roles-MapOf codec now seen [] h ok_seen = subst (MapOf DefOk) (cc) ok_seen
collect_roles-MapOf codec now seen (role ∷ rest) h ok_seen =
    let (def, e, h1) = bind-eq_ok (normalize_role codec now seen role) _ h in
    collect_roles-MapOf codec now (put def.name def seen) rest h1
      (MapOf-put def.name def ok_seen (refl, normalize_role_name codec now seen role def e))

with_admin_role-MapOf :
    (now : ℕ) (seen : GoMap RoleDef) → MapOf DefOk seen → MapOf DefOk (with_admin_role now seen)
with_admin_role-MapOf now seen kept = elim (Bool-cases (has role_admin seen)) [
  | inl t ↦ rw t kept
  | inr t ↦ rw t (MapOf-put role_admin _ kept (refl, unfold fold in refl))
]

-- The roles of a normalised configuration stand each under its own name, in normal form.
pub normalize_config_roles-MapOf :
    (codec : JsonCodec) (now : ℕ) (input : List RoleDef) {out : GoMap RoleDef}
    → normalize_config_roles codec now input ≡ ok out
    → MapOf DefOk out
unfolding normalize_config_roles
normalize_config_roles-MapOf codec now input {out} h =
    let (seen, e, h1) = bind-eq_ok (collect_roles codec now [] input) _ (at_stage-eq_ok _ _ h) in
    let same : with_admin_role now seen ≡ out = cc in
    subst (MapOf DefOk) same
      (with_admin_role-MapOf now seen (collect_roles-MapOf codec now [] input e MapOf-nil))

-- A user that passes: his role is defined and his hash is not blank.
abbrev pub UserItem : GoMap RoleDef → ConfigUser → Type 0
UserItem roles u = RoleOk roles u.role × (is_empty (trim_space u.password_hash) ≡ false)

normalize_user-UserItem :
    (roles : GoMap RoleDef) (now : ℕ) (seen : List Str) (user u : ConfigUser)
    → normalize_user roles now seen user ≡ ok u
    → UserItem roles u
unfolding normalize_user
normalize_user-UserItem roles now seen user u h =
    let role : u.role ≡ fold user.role = ground arith in
    let there : has (fold user.role) roles ≡ true = ground arith in
    let hash : u.password_hash ≡ trim_space user.password_hash = ground arith in
    let local : is_local_password_hash user.password_hash ≡ true = ground arith in
    (
      (rw role (fold_idem user.role), rw role there),
      rw (hash, trim_space_idem) (is_local_password_hash-not_blank user.password_hash local),
    )

collect_users-All :
    (roles : GoMap RoleDef) (now : ℕ) (seen : List Str) (input : List ConfigUser)
    {out : List ConfigUser}
    → collect_users roles now seen input ≡ ok out
    → All (UserItem roles) out
unfolding collect_users
collect_users-All roles now seen [] {out} h =
    let same : ◌≡◌ {A = List ConfigUser} [] out = cc in subst (All (UserItem roles)) same tt
collect_users-All roles now seen (user ∷ rest) {out} h =
    let (u, e, h1) = bind-eq_ok (normalize_user roles now seen user) _ h in
    let (us, e1, h2) =
      bind-eq_ok (collect_users roles now (to_lower u.username ∷ seen) rest) _ h1 in
    let same : u ∷ us ≡ out = cc in
    subst (All (UserItem roles)) same (
      normalize_user-UserItem roles now seen user u e,
      collect_users-All roles now (to_lower u.username ∷ seen) rest e1,
    )

-- Every user of a normalised configuration has a defined role and a hash that is not blank.
pub normalize_config_users-All :
    (roles : GoMap RoleDef) (now : ℕ) (initialized : Bool) (input : List ConfigUser)
    {out : List ConfigUser}
    → normalize_config_users roles now initialized input ≡ ok out
    → All (UserItem roles) out
unfolding normalize_config_users
normalize_config_users-All roles now initialized input {out} h =
    let (us, e, h1) = bind-eq_ok (collect_users roles now [] input) _ (at_stage-eq_ok _ _ h) in
    let same : sort_by user_before us ≡ out = ground arith in
    subst (All (UserItem roles)) same
      (All-sort_by (UserItem roles) user_before us (collect_users-All roles now [] input e))

-- A mapping that passes names a defined role.
abbrev pub GoogleItem : GoMap RoleDef → GoogleGroupRole → Type 0
GoogleItem roles g = RoleOk roles g.role

abbrev pub OidcItem : GoMap RoleDef → OidcGroupRole → Type 0
OidcItem roles g = RoleOk roles g.role

normalize_google_mapping-GoogleItem :
    (roles : GoMap RoleDef) (now : ℕ) (seen : List Str) (item g : GoogleGroupRole)
    → normalize_google_mapping roles now seen item ≡ ok g
    → GoogleItem roles g
unfolding normalize_google_mapping
normalize_google_mapping-GoogleItem roles now seen item g h =
    let role : g.role ≡ fold item.role = ground arith in
    let there : has (fold item.role) roles ≡ true = ground arith in
    (rw role (fold_idem item.role), rw role there)

collect_google-All :
    (roles : GoMap RoleDef) (now : ℕ) (seen : List Str) (input : List GoogleGroupRole)
    {out : List GoogleGroupRole}
    → collect_google roles now seen input ≡ ok out
    → All (GoogleItem roles) out
unfolding collect_google
collect_google-All roles now seen [] {out} h =
    let same : ◌≡◌ {A = List GoogleGroupRole} [] out = cc in subst (All (GoogleItem roles)) same tt
collect_google-All roles now seen (item ∷ rest) {out} h =
    let (g, e, h1) = bind-eq_ok (normalize_google_mapping roles now seen item) _ h in
    let (gs, e1, h2) = bind-eq_ok (collect_google roles now (g.group_email ∷ seen) rest) _ h1 in
    let same : g ∷ gs ≡ out = cc in
    subst (All (GoogleItem roles)) same (
      normalize_google_mapping-GoogleItem roles now seen item g e,
      collect_google-All roles now (g.group_email ∷ seen) rest e1,
    )

pub normalize_config_google-All :
    (roles : GoMap RoleDef) (now : ℕ) (input : ConfigGoogleAuth) {out : ConfigGoogleAuth}
    → normalize_config_google roles now input ≡ ok out
    → All (GoogleItem roles) out.mappings
unfolding normalize_config_google
normalize_config_google-All roles now input {out} h =
    let (checked, e, h1) =
      bind-eq_ok (check_google_config (trimmed_google_config input.config)) _ h in
    let (gs, e1, h2) = bind-eq_ok (at_stage _ (collect_google roles now [] input.mappings)) _ h1 in
    let same : sort_by google_before gs ≡ out.mappings = ground arith in
    subst (All (GoogleItem roles)) same (
      All-sort_by (GoogleItem roles) google_before gs
        (collect_google-All roles now [] input.mappings (at_stage-eq_ok _ _ e1)))

normalize_oidc_mapping-OidcItem :
    (provider : OidcProvider) (roles : GoMap RoleDef) (now : ℕ) (seen : List Str)
    (item g : OidcGroupRole)
    → normalize_oidc_mapping provider roles now seen item ≡ ok g
    → OidcItem roles g
unfolding normalize_oidc_mapping
normalize_oidc_mapping-OidcItem provider roles now seen item g h =
    let role : g.role ≡ fold item.role = ground arith in
    let there : has (fold item.role) roles ≡ true = ground arith in
    (rw role (fold_idem item.role), rw role there)

collect_oidc-All :
    (provider : OidcProvider) (roles : GoMap RoleDef) (now : ℕ) (seen : List Str)
    (input : List OidcGroupRole) {out : List OidcGroupRole}
    → collect_oidc provider roles now seen input ≡ ok out
    → All (OidcItem roles) out
unfolding collect_oidc
collect_oidc-All provider roles now seen [] {out} h =
    let same : ◌≡◌ {A = List OidcGroupRole} [] out = cc in subst (All (OidcItem roles)) same tt
collect_oidc-All provider roles now seen (item ∷ rest) {out} h =
    let (g, e, h1) = bind-eq_ok (normalize_oidc_mapping provider roles now seen item) _ h in
    let (gs, e1, h2) =
      bind-eq_ok (collect_oidc provider roles now (to_lower g.group_name ∷ seen) rest) _ h1 in
    let same : g ∷ gs ≡ out = cc in
    subst (All (OidcItem roles)) same (
      normalize_oidc_mapping-OidcItem provider roles now seen item g e,
      collect_oidc-All provider roles now (to_lower g.group_name ∷ seen) rest e1,
    )

pub normalize_config_oidc-All :
    (provider : OidcProvider) (roles : GoMap RoleDef) (now : ℕ) (input : ConfigOidcAuth)
    {out : ConfigOidcAuth}
    → normalize_config_oidc provider roles now input ≡ ok out
    → All (OidcItem roles) out.mappings
unfolding normalize_config_oidc
normalize_config_oidc-All provider roles now input {out} h =
    let (checked, e, h1) =
      bind-eq_ok
        (check_oidc_config provider
          (normalized_oidc_config provider (trim_space input.config.updated_at) input.config))
        _ h in
    let (gs, e1, h2) =
      bind-eq_ok (at_stage _ (collect_oidc provider roles now [] input.mappings)) _ h1 in
    let same : sort_by oidc_before gs ≡ out.mappings = ground arith in
    subst (All (OidcItem roles)) same (
      All-sort_by (OidcItem roles) oidc_before gs
        (collect_oidc-All provider roles now [] input.mappings (at_stage-eq_ok _ _ e1)))

-- ===== src/Users/Invariant.antt =====
-- The well-formedness of a store: every map is keyed by its values' names, every role that is named
-- is there, and every user has a session version and a password hash.
use beaverdeck.Base.{ℕ, ◌≡◌, refl, Bool, true, false, none, some, is_empty, nat_eq, arith}
use beaverdeck.Text.{Str, fold, trim_space}
use beaverdeck.GoMap.{GoMap, lookup, put, has, NodupKeys}
use beaverdeck.GoMap.Laws.{lookup-put}
use beaverdeck.GoMap.Entries.{MapOf, MapOf-map}
use beaverdeck.Users.Types.{RoleDef, ConfigUser, GoogleGroupRole, OidcGroupRole, Store}
use beaverdeck.Users.Snapshot.{google_key, oidc_key}

-- A role that is named in normal form and defined.
abbrev pub RoleOk : GoMap RoleDef → Str → Type 0
RoleOk roles role = (fold role ≡ role) × (has role roles ≡ true)

abbrev pub DefOk : Str → RoleDef → Type 0
DefOk k r = (r.name ≡ k) × (fold k ≡ k)

-- No session version is recorded for the user, or the version 0.
abbrev pub unversioned : GoMap ℕ → Str → Bool
unversioned versions k = elim (lookup k versions) [ none ↦ true | some v ↦ nat_eq v 0 ]

abbrev pub UserOk : GoMap RoleDef → GoMap ℕ → Str → ConfigUser → Type 0
UserOk roles versions k u =
    (u.username ≡ k)
    × RoleOk roles u.role
    × (unversioned versions k ≡ false)
    × (is_empty (trim_space u.password_hash) ≡ false)

abbrev pub GoogleOk : GoMap RoleDef → Str → GoogleGroupRole → Type 0
GoogleOk roles k g = (google_key g ≡ k) × RoleOk roles g.role

abbrev pub OidcOk : GoMap RoleDef → Str → OidcGroupRole → Type 0
OidcOk roles k g = (oidc_key g ≡ k) × RoleOk roles g.role

pub record IsValid (s : Store) : Type 0 where
  pub roles : MapOf DefOk s.roles
  pub users : MapOf (UserOk s.roles s.session_versions) s.users
  pub google : MapOf (GoogleOk s.roles) s.google_mappings
  pub oidc : MapOf (OidcOk s.roles) s.oidc_mappings
  pub entra : MapOf (OidcOk s.roles) s.entra_mappings
  pub versions : NodupKeys s.session_versions

-- Two maps with the same entries.
abbrev pub SameMap {ℓ} : {V : Type ℓ} → GoMap V → GoMap V → Type ℓ
SameMap m n = (k : Str) → lookup k m ≡ lookup k n

-- Two stores with the same configuration and the same session versions.
pub record SameConfig (s t : Store) : Type 0 where
  pub roles : SameMap s.roles t.roles
  pub users : SameMap s.users t.users
  pub google : SameMap s.google_mappings t.google_mappings
  pub oidc : SameMap s.oidc_mappings t.oidc_mappings
  pub entra : SameMap s.entra_mappings t.entra_mappings
  pub google_config : s.google_config ≡ t.google_config
  pub oidc_config : s.oidc_config ≡ t.oidc_config
  pub entra_config : s.entra_config ≡ t.entra_config
  pub versions : s.session_versions ≡ t.session_versions

pub SameConfig-refl : (s : Store) → SameConfig s s
SameConfig-refl s = record {
  roles = λ k. refl;
  users = λ k. refl;
  google = λ k. refl;
  oidc = λ k. refl;
  entra = λ k. refl;
  google_config = refl;
  oidc_config = refl;
  entra_config = refl;
  versions = refl;
}

-- A role that is fine in one map of roles is fine in a map with the same roles, or more of them.
abbrev pub MoreRoles : GoMap RoleDef → GoMap RoleDef → Type 0
MoreRoles r q = (k : Str) → has k r ≡ true → has k q ≡ true

module _ (r q : GoMap RoleDef) (more : MoreRoles r q) where
  pub GoogleOk-more : {m : GoMap GoogleGroupRole} → MapOf (GoogleOk r) m → MapOf (GoogleOk q) m
  GoogleOk-more h = MapOf-map h (λ k v e p. (p.0, (p.1.0, more v.role p.1.1)))

  pub OidcOk-more : {m : GoMap OidcGroupRole} → MapOf (OidcOk r) m → MapOf (OidcOk q) m
  OidcOk-more h = MapOf-map h (λ k v e p. (p.0, (p.1.0, more v.role p.1.1)))

  pub UserOk-more :
      (versions : GoMap ℕ) {m : GoMap ConfigUser}
      → MapOf (UserOk r versions) m
      → MapOf (UserOk q versions) m
  UserOk-more versions h = MapOf-map h (λ k v e p. (p.0, (p.1.0, more v.role p.1.1), p.2, p.3))

pub unversioned-put :
    (k j : Str) (v : ℕ) (m : GoMap ℕ)
    → nat_eq v 0 ≡ false
    → unversioned m j ≡ false
    → unversioned (put k v m) j ≡ false
unversioned-put k j v m h e = ground (arith, lookup-put k j v m)

pub unversioned-put_self :
    (k : Str) (v : ℕ) (m : GoMap ℕ) → nat_eq v 0 ≡ false → unversioned (put k v m) k ≡ false
unversioned-put_self k v m h = ground (arith, lookup-put k k v m)

-- Adding a role, or writing one anew, takes no role away.
pub MoreRoles-put : (name : Str) (r : RoleDef) (m : GoMap RoleDef) → MoreRoles m (put name r m)
MoreRoles-put name r m k h = ground (arith, lookup-put name k r m)

-- ===== src/Users/Roles/Keeps.antt =====
-- The operations on roles in accounts.go, and the well-formedness of the store.
use beaverdeck.Base.{◌≡◌, refl, subst, true, false, arith, any, Bool-cases, Option-cases, inl, inr}
use beaverdeck.Text.{Str, fold, ◌==◌}
use beaverdeck.GoMap.{lookup, put, delete, values, has}
use beaverdeck.GoMap.Laws.{lookup-delete, any-values-false}
use beaverdeck.GoMap.Entries.{MapOf-put, MapOf-delete, MapOf-map}
use beaverdeck.Text.Laws.{fold_idem}
use beaverdeck.Users.Json.{JsonCodec}
use beaverdeck.Users.Types.{ok, Env, Store, RoleDef}
use beaverdeck.Users.Locked.{role_exists}
use beaverdeck.Users.Invariant.{
  IsValid, DefOk, MoreRoles, MoreRoles-put, GoogleOk-more, OidcOk-more, UserOk-more,
}
use beaverdeck.Users.Roles.{check_role, add_role, change_role, remove_role}

-- One more role, or one written anew.
pub put_role-IsValid :
    (s : Store)
    → IsValid s
    → (k : Str) (r : RoleDef) → DefOk k r
    → IsValid (record s { roles = put k r s.roles })
put_role-IsValid s valid k r def_ok =
    let more : MoreRoles s.roles (put k r s.roles) = MoreRoles-put k r s.roles in
    record {
      roles = MapOf-put k r valid.roles def_ok;
      users = UserOk-more _ _ more s.session_versions valid.users;
      google = GoogleOk-more _ _ more valid.google;
      oidc = OidcOk-more _ _ more valid.oidc;
      entra = OidcOk-more _ _ more valid.entra;
      versions = valid.versions;
    }

pub add_role-IsValid :
    (env : Env) (name mode permissions : Str) (s : Store)
    → fold name ≡ name
    → IsValid s
    → IsValid (add_role env name mode permissions s).0
unfolding add_role
add_role-IsValid env name mode permissions s folded valid = elim (Bool-cases (role_exists s name)) [
  | inl e ↦ rw (e, add_role) valid
  | inr e ↦ rw (e, add_role) (put_role-IsValid s valid name _ (refl, folded))
]

pub change_role-IsValid :
    (name mode permissions : Str) (s : Store)
    → IsValid s
    → IsValid (change_role name mode permissions s).0
unfolding change_role
change_role-IsValid name mode permissions s valid = elim (Option-cases (lookup name s.roles)) [
  | inl t ↦ rw (t, change_role) valid
  | inr (r, t) ↦
      rw (t, change_role) (put_role-IsValid s valid name _ (valid.roles.entries name r t))
]

-- A role that nobody names can go.
module _ (s : Store) (valid : IsValid s) (name : Str)
    (no_user : any (λ u. u.role == name) (values s.users) ≡ false)
    (no_google : any (λ g. g.role == name) (values s.google_mappings) ≡ false)
    (no_oidc : any (λ g. g.role == name) (values s.oidc_mappings) ≡ false)
    (no_entra : any (λ g. g.role == name) (values s.entra_mappings) ≡ false) where
  still_there :
      (role : Str)
      → (role == name) ≡ false
      → has role s.roles ≡ true
      → has role (delete name s.roles) ≡ true
  still_there role other h = ground (arith, lookup-delete name role s.roles valid.roles.nodup)

  without_role-IsValid : IsValid (record s { roles = delete name s.roles })
  without_role-IsValid = record {
    roles = MapOf-delete name valid.roles;
    users = MapOf-map valid.users λ k u e p. (
      p.0,
      (p.1.0, still_there u.role (any-values-false _ s.users k u no_user e) p.1.1),
      p.2,
      p.3,
    );
    google = MapOf-map valid.google λ k g e p. (
      p.0,
      (p.1.0, still_there g.role (any-values-false _ s.google_mappings k g no_google e) p.1.1),
    );
    oidc = MapOf-map valid.oidc λ k g e p.
        (p.0, (p.1.0, still_there g.role (any-values-false _ s.oidc_mappings k g no_oidc e) p.1.1));
    entra = MapOf-map valid.entra λ k g e p. (
      p.0,
      (p.1.0, still_there g.role (any-values-false _ s.entra_mappings k g no_entra e) p.1.1),
    );
    versions = valid.versions;
  }

pub remove_role-IsValid : (name : Str) (s : Store) → IsValid s → IsValid (remove_role name s).0
unfolding remove_role
remove_role-IsValid name s valid = elim (Bool-cases (role_exists s name)) [
  | inr e ↦ rw (e, remove_role) valid
  | inl e ↦ elim (Bool-cases (any (λ u. u.role == name) (values s.users))) [
    | inl u ↦ rw (e, u, remove_role) valid
    | inr u ↦ elim (Bool-cases (any (λ g. g.role == name) (values s.google_mappings))) [
      | inl g ↦ rw (e, u, g, remove_role) valid
      | inr g ↦ elim (Bool-cases (any (λ g. g.role == name) (values s.oidc_mappings))) [
        | inl o ↦ rw (e, u, g, o, remove_role) valid
        | inr o ↦ elim (Bool-cases (any (λ g. g.role == name) (values s.entra_mappings))) [
          | inl a ↦ rw (e, u, g, o, a, remove_role) valid
          | inr a ↦ rw (e, u, g, o, a, remove_role) (without_role-IsValid s valid name u g o a)
        ]
      ]
    ]
  ]
]

-- The name that CreateRole and UpdateRole go on with is in normal form.
pub check_role_name :
    (codec : JsonCodec) (name mode permissions n m p : Str)
    → check_role codec name mode permissions ≡ ok (n, m, p)
    → fold n ≡ n
unfolding check_role
check_role_name codec name mode permissions n m p e =
    let same : fold name ≡ n = ground arith in subst (λ t. fold t ≡ t) same (fold_idem name)

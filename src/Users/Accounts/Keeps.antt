-- ===== src/Users/Accounts/Keeps.antt =====
-- The operations on local users in accounts.go, and the well-formedness of the store.
use beaverdeck.Base.{
  ℕ, ◌≡◌, refl, true, false, some, arith, is_empty, nat_eq, Bool-cases, Option-cases, inl, inr,
}
use beaverdeck.Text.{Str, fold, trim_space, ◌==◌}
use beaverdeck.GoMap.{lookup, put, delete, has}
use beaverdeck.GoMap.Laws.{lookup-delete, put-NodupKeys, delete-NodupKeys}
use beaverdeck.GoMap.Entries.{MapOf-put, MapOf-delete, MapOf-map}
use beaverdeck.Users.Types.{Env, Store, ConfigUser}
use beaverdeck.Users.Locked.{
  next_session_version, role_exists, username_exists_folded, is_last_local_admin,
  removes_last_local_admin,
}
use beaverdeck.Users.Invariant.{
  IsValid, RoleOk, UserOk, unversioned, unversioned-put, unversioned-put_self,
}
use beaverdeck.Users.Accounts.{add_user, change_user_role, set_password, remove_user, replace_hash}

-- One more user, or one written anew, with a version of his own.
module _ (s : Store) (valid : IsValid s) (k : Str) (u : ConfigUser) (v : ℕ) (named : u.username ≡ k)
    (role : RoleOk s.roles u.role) (fresh : nat_eq v 0 ≡ false)
    (hashed : is_empty (trim_space u.password_hash) ≡ false) where
  pub put_user-IsValid :
      IsValid (record s { users = put k u s.users; session_versions = put k v s.session_versions })
  put_user-IsValid = record {
    roles = valid.roles;
    users =
        MapOf-put k u
          (MapOf-map valid.users
            λ j w e p. (p.0, p.1, unversioned-put k j v s.session_versions fresh p.2, p.3))
          (named, role, unversioned-put_self k v s.session_versions fresh, hashed);
    google = valid.google;
    oidc = valid.oidc;
    entra = valid.entra;
    versions = put-NodupKeys k v s.session_versions valid.versions;
  }

-- A user written anew with the version that he has.
pub rewrite_user-IsValid :
    (s : Store)
    → IsValid s
    → (k : Str) (u : ConfigUser) → UserOk s.roles s.session_versions k u
    → IsValid (record s { users = put k u s.users })
rewrite_user-IsValid s valid k u p = record {
  roles = valid.roles;
  users = MapOf-put k u valid.users p;
  google = valid.google;
  oidc = valid.oidc;
  entra = valid.entra;
  versions = valid.versions;
}

pub next_session_version-ne-0 : (v : ℕ) → nat_eq (next_session_version v) 0 ≡ false
unfolding next_session_version
next_session_version-ne-0 v = ground arith

pub role_there :
    (s : Store) (role : Str)
    → fold role ≡ role
    → role_exists s role ≡ true
    → has role s.roles ≡ true
unfolding role_exists
role_there s role folded e = rw (← folded) e

pub add_user-IsValid :
    (env : Env) (username role hash : Str) (s : Store)
    → fold role ≡ role
    → is_empty (trim_space hash) ≡ false
    → IsValid s
    → IsValid (add_user env username role hash s).0
unfolding add_user
add_user-IsValid env username role hash s folded hashed valid =
    elim (Bool-cases (role_exists s role)) [
      | inr e ↦ rw (e, add_user) valid
      | inl e ↦ elim (Bool-cases (username_exists_folded s username)) [
        | inl t ↦ rw (e, t, add_user) valid
        | inr f ↦
            rw (e, f, add_user)
              (put_user-IsValid s valid username _ 1 refl (folded, role_there s role folded e) refl
                hashed)
      ]
    ]

pub change_user_role-IsValid :
    (username role : Str) (s : Store)
    → fold role ≡ role
    → IsValid s
    → IsValid (change_user_role username role s).0
unfolding change_user_role
change_user_role-IsValid username role s folded valid = elim (Bool-cases (role_exists s role)) [
  | inr e ↦ rw (e, change_user_role) valid
  | inl e ↦ elim (Option-cases (lookup username s.users)) [
    | inl t ↦ rw (e, t, change_user_role) valid
    | inr (u, t) ↦ elim (Bool-cases (removes_last_local_admin s username role)) [
      | inl l ↦ rw (e, t, l, change_user_role) valid
      | inr l ↦
          let p = valid.users.entries username u t in
          rw (e, t, l, change_user_role)
            (rewrite_user-IsValid s valid username _
              (p.0, (folded, role_there s role folded e), p.2, p.3))
    ]
  ]
]

pub set_password-IsValid :
    (username hash : Str) (s : Store)
    → is_empty (trim_space hash) ≡ false
    → IsValid s
    → IsValid (set_password username hash s).0
unfolding set_password
set_password-IsValid username hash s hashed valid = elim (Option-cases (lookup username s.users)) [
  | inl t ↦ rw (t, set_password) valid
  | inr (u, t) ↦
      let p = valid.users.entries username u t in
      rw (t, set_password)
        (put_user-IsValid s valid username _ _ p.0 p.1 (next_session_version-ne-0 _) hashed)
]

pub replace_hash-IsValid :
    (username previous hash : Str) (s : Store)
    → is_empty (trim_space hash) ≡ false
    → IsValid s
    → IsValid (replace_hash username previous hash s).0
unfolding replace_hash
replace_hash-IsValid username previous hash s hashed valid =
    elim (Option-cases (lookup username s.users)) [
      | inl t ↦ rw (t, replace_hash) valid
      | inr (u, t) ↦ elim (Bool-cases (u.password_hash == previous)) [
        | inr l ↦ rw (t, l, replace_hash) valid
        | inl l ↦
            let p = valid.users.entries username u t in
            rw (t, l, replace_hash)
              (rewrite_user-IsValid s valid username _ (p.0, p.1, p.2, hashed))
      ]
    ]

-- A deleted user goes with his version, and nobody else's version goes.
pub without_user-IsValid :
    (s : Store)
    → IsValid s
    → (k : Str)
    → IsValid
        (record s { users = delete k s.users; session_versions = delete k s.session_versions })
without_user-IsValid s valid k = record {
  roles = valid.roles;
  users = MapOf-map (MapOf-delete k valid.users) λ j u e p. (p.0, p.1, still j e p.2, p.3);
  google = valid.google;
  oidc = valid.oidc;
  entra = valid.entra;
  versions = delete-NodupKeys k s.session_versions valid.versions;
}
  where
    still :
        (j : Str) {u : ConfigUser}
        → lookup j (delete k s.users) ≡ some u
        → unversioned s.session_versions j ≡ false
        → unversioned (delete k s.session_versions) j ≡ false
    still j e h = ground (
      arith,
      lookup-delete k j s.users valid.users.nodup,
      lookup-delete k j s.session_versions valid.versions,
    )

pub remove_user-IsValid :
    (username : Str) (s : Store) → IsValid s → IsValid (remove_user username s).0
unfolding remove_user
remove_user-IsValid username s valid = elim (Option-cases (lookup username s.users)) [
  | inl t ↦ rw (t, remove_user) valid
  | inr (u, t) ↦ elim (Bool-cases (is_last_local_admin s username)) [
    | inl l ↦ rw (t, l, remove_user) valid
    | inr l ↦ rw (t, l, remove_user) (without_user-IsValid s valid username)
  ]
]

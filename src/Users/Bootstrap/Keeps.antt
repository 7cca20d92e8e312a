-- ===== src/Users/Bootstrap/Keeps.antt =====
-- bootstrap.go, and the well-formedness of the store.
use beaverdeck.Base.{◌≡◌, refl, true, false, arith, is_empty, Bool-cases, Option-cases, inl, inr}
use beaverdeck.Text.{Str, codes, fold, trim_space}
use beaverdeck.GoMap.{lookup, has}
use beaverdeck.GoMap.Laws.{lookup-put}
use beaverdeck.Users.Fields.{clean_config_field}
use beaverdeck.Users.Passwords.{Crypto, hash_local_password}
use beaverdeck.Users.Passwords.Laws.{hash_local_password-not_blank}
use beaverdeck.Users.Types.{
  ok, bind-eq_ok, reject_if-eq_ok, admin_password_required, Env, Store, role_admin,
}
use beaverdeck.Users.Locked.{has_local_admin}
use beaverdeck.Users.Invariant.{IsValid}
use beaverdeck.Users.Accounts.Keeps.{put_user-IsValid, next_session_version-ne-0}
use beaverdeck.Users.Roles.Keeps.{put_role-IsValid}
use beaverdeck.Users.Bootstrap.{ensure_defaults, add_first_admin, first_admin_input}

pub fold-role_admin : fold role_admin ≡ role_admin
unfolding fold
fold-role_admin = refl

pub ensure_defaults-IsValid : (env : Env) (s : Store) → IsValid s → IsValid (ensure_defaults env s)
unfolding ensure_defaults
ensure_defaults-IsValid env s valid = elim (Option-cases (lookup role_admin s.roles)) [
  | inl t ↦ rw (t, ensure_defaults) (put_role-IsValid s valid role_admin _ (refl, fold-role_admin))
  | inr (r, t) ↦
      rw (t, ensure_defaults)
        (put_role-IsValid s valid role_admin _ (valid.roles.entries role_admin r t))
]

-- After `ensure_defaults` the role admin is there, in the mode admin.
pub has-ensure_defaults :
    (env : Env) (s : Store) → has role_admin (ensure_defaults env s).roles ≡ true
unfolding ensure_defaults
has-ensure_defaults env s = elim (Option-cases (lookup role_admin s.roles)) [
  | inl t ↦ rw (t, ensure_defaults) (rw (lookup-put role_admin role_admin) (ground arith))
  | inr (r, t) ↦ rw (t, ensure_defaults) (rw (lookup-put role_admin role_admin) (ground arith))
]

pub add_first_admin-IsValid :
    (env : Env) (username hash : Str) (s : Store)
    → is_empty (trim_space hash) ≡ false
    → IsValid s
    → IsValid (add_first_admin env username hash s).0
add_first_admin-IsValid env username hash s hashed valid =
    let t = ensure_defaults env s in
    let kept = ensure_defaults-IsValid env s valid in
    elim (Bool-cases (has_local_admin t)) [
      | inl e ↦ unfold add_first_admin in rw (e, add_first_admin) kept
      | inr e ↦
          unfold add_first_admin in
          rw (e, add_first_admin)
            (put_user-IsValid t kept username _ _ refl (fold-role_admin, has-ensure_defaults env s)
              (next_session_version-ne-0 _) hashed)
    ]

pub first_admin_input-not_blank :
    (crypto : Crypto) (env : Env) (username password name hash : Str)
    → first_admin_input crypto env username password ≡ ok (name, hash)
    → is_empty (trim_space hash) ≡ false
unfolding first_admin_input
first_admin_input-not_blank crypto env username password name hash e =
    let (n, e1, e2) =
      bind-eq_ok (clean_config_field (codes "admin username") username 160 false) _ e in
    let (full, e3) =
      reject_if-eq_ok (is_empty (trim_space password)) admin_password_required _ e2 in
    let (h, e4, e5) = bind-eq_ok (hash_local_password crypto env (trim_space password)) _ e3 in
    hash_local_password-not_blank crypto env (trim_space password) hash (ground arith)

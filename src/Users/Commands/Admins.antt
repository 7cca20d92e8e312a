-- ===== src/Users/Commands/Admins.antt =====
-- The last local administrator: what guards him, and what does not.
use beaverdeck.Base.{
  ℕ, ◌<◌, ◌≡◌, refl, sym, ◌∙◌, true, false, some, arith, count, Bool-cases, Option-cases, inl, inr,
}
use beaverdeck.Text.{Str, fold, ◌==◌}
use beaverdeck.GoMap.{GoMap, lookup, put, delete, values}
use beaverdeck.GoMap.Laws.{
  count-delete, count-put, count_pos-any, any-count_pos, any-values_intro, any-values_elim,
  lookup-put,
}
use beaverdeck.Users.Types.{ConfigUser, Store}
use beaverdeck.Users.Locked.{
  role_def, role_exists, is_admin_user, is_local_admin, has_local_admin, is_last_local_admin,
  removes_last_local_admin,
}
use beaverdeck.Users.Types.{Result, ok, err}
use beaverdeck.Users.Snapshot.{Mutation, checked, mutate_config_and_persist}
use beaverdeck.Users.Snapshot.Laws.{persist_elim, rolled_back-SameConfig}
use beaverdeck.Users.Invariant.{IsValid, SameConfig, RoleOk, UserOk}
use beaverdeck.Users.Accounts.Keeps.{role_there, without_user-IsValid, rewrite_user-IsValid}
use beaverdeck.Users.Accounts.{change_user_role, remove_user}

-- In a valid store the two tests for an administrator agree.
is_local_admin-eq :
    (s : Store) (k : Str) (u : ConfigUser)
    → UserOk s.roles s.session_versions k u
    → is_local_admin s u ≡ is_admin_user s u
unfolding role_def
is_local_admin-eq s k u p = rw (p.3, p.1.0) refl

-- In a valid store there is a local administrator exactly if the count of them is positive.
has_local_admin-count :
    (s : Store)
    → IsValid s
    → has_local_admin s ≡ true
    → 0 < count (is_admin_user s) (values s.users)
unfolding has_local_admin
has_local_admin-count s valid h =
    let (k, u, found, admin) = any-values_elim (is_local_admin s) s.users valid.users.nodup h in
    any-count_pos (is_admin_user s) (values s.users) (
      any-values_intro (is_admin_user s) s.users k u found
        (sym (is_local_admin-eq s k u (valid.users.entries k u found)) ∙ admin))

count-has_local_admin :
    (s : Store)
    → IsValid s
    → 0 < count (is_admin_user s) (values s.users)
    → has_local_admin s ≡ true
unfolding has_local_admin
count-has_local_admin s valid h =
    let (k, u, found, admin) =
      any-values_elim (is_admin_user s) s.users valid.users.nodup
        (count_pos-any (is_admin_user s) (values s.users) h) in
    any-values_intro (is_local_admin s) s.users k u found
      (is_local_admin-eq s k u (valid.users.entries k u found) ∙ admin)

-- An administrator that is found shows that there is one.
pub admin_intro :
    (t : Store) (k : Str) (u : ConfigUser)
    → lookup k t.users ≡ some u
    → is_local_admin t u ≡ true
    → has_local_admin t ≡ true
unfolding has_local_admin
admin_intro t k u found admin = any-values_intro (is_local_admin t) t.users k u found admin

pub admin_elim :
    (s : Store)
    → IsValid s
    → has_local_admin s ≡ true
    → (k : Str) × (u : ConfigUser) × (lookup k s.users ≡ some u) × (is_local_admin s u ≡ true)
unfolding has_local_admin
admin_elim s valid h = any-values_elim (is_local_admin s) s.users valid.users.nodup h

has_local_admin-SameConfig :
    (s t : Store) → IsValid s → SameConfig t s → has_local_admin s ≡ true → has_local_admin t ≡ true
has_local_admin-SameConfig s t valid same h =
    let (k, u, found, admin) = admin_elim s valid h in
    admin_intro t k u (same.users k ∙ found) (rw (same.roles u.role) admin)

-- A closure that never takes the last administrator away, nor leaves one behind without a role.
abbrev pub KeepsAdmin : Mutation → Store → Type 0
KeepsAdmin f s = has_local_admin s ≡ true → has_local_admin (f s).0 ≡ true

module _ (s : Store) (valid : IsValid s) where
  pub persisted :
      (mutate : Mutation) → KeepsAdmin mutate s → KeepsAdmin (mutate_config_and_persist mutate) s
  persisted mutate keeps h =
      persist_elim mutate s (λ r. has_local_admin r.0 ≡ true) (λ e x. keeps h) (λ x. keeps h)
        (λ e. has_local_admin-SameConfig s _ valid (rolled_back-SameConfig s (mutate s).0 valid) h)

  pub checked_persisted :
      {A : Type 0} (r : Result A) (f : A → Mutation)
      → ((a : A) → r ≡ ok a → KeepsAdmin (f a) s)
      → KeepsAdmin (checked r (λ a. mutate_config_and_persist (f a))) s
  checked_persisted (err e) f keeps h = h
  checked_persisted (ok a) f keeps h = persisted (f a) (keeps a refl) h

  -- A user who is not the last administrator can go.
  count_without :
      (k : Str) (u : ConfigUser)
      → lookup k s.users ≡ some u
      → is_last_local_admin s k ≡ false
      → 0 < count (is_admin_user s) (values s.users)
      → 0 < count (is_admin_user s) (values (delete k s.users))
  unfolding is_last_local_admin
  count_without k u t l h = ground (arith, count-delete (is_admin_user s) k u s.users t)

  without_keeps :
      (k : Str) (u : ConfigUser)
      → lookup k s.users ≡ some u
      → is_last_local_admin s k ≡ false
      → has_local_admin s ≡ true
      → has_local_admin
          (record s { users = delete k s.users; session_versions = delete k s.session_versions })
        ≡ true
  unfolding role_def
  without_keeps k u t l h =
      count-has_local_admin _ (without_user-IsValid s valid k)
        (count_without k u t l (has_local_admin-count s valid h))

  pub remove_user_keeps : (k : Str) → KeepsAdmin (remove_user k) s
  unfolding remove_user
  remove_user_keeps k h = elim (Option-cases (lookup k s.users)) [
    | inl t ↦ rw (t, remove_user) h
    | inr (u, t) ↦ elim (Bool-cases (is_last_local_admin s k)) [
      | inl l ↦ rw (t, l, remove_user) h
      | inr l ↦ rw (t, l, remove_user) (without_keeps k u t l h)
    ]
  ]

  -- So can his role change, or to the role of another administrator.
  count_changed :
      (k role : Str) (u : ConfigUser)
      → lookup k s.users ≡ some u
      → removes_last_local_admin s k role ≡ false
      → 0 < count (is_admin_user s) (values s.users)
      → 0 < count (is_admin_user s) (values (put k (record u { role = role }) s.users))
  unfolding removes_last_local_admin
  count_changed k role u t l h =
      ground (arith, count-put (is_admin_user s) k u (record u { role = role }) s.users t)

  changed_keeps :
      (k role : Str) (u : ConfigUser)
      → RoleOk s.roles role
      → lookup k s.users ≡ some u
      → removes_last_local_admin s k role ≡ false
      → has_local_admin s ≡ true
      → has_local_admin (record s { users = put k (record u { role = role }) s.users }) ≡ true
  unfolding role_def
  changed_keeps k role u there t l h =
      let p = valid.users.entries k u t in
      count-has_local_admin _ (rewrite_user-IsValid s valid k _ (p.0, there, p.2, p.3))
        (count_changed k role u t l (has_local_admin-count s valid h))

  pub change_user_role_keeps :
      (k role : Str) → fold role ≡ role → KeepsAdmin (change_user_role k role) s
  unfolding change_user_role
  change_user_role_keeps k role folded h = elim (Bool-cases (role_exists s role)) [
    | inr e ↦ rw (e, change_user_role) h
    | inl e ↦ elim (Option-cases (lookup k s.users)) [
      | inl t ↦ rw (e, t, change_user_role) h
      | inr (u, t) ↦ elim (Bool-cases (removes_last_local_admin s k role)) [
        | inl l ↦ rw (e, t, l, change_user_role) h
        | inr l ↦
            rw (e, t, l, change_user_role)
              (changed_keeps k role u (folded, role_there s role folded e) t l h)
      ]
    ]
  ]

  -- A user who is added, or written anew as no lesser administrator, takes nobody's role away.
  pub put_keeps :
      (k : Str) (u : ConfigUser) (versions : GoMap ℕ)
      → ((w : ConfigUser)
          → lookup k s.users ≡ some w
          → is_local_admin s w ≡ true
          → is_local_admin s u ≡ true)
      → has_local_admin s ≡ true
      → has_local_admin (record s { users = put k u s.users; session_versions = versions }) ≡ true
  put_keeps k u versions replaces h =
      let (j, w, found, admin) = admin_elim s valid h in
      elim (Bool-cases (k == j)) [
        | inl e ↦
            admin_intro _ k u (rw (lookup-put k k u s.users) (ground arith))
              (replaces w (ground arith) admin)
        | inr e ↦ admin_intro _ j w (rw (lookup-put k j u s.users) (ground arith)) admin
      ]

-- ===== src/Users/Commands/Demotion.antt =====
-- UpdateRole of accounts.go and the local administrators.
use beaverdeck.Base.{
  ◌≡◌, refl, sym, ap, subst, ◌∙◌, ◌&&◌, Bool, true, false, none, some, arith, Bool-cases, inl, inr,
}
use beaverdeck.Text.{Str, ◌==◌}
use beaverdeck.GoMap.{lookup, put}
use beaverdeck.GoMap.Laws.{lookup-put}
use beaverdeck.Users.Types.{ok, RoleDef, ConfigUser, Store, role_admin}
use beaverdeck.Users.Locked.{is_local_admin, has_local_admin}
use beaverdeck.Users.Invariant.{IsValid}
use beaverdeck.Users.Roles.{change_role, update_role, check_role}
use beaverdeck.Users.Snapshot.{
  Mutation, checked, mutate_config_and_persist, save_config_snapshot, snapshot,
}
use beaverdeck.Users.Json.{JsonCodec}
use beaverdeck.Text.Laws.{eq_self}
use beaverdeck.Users.Roles.Keeps.{change_role-IsValid}
use beaverdeck.Users.Commands.Admins.{admin_elim}

and_false : (b : Bool) → (b && false) ≡ false
and_false true = refl
and_false false = refl

persisted :
    (f : Mutation) (s : Store)
    → (f s).1 ≡ none
    → save_config_snapshot (f s).0 (snapshot (f s).0) ≡ none
    → mutate_config_and_persist f s ≡ ((f s).0, none)
unfolding mutate_config_and_persist
persisted f s done saved = ground arith

module _ (s : Store) (valid : IsValid s) (n mode permissions : Str) (r : RoleDef)
    (there : lookup n s.roles ≡ some r) (lesser : (mode == role_admin) ≡ false)
    (only : (k : Str) (u : ConfigUser)
      → lookup k s.users ≡ some u
      → is_local_admin s u ≡ true
      → u.role ≡ n) where
  roles-change_role :
      (change_role n mode permissions s).0.roles
      ≡ put n (record r { mode = mode; permissions = permissions }) s.roles
  unfolding change_role
  roles-change_role = rw (there, change_role) refl

  users-change_role : (change_role n mode permissions s).0.users ≡ s.users
  unfolding change_role
  users-change_role = rw (there, change_role) refl

  gone :
      (u : ConfigUser)
      → (n == u.role) ≡ true
      → is_local_admin (change_role n mode permissions s).0 u ≡ true
      → ⊥
  gone u e = rw (roles-change_role, lookup-put, e, lesser, and_false) λ h. absurd (cc)

  others :
      (k : Str) (u : ConfigUser)
      → (n == u.role) ≡ false
      → lookup k s.users ≡ some u
      → is_local_admin (change_role n mode permissions s).0 u ≡ true
      → ⊥
  others k u e found =
      rw (roles-change_role, lookup-put, e)
        λ admin.
          let same = only k u found admin in
          let twice = subst (λ x. (n == x) ≡ false) same e in absurd (cc (eq_self n))

  nobody :
      (k : Str) (u : ConfigUser)
      → lookup k (change_role n mode permissions s).0.users ≡ some u
      → is_local_admin (change_role n mode permissions s).0 u ≡ true
      → ⊥
  nobody k u found admin = elim (Bool-cases (n == u.role)) [
    | inl e ↦ gone u e admin
    | inr e ↦ others k u e (sym (ap (lookup k) users-change_role) ∙ found) admin
  ]

  done-change_role : (change_role n mode permissions s).1 ≡ none
  unfolding change_role
  done-change_role = rw (there, change_role) refl

  nobody_left : has_local_admin (change_role n mode permissions s).0 ≡ false
  nobody_left = elim (Bool-cases (has_local_admin (change_role n mode permissions s).0)) [
    | inr e ↦ e
    | inl e ↦
        let (k, u, found, admin) =
          admin_elim _ (change_role-IsValid n mode permissions s valid) e in
        absurd (nobody k u found admin)
  ]

-- In a valid store whose local administrators all have one role, UpdateRole gives that role a lesser
-- mode without an error, where the saver takes the new snapshot, and leaves no local administrator.
pub update_role_demotes :
    (codec : JsonCodec) (s : Store) (valid : IsValid s) (name mode permissions n m p : Str)
    (r : RoleDef)
    → check_role codec name mode permissions ≡ ok (n, m, p)
    → lookup n s.roles ≡ some r
    → (m == role_admin) ≡ false
    → ((k : Str) (u : ConfigUser)
        → lookup k s.users ≡ some u
        → is_local_admin s u ≡ true
        → u.role ≡ n)
    → save_config_snapshot (change_role n m p s).0 (snapshot (change_role n m p s).0) ≡ none
    → ((update_role codec name mode permissions s).1 ≡ none)
      × (has_local_admin (update_role codec name mode permissions s).0 ≡ false)
unfolding update_role
update_role_demotes codec s valid name mode permissions n m p r read there lesser only saved =
    let done = done-change_role s valid n m p r there lesser only in
    let kept = persisted (change_role n m p) s done saved in
    rw (read, checked, kept) (refl, nobody_left s valid n m p r there lesser only)

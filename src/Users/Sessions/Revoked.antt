-- ===== src/Users/Sessions/Revoked.antt =====
-- ResetLocalPassword and Delete of accounts.go, and the session versions that tokens carry.
use beaverdeck.Base.{
  ℕ, ◌≤◌, ◌<◌, ◌^◌, ◌≡◌, ◌≢◌, refl, subst, sym, true, false, none, some, arith, nat_eq, is_some,
  if◌then◌else◌, Bool-cases, Option-cases, inl, inr, is_empty,
}
use beaverdeck.Text.{Str, codes, ◌==◌, trim_space}
use beaverdeck.Text.Laws.{eq_self}
use beaverdeck.GoMap.{lookup, put}
use beaverdeck.GoMap.Laws.{lookup-put, lookup-delete}
use beaverdeck.Users.Types.{
  username_required, ok, err, Result, reject_if, ConfigUser, UserWithToken, Store, Env,
}
use beaverdeck.Users.Locked.{
  session_version, next_session_version, version_of, below_one, is_last_local_admin,
}
use beaverdeck.Users.Invariant.{IsValid}
use beaverdeck.Users.Passwords.{Crypto}
use beaverdeck.Users.Snapshot.{Mutation, checked, mutate_config_and_persist}
use beaverdeck.Users.Snapshot.Laws.{persist-eq_ok}
use beaverdeck.Users.Accounts.{
  set_password, reset_local_password, remove_user, delete_user, new_password_input,
}
use beaverdeck.Users.Accounts.Laws.{new_password_input-not_blank}
use beaverdeck.Users.Accounts.Keeps.{set_password-IsValid, remove_user-IsValid}
use beaverdeck.Users.Sessions.{TokenCodec, authenticate}
use beaverdeck.Users.Sessions.Local.{still_there}

-- A closure that succeeds leaves the user without the session version of before, or without an entry.
abbrev EndsSessions : Str → Mutation → Store → Type 0
EndsSessions name f s =
    (f s).1 ≡ none
    → ((f s).0.session_signing_key ≡ s.session_signing_key)
      × (is_some (lookup name (f s).0.users) ≡ true
          → session_version (f s).0 name ≢ session_version s name)

next_differs :
    (v : ℕ)
    → v < 2 ^ 63
    → nat_eq v 0 ≡ false
    → (if below_one (next_session_version v) then 1 else next_session_version v)
      ≢ (if below_one v then 1 else v)
unfolding next_session_version below_one
next_differs v small e = ground arith

version_is :
    (t : Store) (name : Str) (v : ℕ)
    → lookup name t.session_versions ≡ some v
    → version_of t name ≡ v
unfolding version_of
version_is t name v e = rw (version_of, e) refl

pub session_version_of :
    (t : Store) (name : Str) (v : ℕ)
    → lookup name t.session_versions ≡ some v
    → session_version t name ≡ (if below_one v then 1 else v)
unfolding session_version
session_version_of t name v e = rw (session_version, version_is t name v e) refl

-- A user of a valid store has a session version other than 0.
versioned :
    (s : Store) (name : Str) (u : ConfigUser)
    → IsValid s
    → lookup name s.users ≡ some u
    → (v : ℕ) × (lookup name s.session_versions ≡ some v)
      × (version_of s name ≡ v)
      × (nat_eq v 0 ≡ false)
versioned s name u valid found = elim (Option-cases (lookup name s.session_versions)) [
  | inl e ↦
      let bad : true ≡ false =
        subst (λ x. (elim x [ none ↦ true | some v ↦ nat_eq v 0 ]) ≡ false) e
          (valid.users.entries name u found).2 in
      absurd (cc)
  | inr (v, e) ↦ (
    v,
    e,
    version_is s name v e,
    subst (λ x. (elim x [ none ↦ true | some v ↦ nat_eq v 0 ]) ≡ false) e
        (valid.users.entries name u found).2,
  )
]

set_password-ends :
    (name hash : Str) (s : Store)
    → IsValid s
    → version_of s name < 2 ^ 63
    → EndsSessions name (set_password name hash) s
unfolding set_password
set_password-ends name hash s valid small = elim (Option-cases (lookup name s.users)) [
  | inl e ↦ rw (set_password, e) λ h. absurd (cc)
  | inr (u, e) ↦
      let (v, e1, e2, e3) = versioned s name u valid e in
      rw (set_password, e, e2)
        λ h. (
          refl,
          λ _.
              rw
                (
                  session_version_of s name v e1,
                  session_version_of
                      (record s {
                        users = put name (record u { password_hash = hash }) s.users;
                        session_versions = put name (next_session_version v) s.session_versions;
                      })
                      name (next_session_version v) (rw (lookup-put, eq_self) refl),
                )
                (next_differs v (subst (λ x. x < 2 ^ 63) e2 small) e3),
        )
]

remove_user-ends : (name : Str) (s : Store) → IsValid s → EndsSessions name (remove_user name) s
unfolding remove_user
remove_user-ends name s valid = elim (Option-cases (lookup name s.users)) [
  | inl e ↦ rw (remove_user, e) λ h. absurd (cc)
  | inr (u, e) ↦ elim (Bool-cases (is_last_local_admin s name)) [
    | inl f ↦ rw (remove_user, e, f) λ h. absurd (cc)
    | inr f ↦
        rw (remove_user, e, f)
          λ h.
            (refl, rw (lookup-delete name name s.users valid.users.nodup, eq_self) λ k. absurd (cc))
  ]
]

module _ (crypto : Crypto) (codec : TokenCodec) (env later : Env) (s : Store) (token : Str)
    (u v : UserWithToken) (valid : IsValid s)
    (before : authenticate crypto codec env s token ≡ ok u)
    (here : (u.auth_source == codes "local") ≡ true) (le : env.now ≤ later.now) where
  -- A closure that ends the sessions of the user, and that is stored, ends this one.
  ended :
      (f : Mutation)
      → EndsSessions u.username f s
      → ((f s).1 ≡ none → IsValid (f s).0)
      → (mutate_config_and_persist f s).1 ≡ none
      → authenticate crypto codec later (mutate_config_and_persist f s).0 token ≢ ok v
  ended f ends kept done h =
      let (e1, e2, _) = persist-eq_ok f s done in
      let (key, differs) = ends e1 in
      let after = subst (λ t. authenticate crypto codec later t token ≡ ok v) e2 h in
      let (there, same) =
        still_there crypto codec env s token u valid before here later (f s).0 v (kept e1) key le
          after in
      differs there same

  -- The same behind checks.
  ended_checked :
      {A : Type 0} (r : Result A) (f : A → Mutation)
      → ((a : A) → r ≡ ok a → EndsSessions u.username (f a) s × IsValid (f a s).0)
      → (checked r (λ a. mutate_config_and_persist (f a)) s).1 ≡ none
      → authenticate crypto codec later (checked r (λ a. mutate_config_and_persist (f a)) s).0 token
        ≢ ok v
  ended_checked (err e) f p h = absurd (cc)
  ended_checked (ok a) f p h = ended (f a) (p a refl).0 (λ _. (p a refl).1) h

  -- When ResetLocalPassword has succeeded for the local user that a token gives, in a valid store and
  -- with the clock not going back, the token authenticates nobody, unless the user's session version
  -- is negative as an int64.
  pub reset_local_password-authenticate :
      (reset_env : Env) (username password : Str)
      → u.username ≡ trim_space username
      → version_of s u.username < 2 ^ 63
      → (reset_local_password crypto reset_env username password s).1 ≡ none
      → authenticate crypto codec later
          (reset_local_password crypto reset_env username password s).0
          token
        ≢ ok v
  unfolding reset_local_password
  reset_local_password-authenticate reset_env username password name small =
      ended_checked (new_password_input crypto reset_env username password)
        (λ hash. set_password (trim_space username) hash)
        (λ hash e. (
          subst (λ x. EndsSessions u.username (set_password x hash) s) name
              (set_password-ends u.username hash s valid small),
          set_password-IsValid (trim_space username) hash s
              (new_password_input-not_blank crypto reset_env username password hash e) valid,
        ))

  -- When Delete has succeeded for the local user that a token gives, in a valid store and with the
  -- clock not going back, the token authenticates nobody in the store that Delete leaves.
  pub delete_user-authenticate :
      (username : Str)
      → u.username ≡ trim_space username
      → (delete_user username s).1 ≡ none
      → authenticate crypto codec later (delete_user username s).0 token ≢ ok v
  unfolding delete_user
  delete_user-authenticate username name =
      ended_checked (reject_if (is_empty (trim_space username)) username_required)
        (λ _. remove_user (trim_space username))
        (λ a e. (
          subst (λ x. EndsSessions x (remove_user (trim_space username)) s) (sym name)
              (remove_user-ends (trim_space username) s valid),
          remove_user-IsValid (trim_space username) s valid,
        ))

-- ===== src/Users/Google/Keeps.antt =====
-- google.go, and the well-formedness of the store.
use beaverdeck.Base.{◌≡◌, Bool-cases, Option-cases, inl, inr}
use beaverdeck.Text.{Str, fold, to_lower}
use beaverdeck.GoMap.{GoMap, lookup}
use beaverdeck.GoMap.Entries.{MapOf, MapOf-put, MapOf-delete}
use beaverdeck.Users.Types.{Env, Store, GoogleConfig, GoogleGroupRole}
use beaverdeck.Users.Locked.{role_exists}
use beaverdeck.Users.Invariant.{IsValid, GoogleOk}
use beaverdeck.Users.Accounts.Keeps.{role_there}
use beaverdeck.Users.Google.{put_google_group, remove_google_group}

pub with_google-IsValid :
    (s : Store)
    → IsValid s
    → (cfg : GoogleConfig) (m : GoMap GoogleGroupRole) → MapOf (GoogleOk s.roles) m
    → IsValid (record s { google_config = cfg; google_mappings = m })
with_google-IsValid s valid cfg m ok = record {
  roles = valid.roles;
  users = valid.users;
  google = ok;
  oidc = valid.oidc;
  entra = valid.entra;
  versions = valid.versions;
}

pub put_google_group-IsValid :
    (env : Env) (email role : Str) (s : Store)
    → to_lower email ≡ email
    → fold role ≡ role
    → IsValid s
    → IsValid (put_google_group env email role s).0
unfolding put_google_group
put_google_group-IsValid env email role s lowered folded valid =
    elim (Bool-cases (role_exists s role)) [
      | inr e ↦ rw (e, put_google_group) valid
      | inl e ↦ elim (Option-cases (lookup email s.google_mappings)) [
        | inl t ↦
            rw (e, t, put_google_group)
              (with_google-IsValid s valid s.google_config _
                (MapOf-put email _ valid.google (lowered, (folded, role_there s role folded e))))
        | inr (g, t) ↦
            rw (e, t, put_google_group)
              (with_google-IsValid s valid s.google_config _ (
                MapOf-put email _ valid.google
                  ((valid.google.entries email g t).0, (folded, role_there s role folded e))))
      ]
    ]

pub remove_google_group-IsValid :
    (email : Str) (s : Store) → IsValid s → IsValid (remove_google_group email s).0
unfolding remove_google_group
remove_google_group-IsValid email s valid = elim (Option-cases (lookup email s.google_mappings)) [
  | inl t ↦ rw (t, remove_google_group) valid
  | inr (g, t) ↦
      rw (t, remove_google_group)
        (with_google-IsValid s valid s.google_config _ (MapOf-delete email valid.google))
]

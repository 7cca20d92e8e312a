-- ===== src/Users/Oidc/Keeps.antt =====
-- oidc.go, and the well-formedness of the store.
use beaverdeck.Base.{◌≡◌, ap, Bool-cases, Option-cases, inl, inr}
use beaverdeck.Text.{Str, fold, to_lower, trim_space}
use beaverdeck.GoMap.{GoMap, lookup}
use beaverdeck.GoMap.Entries.{MapOf, MapOf-put, MapOf-delete}
use beaverdeck.Users.Types.{Env, Store, OidcConfig, OidcGroupRole}
use beaverdeck.Users.Locked.{role_exists}
use beaverdeck.Users.Invariant.{IsValid, OidcOk}
use beaverdeck.Users.Accounts.Keeps.{role_there}
use beaverdeck.Users.Oidc.{
  OidcProvider, generic, entra, with_config, mappings_of, with_mappings, put_oidc_group,
  remove_oidc_group,
}

pub mappings_of-MapOf :
    (provider : OidcProvider) (s : Store)
    → IsValid s
    → MapOf (OidcOk s.roles) (mappings_of provider s)
mappings_of-MapOf generic s valid = valid.oidc
mappings_of-MapOf entra s valid = valid.entra

pub with_mappings-IsValid :
    (provider : OidcProvider) (s : Store) (m : GoMap OidcGroupRole)
    → IsValid s
    → MapOf (OidcOk s.roles) m
    → IsValid (with_mappings provider m s)
with_mappings-IsValid generic s m valid ok = record {
  roles = valid.roles;
  users = valid.users;
  google = valid.google;
  oidc = ok;
  entra = valid.entra;
  versions = valid.versions;
}
with_mappings-IsValid entra s m valid ok = record {
  roles = valid.roles;
  users = valid.users;
  google = valid.google;
  oidc = valid.oidc;
  entra = ok;
  versions = valid.versions;
}

pub with_config-IsValid :
    (provider : OidcProvider) (cfg : OidcConfig) (s : Store)
    → IsValid s
    → IsValid (with_config provider cfg s)
with_config-IsValid generic cfg s valid = record {
  roles = valid.roles;
  users = valid.users;
  google = valid.google;
  oidc = valid.oidc;
  entra = valid.entra;
  versions = valid.versions;
}
with_config-IsValid entra cfg s valid = record {
  roles = valid.roles;
  users = valid.users;
  google = valid.google;
  oidc = valid.oidc;
  entra = valid.entra;
  versions = valid.versions;
}

pub put_oidc_group-IsValid :
    (env : Env) (provider : OidcProvider) (name role : Str) (s : Store)
    → trim_space name ≡ name
    → fold role ≡ role
    → IsValid s
    → IsValid (put_oidc_group env provider name role s).0
unfolding put_oidc_group
put_oidc_group-IsValid env provider name role s trimmed folded valid =
    elim (Bool-cases (role_exists s role)) [
      | inr e ↦ rw (e, put_oidc_group) valid
      | inl e ↦
          rw (e, put_oidc_group)
            (with_mappings-IsValid provider s _ valid (
              MapOf-put (to_lower name) _ (mappings_of-MapOf provider s valid)
                (ap to_lower trimmed, (folded, role_there s role folded e))))
    ]

pub remove_oidc_group-IsValid :
    (provider : OidcProvider) (key : Str) (s : Store)
    → IsValid s
    → IsValid (remove_oidc_group provider key s).0
unfolding remove_oidc_group
remove_oidc_group-IsValid provider key s valid =
    elim (Option-cases (lookup key (mappings_of provider s))) [
      | inl t ↦ rw (t, remove_oidc_group) valid
      | inr (g, t) ↦
          rw (t, remove_oidc_group)
            (with_mappings-IsValid provider s _ valid
              (MapOf-delete key (mappings_of-MapOf provider s valid)))
    ]

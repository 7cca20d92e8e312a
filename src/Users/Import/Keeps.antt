-- ===== src/Users/Import/Keeps.antt =====
-- Open, import, replacement and reset of config_snapshot.go, and the well-formedness of the store.
use beaverdeck.Base.{ℕ, ◌≡◌, refl, subst, false, none, List, [], ◌∷◌, arith}
use beaverdeck.Text.{Str, fold}
use beaverdeck.GoMap.{GoMap, lookup, put, values, index, NodupKeys}
use beaverdeck.GoMap.Laws.{put-NodupKeys}
use beaverdeck.GoMap.Sorted.{sort_by}
use beaverdeck.GoMap.Entries.{
  MapOf, MapOf-nil, MapOf-put, MapOf-map, MapOf-rebuild, lookup-MapOf_rebuild,
}
use beaverdeck.GoMap.Lists.{All, MapOf-index}
use beaverdeck.Users.Types.{
  Result, ok, err, bind-eq_ok, role_admin, no_permissions, RoleDef, ConfigUser, ConfigSnapshot,
  Store, Env,
}
use beaverdeck.Users.Locked.{version_of, next_session_version}
use beaverdeck.Users.Json.{JsonCodec}
use beaverdeck.Users.Accounts.Keeps.{next_session_version-ne-0}
use beaverdeck.Users.Invariant.{
  IsValid, DefOk, MoreRoles, unversioned, unversioned-put, unversioned-put_self,
}
use beaverdeck.Users.Snapshot.{role_before, google_key, oidc_key, next_versions, apply_snapshot}
use beaverdeck.Users.Snapshot.Laws.{persist-IsValid}
use beaverdeck.Users.Normalize.{normalize_parts, normalize_config_snapshot}
use beaverdeck.Users.Normalize.Roles.{normalize_config_roles, normalize_config_users}
use beaverdeck.Users.Normalize.Providers.{normalize_config_google, normalize_config_oidc}
use beaverdeck.Users.Normalize.Laws.{
  UserItem, GoogleItem, OidcItem, normalize_config_roles-MapOf, normalize_config_users-All,
  normalize_config_google-All, normalize_config_oidc-All,
}
use beaverdeck.Users.Oidc.{generic, entra}
use beaverdeck.Users.Import.{
  import_config_snapshot, replace_config_snapshot, default_config_snapshot, open_store,
  reset_to_empty_config,
}

abbrev bumped : Store → GoMap ℕ → ConfigUser → GoMap ℕ
bumped s acc u = put u.username (next_session_version (version_of s u.username)) acc

-- The versions that a snapshot's users get: one for each of them, and never 0.
next_versions-NodupKeys :
    (s : Store) (acc : GoMap ℕ) (users : List ConfigUser)
    → NodupKeys acc
    → NodupKeys (next_versions s acc users)
unfolding next_versions
next_versions-NodupKeys s acc [] h = h
next_versions-NodupKeys s acc (u ∷ us) h =
    next_versions-NodupKeys s (bumped s acc u) us (put-NodupKeys u.username _ acc h)

next_versions_keep :
    (s : Store) (acc : GoMap ℕ) (users : List ConfigUser) (k : Str)
    → unversioned acc k ≡ false
    → unversioned (next_versions s acc users) k ≡ false
unfolding next_versions
next_versions_keep s acc [] k h = h
next_versions_keep s acc (u ∷ us) k h =
    next_versions_keep s (bumped s acc u) us k
      (unversioned-put u.username k _ acc (next_session_version-ne-0 _) h)

next_versions-All :
    (s : Store) (acc : GoMap ℕ) (users : List ConfigUser)
    → All (λ u. unversioned (next_versions s acc users) u.username ≡ false) users
unfolding next_versions
next_versions-All s acc [] = tt
next_versions-All s acc (u ∷ us) = (
  next_versions_keep s (bumped s acc u) us u.username
      (unversioned-put_self u.username _ acc (next_session_version-ne-0 _)),
  next_versions-All s (bumped s acc u) us,
)

All-and {ℓ} :
    {V : Type ℓ} (P Q : V → Type 0) (xs : List V) → All P xs → All Q xs → All (λ x. P x × Q x) xs
All-and P Q [] h k = tt
All-and P Q (x ∷ xs) (p, h) (q, k) = ((p, q), All-and P Q xs h k)

-- What the parts of a snapshot must satisfy for a store that applies it to be valid.
pub record IsSound (c : ConfigSnapshot) : Type 0 where
  pub defs : GoMap RoleDef
  pub listed : c.roles ≡ sort_by role_before (values defs)
  pub roles : MapOf DefOk defs
  pub users : All (UserItem defs) c.users
  pub google : All (GoogleItem defs) c.google.mappings
  pub oidc : All (OidcItem defs) c.oidc.mappings
  pub entra : All (OidcItem defs) c.entra.mappings

pub apply_snapshot-IsValid :
    (c : ConfigSnapshot) (s : Store) → IsSound c → IsValid (apply_snapshot c s)
unfolding apply_snapshot
apply_snapshot-IsValid c s sound =
    let rebuilt = index (λ r. r.name) c.roles in
    let same : (k : Str) → lookup k rebuilt ≡ lookup k sound.defs = λ k.
      rw sound.listed
        (lookup-MapOf_rebuild (λ r. r.name) role_before sound.roles (λ k v p. p.0) k) in
    let more : MoreRoles sound.defs rebuilt = λ k h. rw (same k) h in
    let users =
      MapOf-index _ (λ (u : ConfigUser). u.username) c.users
        (All-and (UserItem sound.defs) _ c.users sound.users (next_versions-All s [] c.users)) in
    record {
      roles = rw sound.listed (MapOf-rebuild (λ r. r.name) role_before sound.roles (λ k v p. p.0));
      users =
          MapOf-map users
            λ k u e p. (p.1, (p.0.0.0.0, more u.role p.0.0.0.1), rw (← p.1) p.0.1, p.0.0.1);
      google =
          MapOf-map (MapOf-index (GoogleItem sound.defs) google_key c.google.mappings sound.google)
            (λ k g e p. (p.1, (p.0.0, more g.role p.0.1)));
      oidc =
          MapOf-map (MapOf-index (OidcItem sound.defs) oidc_key c.oidc.mappings sound.oidc)
            (λ k g e p. (p.1, (p.0.0, more g.role p.0.1)));
      entra =
          MapOf-map (MapOf-index (OidcItem sound.defs) oidc_key c.entra.mappings sound.entra)
            (λ k g e p. (p.1, (p.0.0, more g.role p.0.1)));
      versions = next_versions-NodupKeys s [] c.users tt;
    }

module _ (codec : JsonCodec) (now : ℕ) (input : ConfigSnapshot) where
  normalize_parts-IsSound :
      (n : ConfigSnapshot) → normalize_parts codec now input ≡ ok n → IsSound n
  unfolding normalize_parts
  normalize_parts-IsSound n h =
      let (defs, roles, h1) = bind-eq_ok (normalize_config_roles codec now input.roles) _ h in
      let (users, e1, h2) =
        bind-eq_ok (normalize_config_users defs now input.initialized input.users) _ h1 in
      let (google, e2, h3) = bind-eq_ok (normalize_config_google defs now input.google) _ h2 in
      let (oidc, e3, h4) = bind-eq_ok (normalize_config_oidc generic defs now input.oidc) _ h3 in
      let (azure, e4, h5) = bind-eq_ok (normalize_config_oidc entra defs now input.entra) _ h4 in
      record {
        defs = defs;
        listed = ground arith;
        roles = normalize_config_roles-MapOf codec now input.roles roles;
        users =
            subst (All (UserItem defs)) {x = users} {y = n.users} (ground arith)
              (normalize_config_users-All defs now input.initialized input.users e1);
        google =
            subst (All (GoogleItem defs)) {x = google.mappings} {y = n.google.mappings}
              (ground arith) (normalize_config_google-All defs now input.google e2);
        oidc =
            subst (All (OidcItem defs)) {x = oidc.mappings} {y = n.oidc.mappings} (ground arith)
              (normalize_config_oidc-All generic defs now input.oidc e3);
        entra =
            subst (All (OidcItem defs)) {x = azure.mappings} {y = n.entra.mappings} (ground arith)
              (normalize_config_oidc-All entra defs now input.entra e4);
      }

  -- A configuration that passes normalisation is sound.
  pub normalize-IsSound :
      (n : ConfigSnapshot) → normalize_config_snapshot codec now input ≡ ok n → IsSound n
  normalize-IsSound n h =
      normalize_parts-IsSound n (unfold normalize_config_snapshot in ground arith)

pub import_config_snapshot-IsValid :
    (codec : JsonCodec) (env : Env) (c : ConfigSnapshot) (s : Store)
    → IsValid s
    → IsValid (import_config_snapshot codec env c s).0
import_config_snapshot-IsValid codec env c s valid =
    go (normalize_config_snapshot codec env.now c) refl
  where
    go :
        (r : Result ConfigSnapshot)
        → normalize_config_snapshot codec env.now c ≡ r
        → IsValid (import_config_snapshot codec env c s).0
    go (err e) h = unfold import_config_snapshot in rw (h, import_config_snapshot) valid
    go (ok n) h =
        unfold import_config_snapshot in
        rw (h, import_config_snapshot)
          (apply_snapshot-IsValid n s (normalize-IsSound codec env.now c n h))

pub replace_config_snapshot-IsValid :
    (codec : JsonCodec) (env : Env) (c : ConfigSnapshot) (s : Store)
    → IsValid s
    → IsValid (replace_config_snapshot codec env c s).0
replace_config_snapshot-IsValid codec env c s valid =
    go (normalize_config_snapshot codec env.now c) refl
  where
    go :
        (r : Result ConfigSnapshot)
        → normalize_config_snapshot codec env.now c ≡ r
        → IsValid (replace_config_snapshot codec env c s).0
    go (err e) h = unfold replace_config_snapshot in rw (h, replace_config_snapshot) valid
    go (ok n) h =
        unfold replace_config_snapshot in
        rw (h, replace_config_snapshot)
          (persist-IsValid (λ s. (apply_snapshot n s, none)) s valid
            (apply_snapshot-IsValid n s (normalize-IsSound codec env.now c n h)))

default_config_snapshot-IsSound : (now : ℕ) → IsSound (default_config_snapshot now)
unfolding default_config_snapshot
default_config_snapshot-IsSound now = record {
  defs =
      put role_admin
        (record {
          name = role_admin;
          mode = role_admin;
          permissions = no_permissions;
          created_at = now;
        })
        [];
  listed = unfold put values sort_by in refl;
  roles = MapOf-put role_admin _ MapOf-nil (refl, unfold fold in refl);
  users = tt;
  google = tt;
  oidc = tt;
  entra = tt;
}

-- A store that has just been opened is valid.
pub open_store-IsValid : (env : Env) (key : Str) → IsValid (open_store env key)
unfolding open_store
open_store-IsValid env key =
    apply_snapshot-IsValid (default_config_snapshot env.now) _
      (default_config_snapshot-IsSound env.now)

-- So is one that has been reset.
pub reset_to_empty_config-IsValid : (env : Env) (s : Store) → IsValid (reset_to_empty_config env s)
unfolding reset_to_empty_config
reset_to_empty_config-IsValid env s =
    apply_snapshot-IsValid (default_config_snapshot env.now) s
      (default_config_snapshot-IsSound env.now)

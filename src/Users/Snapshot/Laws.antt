-- ===== src/Users/Snapshot/Laws.antt =====
-- mutateConfigAndPersist of config_snapshot.go by its outcomes, and the store that it rolls back to.
use beaverdeck.Base.{◌≡◌, refl, Option, none, some, arith, Option-cases, inl, inr}
use beaverdeck.GoMap.Entries.{MapOf-rebuild, lookup-MapOf_rebuild}
use beaverdeck.Users.Types.{Err, Store}
use beaverdeck.Users.Invariant.{
  IsValid, SameConfig, MoreRoles, GoogleOk-more, OidcOk-more, UserOk-more,
}
use beaverdeck.Users.Snapshot.{
  Mutation, google_key, oidc_key, role_before, user_before, google_before, oidc_before, snapshot,
  apply_snapshot, save_config_snapshot, mutate_config_and_persist,
}

-- The store after a failed save.
pub rolled_back : Store → Store → Store
rolled_back s changed = record (apply_snapshot (snapshot s) changed) {
  session_versions = s.session_versions;
}

module _ (s changed : Store) (valid : IsValid s) where
  pub rolled_back-SameConfig : SameConfig (rolled_back s changed) s
  unfolding rolled_back apply_snapshot snapshot
  rolled_back-SameConfig = record {
    roles = lookup-MapOf_rebuild (λ r. r.name) role_before valid.roles (λ k v p. p.0);
    users = lookup-MapOf_rebuild (λ u. u.username) user_before valid.users (λ k v p. p.0);
    google = lookup-MapOf_rebuild google_key google_before valid.google (λ k v p. p.0);
    oidc = lookup-MapOf_rebuild oidc_key oidc_before valid.oidc (λ k v p. p.0);
    entra = lookup-MapOf_rebuild oidc_key oidc_before valid.entra (λ k v p. p.0);
    google_config = refl;
    oidc_config = refl;
    entra_config = refl;
    versions = refl;
  }

  same_roles : MoreRoles s.roles (rolled_back s changed).roles
  same_roles k h = rw (rolled_back-SameConfig.roles k) h

  rolled_back-IsValid : IsValid (rolled_back s changed)
  unfolding rolled_back apply_snapshot snapshot
  rolled_back-IsValid = record {
    roles = MapOf-rebuild (λ r. r.name) role_before valid.roles (λ k v p. p.0);
    users =
        UserOk-more _ _ same_roles s.session_versions
          (MapOf-rebuild (λ u. u.username) user_before valid.users (λ k v p. p.0));
    google =
        GoogleOk-more _ _ same_roles
          (MapOf-rebuild google_key google_before valid.google (λ k v p. p.0));
    oidc =
        OidcOk-more _ _ same_roles (MapOf-rebuild oidc_key oidc_before valid.oidc (λ k v p. p.0));
    entra =
        OidcOk-more _ _ same_roles (MapOf-rebuild oidc_key oidc_before valid.entra (λ k v p. p.0));
    versions = valid.versions;
  }

abbrev save_of : Mutation → Store → Option Err
save_of mutate s = save_config_snapshot (mutate s).0 (snapshot (mutate s).0)

module _ (mutate : Mutation) (s : Store) where
  persist_failed : (e : Err) → (mutate s).1 ≡ some e → mutate_config_and_persist mutate s ≡ mutate s
  unfolding mutate_config_and_persist
  persist_failed e h = ground arith

  persist_saved :
      (mutate s).1 ≡ none → save_of mutate s ≡ none → mutate_config_and_persist mutate s ≡ mutate s
  unfolding mutate_config_and_persist
  persist_saved h k = ground arith

  persist_lost :
      (e : Err)
      → (mutate s).1 ≡ none
      → save_of mutate s ≡ some e
      → mutate_config_and_persist mutate s ≡ (rolled_back s (mutate s).0, some e)
  unfolding mutate_config_and_persist rolled_back
  persist_lost e h k = ground arith

  -- What comes out of `mutate_config_and_persist` has a property if each of its three ends has it.
  pub persist_elim :
      (P : Store × Option Err → Type 0)
      → ((e : Err) → (mutate s).1 ≡ some e → P (mutate s))
      → ((mutate s).1 ≡ none → P (mutate s))
      → ((e : Err) → P (rolled_back s (mutate s).0, some e))
      → P (mutate_config_and_persist mutate s)
  persist_elim P failed saved lost = elim (Option-cases (mutate s).1) [
    | inr (e, h) ↦ rw (persist_failed e h) (failed e h)
    | inl h ↦ elim (Option-cases (save_of mutate s)) [
      | inl k ↦ rw (persist_saved h k) (saved h)
      | inr (e, k) ↦ rw (persist_lost e h k) (lost e)
    ]
  ]

-- A change that keeps stores valid keeps them so when its result is stored, and when it is not.
pub persist-IsValid :
    (mutate : Mutation) (s : Store)
    → IsValid s
    → IsValid (mutate s).0
    → IsValid (mutate_config_and_persist mutate s).0
persist-IsValid mutate s valid kept =
    persist_elim mutate s (λ r. IsValid r.0) (λ e h. kept) (λ h. kept)
      (λ e. rolled_back-IsValid s (mutate s).0 valid)

-- An operation that returns an error has left every configuration map, every provider configuration
-- and every session version as they were, if its closure does so when the closure itself fails.
pub persist-SameConfig :
    (mutate : Mutation) (s : Store) (e : Err)
    → IsValid s
    → ((e : Err) → (mutate s).1 ≡ some e → SameConfig (mutate s).0 s)
    → (mutate_config_and_persist mutate s).1 ≡ some e
    → SameConfig (mutate_config_and_persist mutate s).0 s
persist-SameConfig mutate s e valid clean =
    persist_elim mutate s (λ r. r.1 ≡ some e → SameConfig r.0 s) (λ e h _. clean e h)
      (λ h k. absurd (cc)) (λ e _. rolled_back-SameConfig s (mutate s).0 valid)

-- An operation that succeeds has run its closure to the end and stored the snapshot of the result.
pub persist-eq_ok :
    (mutate : Mutation) (s : Store)
    → (mutate_config_and_persist mutate s).1 ≡ none
    → ((mutate s).1 ≡ none)
      × ((mutate_config_and_persist mutate s).0 ≡ (mutate s).0)
      × (save_config_snapshot (mutate s).0 (snapshot (mutate s).0) ≡ none)
unfolding mutate_config_and_persist
persist-eq_ok mutate s h = (ground arith, ground arith, ground arith)

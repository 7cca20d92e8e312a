-- ===== src/Users/Sessions/Fresh.antt =====
-- CreateSession of accounts.go and the tokens of session_tokens.go, from issue to authentication.
use beaverdeck.Base.{
  ℕ, ◌+◌, ◌<◌, ◌≡◌, refl, subst, sym, ap, ◌∙◌, true, false, not, some, List, ◌∷◌, ◌++◌, is_empty,
  arith, any, nat_eq, leb,
}
use beaverdeck.Text.{
  Str, codes, ◌==◌, fold, trim_space, to_lower, lower, trim_left, trim_right, is_space,
}
use beaverdeck.Text.Laws.{eq_self, eq_sound, fold_idem, trim_space_idem}
use beaverdeck.Text.Split.{has_char, nat_eq_self, split-three}
use beaverdeck.GoMap.{lookup}
use beaverdeck.GoMap.Laws.{lookup-put}
use beaverdeck.Users.Types.{
  no_rows, username_required, no_signing_key, incomplete_payload, Result, ok, err, bind-eq_ok,
  reject_if-eq_ok, RoleDef, ConfigUser, Store, Env,
}
use beaverdeck.Users.Locked.{normalize_role_mode, session_version, version_of, role_def}
use beaverdeck.Users.Passwords.{Crypto}
use beaverdeck.Users.Accounts.{local_user}
use beaverdeck.Users.Sessions.{
  SessionTokenPayload, TokenCodec, unix, session_token_ttl, token_prefix, clean_payload,
  is_incomplete, sign, new_session_token, parse_parts, parse_session_token, session_input,
  source_or_local, or_no_rows, create_session_record, issue_session_token, create_session,
  authenticate,
}
use beaverdeck.Users.Sessions.Recreated.{authenticates}

-- What the texts of tokens promise: both halves are read back, and hold no dot.
pub record IsFaithful (codec : TokenCodec) : Type 0 where
  pub payloads : (p : SessionTokenPayload) → codec.decode (codec.encode p) ≡ some p
  pub signatures : (b : List ℕ) → codec.decode_signature (codec.encode_signature b) ≡ some b
  pub payload_dots : (p : SessionTokenPayload) → has_char b'.' (codec.encode p) ≡ false
  pub signature_dots : (b : List ℕ) → has_char b'.' (codec.encode_signature b) ≡ false

starts-not_blank : (c : ℕ) (s : Str) → is_space c ≡ false → is_empty (trim_space (c ∷ s)) ≡ false
unfolding trim_space trim_left trim_right
starts-not_blank c s e = ground arith

no_dot-token_prefix : has_char b'.' token_prefix ≡ false
unfolding any
no_dot-token_prefix = refl

module _ (crypto : Crypto) (codec : TokenCodec) where
  -- The text of a token.
  abbrev pub token_of : Store → SessionTokenPayload → Str
  token_of s p =
      token_prefix
      ++ (b'.'
          ∷ (codec.encode p
              ++ (b'.' ∷ codec.encode_signature (sign crypto codec s (codec.encode p)))))

  -- The payload of a new token.
  abbrev pub payload_for : Env → Str → Str → Str → ℕ → SessionTokenPayload
  payload_for env name source role version = clean_payload (record {
    username = name;
    auth_source = source;
    role = role;
    session_version = version;
    issued_at = unix env.now;
    expires_at = unix (env.now + session_token_ttl);
  })

  new_session_token-eq_ok :
      (env : Env) (s : Store) (name source role : Str) (version : ℕ) (token : Str) (expires : ℕ)
      → new_session_token crypto codec env s name source role version ≡ ok (token, expires)
      → (is_empty s.session_signing_key ≡ false)
        × (is_incomplete (payload_for env name source role version) ≡ false)
        × (token_of s (payload_for env name source role version) ≡ token)
  unfolding new_session_token
  new_session_token-eq_ok env s name source role version token expires h =
      let (h1, k1) = reject_if-eq_ok (is_empty s.session_signing_key) no_signing_key _ h in
      let (h2, k2) =
        reject_if-eq_ok (is_incomplete (payload_for env name source role version))
          incomplete_payload _ k1 in
      (h1, h2, ground arith)

  clean_payload_idem : (p : SessionTokenPayload) → clean_payload (clean_payload p) ≡ clean_payload p
  clean_payload_idem p =
      rw (trim_space_idem p.username, fold_idem p.auth_source, fold_idem p.role) refl

  token_of-not_blank :
      (s : Store) (p : SessionTokenPayload) → is_empty (trim_space (token_of s p)) ≡ false
  unfolding is_space
  token_of-not_blank s p = starts-not_blank 98 _ refl

  parse-token_of :
      IsFaithful codec
      → (later : Env) (s : Store) (p : SessionTokenPayload) → is_empty s.session_signing_key ≡ false
      → is_incomplete (clean_payload p) ≡ false
      → leb p.expires_at (unix later.now) ≡ false
      → parse_session_token crypto codec later s (token_of s p) ≡ ok (clean_payload p)
  unfolding parse_session_token parse_parts
  parse-token_of faithful later s p key full fresh =
      rw
        (
          token_of-not_blank s p,
          split-three b'.' token_prefix (codec.encode p)
              (codec.encode_signature (sign crypto codec s (codec.encode p))) no_dot-token_prefix
              (faithful.payload_dots p) (faithful.signature_dots _),
          eq_self,
          key,
          faithful.signatures,
          eq_self,
          faithful.payloads,
          full,
          fresh,
        )
        refl

  issue_session_token-eq_ok :
      (env : Env) (name source role : Str) (version : ℕ) (s t : Store) (token : Str)
      → issue_session_token crypto codec env name source role version s ≡ (t, ok token)
      → (expires : ℕ) × (new_session_token crypto codec env s name source role version
          ≡ ok (token, expires))
        × (t ≡ create_session_record token expires s)
  unfolding issue_session_token
  issue_session_token-eq_ok env name source role version s t token =
      go (new_session_token crypto codec env s name source role version) refl
    where
      go :
          (r : Result (Str × ℕ))
          → new_session_token crypto codec env s name source role version ≡ r
          → issue_session_token crypto codec env name source role version s ≡ (t, ok token)
          → (expires : ℕ) × (new_session_token crypto codec env s name source role version
              ≡ ok (token, expires))
            × (t ≡ create_session_record token expires s)
      go (err e) h = rw (issue_session_token, h) λ k. absurd (cc)
      go (ok (tok, expires)) h = rw (issue_session_token, h) λ k. (expires, cc, cc)

  -- A token whose record has just been made authenticates.
  recorded :
      IsFaithful codec
      → (later : Env) (s : Store) (p : SessionTokenPayload) (expires : ℕ) (user : ConfigUser)
        (def : RoleDef) (mode : Str)
      → is_empty s.session_signing_key ≡ false
      → is_incomplete p ≡ false
      → clean_payload p ≡ p
      → leb p.expires_at (unix later.now) ≡ false
      → (p.auth_source == codes "local") ≡ true
      → lookup p.username s.users ≡ some user
      → role_def s user.role ≡ some def
      → normalize_role_mode def.mode ≡ some mode
      → nat_eq (session_version s user.username) p.session_version ≡ true
      → authenticate crypto codec later
          (create_session_record (token_of s p) expires s)
          (token_of s p)
        ≡ ok (local_user (create_session_record (token_of s p) expires s) user def (token_of s p))
  unfolding create_session_record session_version version_of role_def
  recorded faithful later s p expires user def mode key full clean fresh here found named moded
        version =
      let after : Store = create_session_record (token_of s p) expires s in
      let parsed =
        parse-token_of faithful later after p key
          (subst (λ x. is_incomplete x ≡ false) (sym clean) full) fresh in
      authenticates crypto codec later after (token_of s p) p user def mode (parsed ∙ ap ok clean)
        here found named moded version (rw (lookup-put, eq_self) refl)

local_fold : fold (codes "local") ≡ codes "local"
unfolding fold trim_space trim_left trim_right is_space to_lower lower
local_fold = refl

not_leb : (a b : ℕ) → b < a → leb a b ≡ false
not_leb a b h = ground arith

session_input-eq_ok :
    (s : Store) (username source name : Str) (user : ConfigUser)
    → session_input s username source ≡ ok (name, user)
    → (name ≡ trim_space username)
      × (source_or_local source ≡ codes "local")
      × (lookup (trim_space username) s.users ≡ some user)
session_input-eq_ok s username source name user h =
    let (h1, k1) = reject_if-eq_ok (is_empty (trim_space username)) username_required _ h in
    let (h2, k2) = reject_if-eq_ok (not (source_or_local source == codes "local")) no_rows _ k1 in
    let (u, h3, k3) = bind-eq_ok (or_no_rows (lookup (trim_space username) s.users)) _ k2 in
    (cc, eq_sound _ _ (ground arith), ground arith)

module _ (crypto : Crypto) (codec : TokenCodec) (env : Env) (s t : Store)
    (username source token : Str) (user : ConfigUser) where
  create_session-eq_ok :
      create_session crypto codec env username source s ≡ (t, ok token)
      → lookup (trim_space username) s.users ≡ some user
      → issue_session_token crypto codec env
          (trim_space username)
          (codes "local")
          user.role
          (session_version s user.username)
          s
        ≡ (t, ok token)
  unfolding create_session
  create_session-eq_ok h found = go (session_input s username source) refl h
    where
      go :
          (r : Result (Str × ConfigUser))
          → session_input s username source ≡ r
          → create_session crypto codec env username source s ≡ (t, ok token)
          → issue_session_token crypto codec env
              (trim_space username)
              (codes "local")
              user.role
              (session_version s user.username)
              s
            ≡ (t, ok token)
      go (err e) h = rw (create_session, h) λ k. absurd (cc)
      go (ok (name, u)) h =
          rw (create_session, h)
            λ k.
              let (e1, e2, e3) = session_input-eq_ok s username source name u h in
              let same : u ≡ user = cc in
              subst
                (λ x.
                  issue_session_token crypto codec env x (codes "local") user.role
                    (session_version s user.username) s
                  ≡ (t, ok token))
                e1
                (subst
                  (λ x.
                    issue_session_token crypto codec env name x user.role
                      (session_version s user.username) s
                    ≡ (t, ok token))
                  e2
                  (subst
                    (λ x.
                      issue_session_token crypto codec env name (source_or_local source) x.role
                        (session_version s x.username) s
                      ≡ (t, ok token))
                    same k))

  -- A token that CreateSession returns for a user whose role is defined, with a mode, authenticates as
  -- that user in the store that CreateSession leaves, until the second in which it expires.
  pub create_session-authenticate :
      (later : Env) (def : RoleDef) (mode : Str)
      → IsFaithful codec
      → create_session crypto codec env username source s ≡ (t, ok token)
      → lookup (trim_space username) s.users ≡ some user
      → role_def s user.role ≡ some def
      → normalize_role_mode def.mode ≡ some mode
      → unix later.now < unix (env.now + session_token_ttl)
      → authenticate crypto codec later t token ≡ ok (local_user t user def token)
  create_session-authenticate later def mode faithful h found named moded fresh =
      let name = trim_space username in
      let version = session_version s user.username in
      let p = payload_for crypto codec env name (codes "local") user.role version in
      let (expires, made, after) =
        issue_session_token-eq_ok crypto codec env name (codes "local") user.role version s t token
          (create_session-eq_ok h found) in
      let (key, full, text) =
        new_session_token-eq_ok crypto codec env s name (codes "local") user.role version token
          expires made in
      let shown =
        recorded crypto codec faithful later s p expires user def mode key full
          (clean_payload_idem crypto codec _) (not_leb _ _ fresh)
          (ap (λ x. x == codes "local") local_fold ∙ eq_self (codes "local"))
          (rw trim_space_idem found) named moded (nat_eq_self version) in
      let there : create_session_record (token_of crypto codec s p) expires s ≡ t =
        ap (λ x. create_session_record x expires s) text ∙ sym after in
      subst (λ x. authenticate crypto codec later t x ≡ ok (local_user t user def x)) text
        (subst
          (λ x.
            authenticate crypto codec later x (token_of crypto codec s p)
            ≡ ok (local_user x user def (token_of crypto codec s p)))
          there shown)

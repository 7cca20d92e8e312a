-- ===== src/Tests/Sessions.antt =====
-- Session tokens of a concrete store.
use beaverdeck.Base.{false, subst, ltb, ◌+◌, ◌^◌, ◌≡◌, ◌<◌, ◌≢◌, refl, true, none, some, arith}
use beaverdeck.Text.{Str, codes, trim_space, ◌==◌, split}
use beaverdeck.GoMap.Laws.{lookup-put}
use beaverdeck.Text.Laws.{eq_self}
use beaverdeck.Users.Sessions.Swept.{sweep_sessions-authenticate}
use beaverdeck.GoMap.{NodupKeys, lookup}
use beaverdeck.Users.Types.{SessionRecord, ok, RoleDef, UserWithToken, Store, Env}
use beaverdeck.Users.Invariant.{IsValid}
use beaverdeck.Users.Snapshot.{next_versions}
use beaverdeck.Users.Passwords.{hash_local_password}
use beaverdeck.Users.Locked.{
  session_version, version_of, below_one, next_session_version, normalize_role_mode, role_def,
}
use beaverdeck.Users.Accounts.{add_user, remove_user, local_user, delete_user, reset_local_password}
use beaverdeck.Users.Accounts.Keeps.{add_user-IsValid}
use beaverdeck.Users.Sessions.{
  sweep_sessions, SessionTokenPayload, unix, session_token_ttl, is_live, create_session,
  create_session_record, issue_session_token, new_session_token, authenticate, logout,
  parse_session_token, parse_parts, user_of_payload, revoke_session,
}
use beaverdeck.Users.Sessions.Laws.{logout-authenticate}
use beaverdeck.Users.Sessions.Revoked.{reset_local_password-authenticate, delete_user-authenticate}
use beaverdeck.Users.Sessions.Recreated.{recreated-authenticate}
use beaverdeck.Users.Sessions.Fresh.{token_of, create_session-authenticate}
use beaverdeck.Tests.{
  test_crypto, test_env, one_admin, one_admin-IsValid, root, everything, admin_fold, hash_full,
}
use beaverdeck.Tests.Codec.{test_codec, test_codec-IsFaithful, shift, unshift}

everything_here : Unit {0}
unfolding everything session_version version_of below_one next_session_version normalize_role_mode
    create_session create_session_record issue_session_token new_session_token parse_session_token
    parse_parts next_versions authenticate logout user_of_payload revoke_session split shift unshift
    remove_user reset_local_password
everything_here = tt

-- A store with a second administrator.
abbrev two_admins : Store
two_admins = (add_user test_env (codes "second") (codes "admin") (codes "hash") one_admin).0

two_admins-IsValid : IsValid two_admins
two_admins-IsValid =
    add_user-IsValid test_env (codes "second") (codes "admin") (codes "hash") one_admin admin_fold
      hash_full one_admin-IsValid

abbrev admin : RoleDef
admin = record {
  name = codes "admin";
  mode = codes "admin";
  permissions = codes "{}";
  created_at = 1000000000;
}

abbrev payload : SessionTokenPayload
payload = record {
  username = codes "root";
  auth_source = codes "local";
  role = codes "admin";
  session_version = 1;
  issued_at = 1;
  expires_at = 43201;
}

abbrev pub token : Str
token = token_of test_crypto test_codec two_admins payload

abbrev pub logged_in : Store
logged_in = create_session_record token (test_env.now + session_token_ttl) two_admins

-- An hour later.
abbrev later : Env
later = record test_env { now = 3601000000000 }

abbrev root_user : UserWithToken
root_user = local_user logged_in root admin token

issued :
    create_session test_crypto test_codec test_env (codes "root") (codes "local") two_admins
    ≡ (logged_in, ok token)
unfolding everything_here
issued = refl

found : lookup (trim_space (codes "root")) two_admins.users ≡ some root
unfolding everything
found = refl

named : role_def two_admins root.role ≡ some admin
unfolding everything
named = refl

moded : normalize_role_mode admin.mode ≡ some (codes "admin")
unfolding everything_here
moded = refl

in_time : unix later.now < unix (test_env.now + session_token_ttl)
in_time = omega arith

create_session-authenticate_example :
    authenticate test_crypto test_codec later logged_in token ≡ ok root_user
create_session-authenticate_example =
    create_session-authenticate test_crypto test_codec test_env two_admins logged_in (codes "root")
      (codes "local") token root later admin (codes "admin") test_codec-IsFaithful issued found
      named moded in_time

authenticated : authenticate test_crypto test_codec test_env logged_in token ≡ ok root_user
authenticated =
    create_session-authenticate test_crypto test_codec test_env two_admins logged_in (codes "root")
      (codes "local") token root test_env admin (codes "admin") test_codec-IsFaithful issued found
      named moded (omega arith)

logout-authenticate_example :
    authenticate test_crypto test_codec later
      (logout test_crypto test_codec test_env token logged_in)
      token
    ≢ ok root_user
logout-authenticate_example =
    logout-authenticate test_crypto test_codec test_env later logged_in token root_user
      (omega arith)

logged_in-IsValid : IsValid logged_in
unfolding create_session_record
logged_in-IsValid = record {
  roles = two_admins-IsValid.roles;
  users = two_admins-IsValid.users;
  google = two_admins-IsValid.google;
  oidc = two_admins-IsValid.oidc;
  entra = two_admins-IsValid.entra;
  versions = two_admins-IsValid.versions;
}

is_local : (root_user.auth_source == codes "local") ≡ true
unfolding everything
is_local = refl

delete_root : (delete_user (codes "root") logged_in).1 ≡ none
unfolding everything_here
delete_root = refl

root_trimmed : root_user.username ≡ trim_space (codes "root")
unfolding everything
root_trimmed = refl

delete_user-authenticate_example :
    authenticate test_crypto test_codec later (delete_user (codes "root") logged_in).0 token
    ≢ ok root_user
delete_user-authenticate_example =
    delete_user-authenticate test_crypto test_codec test_env later logged_in token root_user
      root_user logged_in-IsValid authenticated is_local (omega arith) (codes "root") root_trimmed
      delete_root

small_version : version_of logged_in (codes "root") < 2 ^ 63
unfolding everything_here
small_version = omega arith

reset_root :
    (reset_local_password test_crypto test_env (codes "root") (codes "secret") logged_in).1 ≡ none
unfolding everything_here hash_local_password
reset_root = refl

reset_local_password-authenticate_example :
    authenticate test_crypto test_codec later
      (reset_local_password test_crypto test_env (codes "root") (codes "secret") logged_in).0
      token
    ≢ ok root_user
reset_local_password-authenticate_example =
    reset_local_password-authenticate test_crypto test_codec test_env later logged_in token
      root_user root_user logged_in-IsValid authenticated is_local (omega arith) test_env
      (codes "root") (codes "secret") root_trimmed small_version reset_root

payload_parses : parse_session_token test_crypto test_codec later logged_in token ≡ ok payload
unfolding everything_here
payload_parses = refl

removed_root : (remove_user (codes "root") logged_in).1 ≡ none
unfolding everything_here
removed_root = refl

added_root :
    (add_user later
      (codes "root")
      (codes "admin")
      (codes "other")
      (remove_user (codes "root") logged_in).0).1
    ≡ none
unfolding everything_here
added_root = refl

still_named : role_def logged_in root.role ≡ some admin
unfolding everything_here
still_named = refl

still_live : is_live (lookup token logged_in.sessions) ≡ true
unfolding everything_here
still_live = refl

recreated-authenticate_example :
    (w : UserWithToken) × (w.username ≡ codes "root")
    × (authenticate test_crypto test_codec later
          (add_user later
            (codes "root")
            (codes "admin")
            (codes "other")
            (remove_user (codes "root") logged_in).0).0
          token
        ≡ ok w)
recreated-authenticate_example =
    recreated-authenticate test_crypto test_codec later logged_in token (codes "root")
      (codes "admin") (codes "other") (codes "admin") payload admin removed_root added_root
      payload_parses is_local refl refl still_live still_named moded

one_record :
    (r : SessionRecord)
    → lookup token logged_in.sessions ≡ some r
    → ltb later.now r.expires_at ≡ true
one_record r e =
    let there : lookup token logged_in.sessions
        ≡ some (record { expires_at = test_env.now + session_token_ttl; revoked = false }) =
      unfold create_session_record in rw (lookup-put, eq_self) refl in
    let same : record { expires_at = test_env.now + session_token_ttl; revoked = false } ≡ r = cc in
    subst (λ x. ltb later.now x.expires_at ≡ true) same refl

one_session : NodupKeys logged_in.sessions
unfolding everything_here
one_session = (refl, tt)

sweep_sessions-authenticate_example :
    authenticate test_crypto test_codec later (sweep_sessions later.now logged_in) token
    ≡ authenticate test_crypto test_codec later logged_in token
sweep_sessions-authenticate_example =
    sweep_sessions-authenticate test_crypto test_codec later later.now logged_in token one_session
      one_record

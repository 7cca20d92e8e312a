-- ===== src/Users/Accounts/Laws.antt =====
-- The checked inputs of Create and ResetLocalPassword in accounts.go.
use beaverdeck.Base.{◌≡◌, false, ◌||◌, is_empty, arith}
use beaverdeck.Text.{Str, codes, trim_space}
use beaverdeck.Users.Types.{Env, ok, bind-eq_ok, reject_if-eq_ok, credentials_required}
use beaverdeck.Users.Fields.{clean_config_field}
use beaverdeck.Users.Passwords.{Crypto, hash_local_password}
use beaverdeck.Users.Passwords.Laws.{hash_local_password-not_blank}
use beaverdeck.Users.Accounts.{new_user_input, new_password_input}

-- The input of a new user: the cleaned name, and a hash of the password.
pub new_user_input-eq_ok :
    (crypto : Crypto) (env : Env) (username token name hash : Str)
    → new_user_input crypto env username token ≡ ok (name, hash)
    → (clean_config_field (codes "username") username 160 false ≡ ok name)
      × (hash_local_password crypto env (trim_space token) ≡ ok hash)
unfolding new_user_input
new_user_input-eq_ok crypto env username token name hash e =
    let (n, e1, e2) = bind-eq_ok (clean_config_field (codes "username") username 160 false) _ e in
    let (full, e3) = reject_if-eq_ok (is_empty (trim_space token)) credentials_required _ e2 in
    let (h, e4, e5) = bind-eq_ok (hash_local_password crypto env (trim_space token)) _ e3 in
    (ground arith, ground arith)

pub new_user_input-not_blank :
    (crypto : Crypto) (env : Env) (username token name hash : Str)
    → new_user_input crypto env username token ≡ ok (name, hash)
    → is_empty (trim_space hash) ≡ false
new_user_input-not_blank crypto env username token name hash e =
    hash_local_password-not_blank crypto env (trim_space token) hash
      (new_user_input-eq_ok crypto env username token name hash e).1

pub new_password_input-not_blank :
    (crypto : Crypto) (env : Env) (username password hash : Str)
    → new_password_input crypto env username password ≡ ok hash
    → is_empty (trim_space hash) ≡ false
unfolding new_password_input
new_password_input-not_blank crypto env username password hash e =
    hash_local_password-not_blank crypto env (trim_space password) hash
      (reject_if-eq_ok (is_empty (trim_space username) || is_empty (trim_space password))
        credentials_required _ e).1

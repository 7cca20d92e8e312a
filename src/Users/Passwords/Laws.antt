-- ===== src/Users/Passwords/Laws.antt =====
-- hashLocalPassword of passwords.go: the parts of a hash.
use beaverdeck.Base.{ℕ, ◌≡◌, refl, subst, false, List, is_empty}
use beaverdeck.Text.{Str, trim_space}
use beaverdeck.Users.Types.{Env, ok, bind-eq_ok, reject_if-eq_ok, password_required}
use beaverdeck.Users.Passwords.{Crypto, hash_text, hash_local_password}

-- A hash is made of the trimmed password and the salt that was drawn.
pub hash_local_password-eq_ok :
    (crypto : Crypto) (env : Env) (password h : Str)
    → hash_local_password crypto env password ≡ ok h
    → (salt : List ℕ) × (env.random ≡ ok salt)
      × (is_empty (trim_space password) ≡ false)
      × (hash_text crypto (trim_space password) salt ≡ h)
unfolding hash_local_password
hash_local_password-eq_ok crypto env password h e =
    let (full, e1) = reject_if-eq_ok (is_empty (trim_space password)) password_required _ e in
    let (salt, drawn, e2) =
      bind-eq_ok env.random (λ salt. ok (hash_text crypto (trim_space password) salt)) e1 in
    (salt, drawn, full, cc)

hash_text-not_blank :
    (crypto : Crypto) (password : Str) (salt : List ℕ)
    → is_empty (trim_space (hash_text crypto password salt)) ≡ false
unfolding hash_text trim_space
hash_text-not_blank crypto password salt = refl

pub hash_local_password-not_blank :
    (crypto : Crypto) (env : Env) (password h : Str)
    → hash_local_password crypto env password ≡ ok h
    → is_empty (trim_space h) ≡ false
hash_local_password-not_blank crypto env password h e =
    let (salt, drawn, full, same) = hash_local_password-eq_ok crypto env password h e in
    subst (λ t. is_empty (trim_space t) ≡ false) same
      (hash_text-not_blank crypto (trim_space password) salt)

-- ===== src/Users/Passwords.antt =====
-- passwords.go: salted, iterated SHA-256 of a password, as the text bdk1$iterations$salt$digest.
-- SHA-256 and HMAC are parameters.
pub mod Hex
pub mod Laws
pub mod Verified
use beaverdeck.Base.{
  ℕ, zero, suc, ◌+◌, ◌-◌, ◌*◌, ◌^◌, ◌<◌, ◌≡◌, Bool, true, false, not, ◌&&◌, ◌||◌, Option, none,
  some, List, [], ◌∷◌, ◌++◌, leb, ltb, nat_eq, is_empty, if◌then◌else◌,
}
use beaverdeck.Text.{Str, codes, ◌==◌, trim_space, split, utf8}
use beaverdeck.Text.Numbers.{atoi}
use beaverdeck.Users.Types.{
  Err, password_required, bad_hash_format, bad_hash_salt, bad_hash_digest, Result, ok, err, ◌>>=◌,
  ◌>>◌, reject_if, Env,
}
use beaverdeck.Users.Passwords.Hex.{hex_encode, hex_decode}

-- crypto/sha256 and crypto/hmac.
pub record Crypto : Type 0 where
  pub sha256 : List ℕ → List ℕ
  pub hmac_sha256 : List ℕ → List ℕ → List ℕ

abbrev pub hash_prefix : Str
hash_prefix = codes "bdk1"

abbrev pub hash_iterations : ℕ
hash_iterations = 180000

-- The text of `hash_iterations`, as %d prints it.
abbrev pub hash_iterations_text : Str
hash_iterations_text = codes "180000"

-- A count of iterations that is a positive number.
unfoldable pub positive_iterations : Str → Option ℕ
unfolding atoi
positive_iterations s = elim (atoi s) [
  | none ↦ none
  | some (negative, n) ↦ if negative || nat_eq n 0 then none else some n
]

abbrev or_fail {ℓ} : {A : Type ℓ} → Err → Option A → Result A
or_fail e none = err e
or_fail e (some a) = ok a

module _ (crypto : Crypto) where
  -- The rounds after the first.
  unfoldable pub digest_rounds : ℕ → List ℕ → List ℕ → List ℕ
  digest_rounds zero block digest = digest
  digest_rounds (suc n) block digest = digest_rounds n block (crypto.sha256 (block ++ digest))

  unfoldable pub derive_local_password_hash : Str → List ℕ → ℕ → List ℕ
  derive_local_password_hash password salt iterations =
      let block = salt ++ utf8 password in
      digest_rounds (iterations - 1) block (crypto.sha256 block)

  -- The text that is stored for a password and a salt.
  unfoldable pub hash_text : Str → List ℕ → Str
  hash_text password salt =
      let sum = derive_local_password_hash password salt hash_iterations in
      hash_prefix
      ++ (b'$' ∷ (hash_iterations_text ++ (b'$' ∷ (hex_encode salt ++ (b'$' ∷ hex_encode sum)))))

  unfoldable pub hash_local_password : Env → Str → Result Str
  unfolding hash_text
  hash_local_password env password = do
    let p = trim_space password
    reject_if (is_empty p) password_required
    salt ← env.random
    ok (hash_text p salt)

  abbrev pub check_parts : Str → Str → Str → Str → Result (Bool × Bool)
  check_parts p iterations salt digest = do
    n ← or_fail bad_hash_format (positive_iterations iterations)
    salt_bytes ← or_fail bad_hash_salt (hex_decode salt)
    expected ← or_fail bad_hash_digest (hex_decode digest)
    let matched = derive_local_password_hash p salt_bytes n == expected
    ok (matched, matched && not (nat_eq n hash_iterations))

  -- A stored value of another form is compared as a plain password.
  abbrev pub check_stored : Str → Str → List Str → Result (Bool × Bool)
  check_stored stored p (prefix ∷ iterations ∷ salt ∷ digest ∷ []) =
      if prefix == hash_prefix
      then check_parts p iterations salt digest
      else ok (utf8 stored == utf8 p, true)
  check_stored stored p _ = ok (utf8 stored == utf8 p, true)

  -- Whether the password matches, and whether the stored value is due for a new hash.
  unfoldable pub verify_local_password : Str → Str → Result (Bool × Bool)
  verify_local_password stored password =
      let p = trim_space password in
      if is_empty (trim_space stored) || is_empty p
      then ok (false, false)
      else check_stored stored p (split b'$' stored)

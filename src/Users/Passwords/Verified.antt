-- ===== src/Users/Passwords/Verified.antt =====
-- hashLocalPassword and verifyLocalPassword of passwords.go, one after the other.
use beaverdeck.Base.{
  ℕ, zero, suc, ◌-◌, ◌≡◌, refl, subst, sym, true, false, List, [], ◌∷◌, ◌++◌, some, any, is_empty,
  arith,
}
use beaverdeck.Text.{Str, split, trim_space, utf8}
use beaverdeck.Text.Laws.{eq_self}
use beaverdeck.Text.Split.{has_char, split-four}
use beaverdeck.Users.Types.{Env, ok}
use beaverdeck.Text.Numbers.{digits, atoi_signed, atoi}
use beaverdeck.Users.Passwords.{
  Crypto, hash_prefix, hash_iterations, hash_iterations_text, positive_iterations, digest_rounds,
  derive_local_password_hash, hash_text, check_parts, hash_local_password, verify_local_password,
}
use beaverdeck.Users.Passwords.Hex.{hex_digit, hex_encode, AreBytes, hex_decode-hex_encode}
use beaverdeck.Users.Passwords.Laws.{hash_local_password-eq_ok, hash_local_password-not_blank}

no_dollar-hex_encode : (bs : List ℕ) → has_char b'$' (hex_encode bs) ≡ false
unfolding hex_encode hex_digit any
no_dollar-hex_encode [] = refl
no_dollar-hex_encode (b ∷ bs) = ground (arith, no_dollar-hex_encode bs)

no_dollar-hash_prefix : has_char b'$' hash_prefix ≡ false
unfolding any
no_dollar-hash_prefix = refl

no_dollar-iterations : has_char b'$' hash_iterations_text ≡ false
unfolding any
no_dollar-iterations = refl

iterations_read : positive_iterations hash_iterations_text ≡ some hash_iterations
unfolding positive_iterations atoi atoi_signed digits
iterations_read = refl

module _ (crypto : Crypto) (bytes : (b : List ℕ) → AreBytes (crypto.sha256 b)) where
  digest_rounds-AreBytes :
      (n : ℕ) (block digest : List ℕ)
      → AreBytes digest
      → AreBytes (digest_rounds crypto n block digest)
  unfolding digest_rounds
  digest_rounds-AreBytes zero block digest h = h
  digest_rounds-AreBytes (suc n) block digest h =
      digest_rounds-AreBytes n block (crypto.sha256 (block ++ digest)) (bytes (block ++ digest))

  derived-AreBytes :
      (p : Str) (salt : List ℕ) (n : ℕ) → AreBytes (derive_local_password_hash crypto p salt n)
  unfolding derive_local_password_hash
  derived-AreBytes p salt n = digest_rounds-AreBytes (n - 1) (salt ++ utf8 p) _ (bytes _)

  split-hash_text :
      (p : Str) (salt : List ℕ)
      → split b'$' (hash_text crypto p salt)
        ≡ hash_prefix
          ∷ hash_iterations_text
          ∷ hex_encode salt
          ∷ hex_encode (derive_local_password_hash crypto p salt hash_iterations)
          ∷ []
  unfolding hash_text
  split-hash_text p salt =
      let sum = derive_local_password_hash crypto p salt hash_iterations in
      split-four b'$' hash_prefix hash_iterations_text (hex_encode salt) (hex_encode sum)
        no_dollar-hash_prefix no_dollar-iterations (no_dollar-hex_encode salt)
        (no_dollar-hex_encode sum)

  parts_checked :
      (p : Str) (salt : List ℕ)
      → AreBytes salt
      → check_parts crypto p hash_iterations_text
          (hex_encode salt)
          (hex_encode (derive_local_password_hash crypto p salt hash_iterations))
        ≡ ok (true, false)
  parts_checked p salt h =
      rw
        (
          iterations_read,
          hex_decode-hex_encode salt h,
          hex_decode-hex_encode _ (derived-AreBytes p salt hash_iterations),
          eq_self,
        )
        refl

  verified :
      (p : Str) (salt : List ℕ)
      → AreBytes salt
      → is_empty (trim_space (hash_text crypto (trim_space p) salt)) ≡ false
      → is_empty (trim_space p) ≡ false
      → verify_local_password crypto (hash_text crypto (trim_space p) salt) p ≡ ok (true, false)
  unfolding verify_local_password
  verified p salt h full password =
      rw (full, password, split-hash_text, eq_self) (parts_checked (trim_space p) salt h)

  -- A hash that was made of a password is matched by that password, and is not due for an upgrade, for
  -- a SHA-256 that gives bytes and a salt of bytes.
  pub verify_local_password-hash_local_password :
      (env : Env) (password stored : Str)
      → ((salt : List ℕ) → env.random ≡ ok salt → AreBytes salt)
      → hash_local_password crypto env password ≡ ok stored
      → verify_local_password crypto stored password ≡ ok (true, false)
  verify_local_password-hash_local_password env password stored salted h =
      let (salt, drawn, full, same) = hash_local_password-eq_ok crypto env password stored h in
      let kept = hash_local_password-not_blank crypto env password stored h in
      subst (λ x. verify_local_password crypto x password ≡ ok (true, false)) same
        (verified password salt (salted salt drawn)
          (subst (λ x. is_empty (trim_space x) ≡ false) (sym same) kept) full)

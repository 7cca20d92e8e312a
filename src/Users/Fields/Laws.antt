-- ===== src/Users/Fields/Laws.antt =====
-- What a cleaned field is, and what a stored password hash is not.
use beaverdeck.Base.{ℕ, ◌≤◌, ◌≡◌, refl, Bool, true, false, not, ◌&&◌, [], ◌∷◌, any, is_empty, arith}
use beaverdeck.Text.{Str, trim_space, split, byte_len}
use beaverdeck.Users.Types.{Result, ok, err}
use beaverdeck.Users.Fields.{
  clean_config_field, is_refused, is_hash_parts, is_local_password_hash, at_stage,
}

-- A field passes exactly with its trimmed text, which is short enough and free of control characters.
pub clean_config_field-eq_ok :
    (name value : Str) (max_len : ℕ) (allow_empty : Bool) (v : Str)
    → clean_config_field name value max_len allow_empty ≡ ok v
    → (v ≡ trim_space value)
      × (is_empty v && not allow_empty ≡ false)
      × (byte_len v ≤ max_len)
      × (any is_refused v ≡ false)
unfolding clean_config_field
clean_config_field-eq_ok name value max_len allow_empty v h =
    (ground arith, ground arith, ground arith, ground arith)

pub at_stage-eq_ok {ℓ} :
    {A : Type ℓ} (stage : Str) (r : Result A) {a : A} → at_stage stage r ≡ ok a → r ≡ ok a
at_stage-eq_ok stage (ok a) h = h
at_stage-eq_ok stage (err e) h = cc

parts_not_blank : (s : Str) → is_hash_parts (split b'$' s) ≡ true → is_empty s ≡ false
unfolding is_hash_parts split
parts_not_blank [] h = cc
parts_not_blank (c ∷ s) h = refl

-- What is accepted as a stored hash is not blank.
pub is_local_password_hash-not_blank :
    (value : Str) → is_local_password_hash value ≡ true → is_empty (trim_space value) ≡ false
unfolding is_local_password_hash
is_local_password_hash-not_blank value h = parts_not_blank (trim_space value) h

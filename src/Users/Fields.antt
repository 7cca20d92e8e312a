-- ===== src/Users/Fields.antt =====
-- config_snapshot.go: cleanConfigField, validateConfigTextFields, isLocalPasswordHash, firstNonEmpty.
pub mod Laws
use beaverdeck.Base.{
  ℕ, Bool, true, false, not, ◌&&◌, ◌||◌, Option, none, some, List, [], ◌∷◌, any, is_empty, nat_eq,
  ltb, if◌then◌else◌,
}
use beaverdeck.Text.{Str, codes, ◌==◌, is_control, trim_space, split, byte_len}
use beaverdeck.Users.Types.{
  Err, staged, field_required, field_too_long, field_has_controls, Result, ok, err, ◌>>=◌, ◌>>◌,
  reject_if,
}

unfoldable pub is_refused : ℕ → Bool
is_refused r = nat_eq r 0 || nat_eq r 13 || nat_eq r 10 || (is_control r && not (nat_eq r 9))

unfoldable pub clean_config_field : Str → Str → ℕ → Bool → Result Str
clean_config_field name value max_len allow_empty = do
  let v = trim_space value
  reject_if (is_empty v && not allow_empty) (field_required name)
  reject_if (ltb max_len (byte_len v)) (field_too_long name)
  reject_if (any is_refused v) (field_has_controls name)
  ok v

-- The fields come in the order of a range over a map, which only decides which error is returned.
unfoldable pub validate_config_text_fields : List (Str × Str) → ℕ → Result (Unit {0})
validate_config_text_fields [] max_len = ok tt
validate_config_text_fields ((name, value) ∷ fields) max_len = do
  clean_config_field name value max_len true
  validate_config_text_fields fields max_len

unfoldable pub is_hash_parts : List Str → Bool
is_hash_parts (prefix ∷ iterations ∷ salt ∷ digest ∷ []) =
    prefix == codes "bdk1"
    && not (is_empty iterations)
    && not (is_empty salt)
    && not (is_empty digest)
is_hash_parts _ = false

unfoldable pub is_local_password_hash : Str → Bool
unfolding is_hash_parts
is_local_password_hash value = is_hash_parts (split b'$' (trim_space value))

unfoldable pub first_non_empty : List Str → Str
first_non_empty [] = []
first_non_empty (v ∷ vs) = if is_empty (trim_space v) then first_non_empty vs else trim_space v

-- importStageError
abbrev pub at_stage {ℓ} : {A : Type ℓ} → Str → Result A → Result A
at_stage stage (ok a) = ok a
at_stage stage (err e) = err (staged stage e)

abbrev pub or_err {ℓ} : {A : Type ℓ} → Err → Option A → Result A
or_err e none = err e
or_err e (some a) = ok a

-- `if createdAt.IsZero()`
abbrev pub or_now : ℕ → ℕ → ℕ
or_now now t = if nat_eq t 0 then now else t

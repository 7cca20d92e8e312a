-- ===== src/Users/Passwords/Hex.antt =====
-- encoding/hex.
use beaverdeck.Base.{
  ℕ, ◌+◌, ◌-◌, ◌*◌, ◌/◌, ◌%◌, ◌<◌, ◌≡◌, refl, ◌&&◌, Option, none, some, List, [], ◌∷◌, leb, ltb,
  arith, if◌then◌else◌,
}
use beaverdeck.Text.{Str}

unfoldable pub hex_digit : ℕ → ℕ
hex_digit n = if ltb n 10 then n + 48 else n + 87

unfoldable pub hex_value : ℕ → Option ℕ
hex_value c =
    if leb b'0' c && leb c b'9'
    then some (c - 48)
    else if leb b'a' c && leb c b'f'
    then some (c - 87)
    else if leb b'A' c && leb c b'F'
    then some (c - 55)
    else none

-- hex.EncodeToString
unfoldable pub hex_encode : List ℕ → Str
unfolding hex_digit
hex_encode [] = []
hex_encode (b ∷ bs) = hex_digit (b / 16) ∷ hex_digit (b % 16) ∷ hex_encode bs

join_digits : Option ℕ → Option ℕ → Option (List ℕ) → Option (List ℕ)
join_digits (some hi) (some lo) (some bs) = some ((hi * 16 + lo) ∷ bs)
join_digits _ _ _ = none

-- hex.DecodeString
unfoldable pub hex_decode : Str → Option (List ℕ)
unfolding hex_value join_digits
hex_decode [] = some []
hex_decode (c ∷ []) = none
hex_decode (c ∷ d ∷ s) = join_digits (hex_value c) (hex_value d) (hex_decode s)

abbrev pub AreBytes : List ℕ → Type 0
AreBytes [] = Unit
AreBytes (b ∷ bs) = (b < 256) × AreBytes bs

hex_value-hex_digit : (n : ℕ) → n < 16 → hex_value (hex_digit n) ≡ some n
unfolding hex_value hex_digit
hex_value-hex_digit n h = ground arith

pub hex_decode-hex_encode : (bs : List ℕ) → AreBytes bs → hex_decode (hex_encode bs) ≡ some bs
unfolding hex_decode hex_encode
hex_decode-hex_encode [] h = refl
hex_decode-hex_encode (b ∷ bs) (h, hs) =
    ground (
      arith,
      hex_value-hex_digit (b / 16),
      hex_value-hex_digit (b % 16),
      hex_decode-hex_encode bs hs,
    )

-- ===== src/Text/Numbers.antt =====
-- Numbers in decimal, as package strconv reads them.
use beaverdeck.Base.{
  ℕ, ◌+◌, ◌-◌, ◌*◌, ◌^◌, Bool, true, false, ◌&&◌, ◌||◌, Option, none, some, [], ◌∷◌, ltb, leb,
  nat_eq, if◌then◌else◌, is_empty,
}
use beaverdeck.Text.{Str}

-- strconv.Atoi, as a sign and a magnitude.
unfoldable pub digits : ℕ → Str → Option ℕ
digits n [] = some n
digits n (c ∷ s) = if leb b'0' c && leb c b'9' then digits (n * 10 + (c - 48)) s else none

unfoldable pub atoi_signed : Bool → Str → Option (Bool × ℕ)
unfolding digits
atoi_signed negative s = elim (digits 0 s) [
  | none ↦ none
  | some n ↦
      if is_empty s || ltb (if negative then 2 ^ 63 else 2 ^ 63 - 1) n
      then none
      else some (negative, n)
]

unfoldable pub atoi : Str → Option (Bool × ℕ)
unfolding atoi_signed
atoi [] = none
atoi (c ∷ s) =
    if nat_eq c b'-'
    then atoi_signed true s
    else if nat_eq c b'+'
    then atoi_signed false s
    else atoi_signed false (c ∷ s)

-- The number that Atoi and ParseInt return, also next to an error: 0 for a bad syntax, and the nearest
-- int64 for a number out of range.
unfoldable pub clamped : Bool → Str → Bool × ℕ
clamped negative s = elim (digits 0 s) [
  | none ↦ (false, 0)
  | some n ↦
      let bound = (if negative then 2 ^ 63 else 2 ^ 63 - 1) in
      if is_empty s then (false, 0) else (negative, if ltb bound n then bound else n)
]

unfoldable pub atoi_value : Str → Bool × ℕ
atoi_value [] = (false, 0)
atoi_value (c ∷ s) =
    if nat_eq c b'-'
    then clamped true s
    else if nat_eq c b'+'
    then clamped false s
    else clamped false (c ∷ s)

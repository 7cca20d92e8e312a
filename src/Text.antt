-- ===== src/Text.antt =====
-- Go strings, as lists of Unicode code points, and the operations of Go's package strings.
-- A string is valid UTF-8; `utf8` gives its bytes. `to_lower` is exact below U+0100 and leaves the
-- other code points alone. Go orders strings by bytes, which for UTF-8 is the order of code points.
pub mod Laws
pub mod Split
pub mod Numbers
use Prim.Native.Char.{code}
use Prim.Native.String
use beaverdeck.Base.{
  ℕ, zero, suc, ◌+◌, ◌-◌, ◌*◌, ◌/◌, ◌%◌, String, Bool, true, false, ◌&&◌, ◌||◌, not, List, [], ◌∷◌,
  ◌++◌, map, ite, ltb, leb, nat_eq, if◌then◌else◌, length, take, any, is_empty, ℕ_discrete,
}

abbrev pub Str : Type 0
Str = List ℕ

-- The code points of a literal.
abbrev pub codes : String → Str
codes String.[] = []
codes (String.◌∷◌ c s) = code c ∷ codes s

unfoldable pub Str_discrete : Discrete Str
unfolding ℕ_discrete
Str_discrete = hlevel ℕ_discrete

infix 50 ◌==◌
abbrev pub ◌==◌ : Str → Str → Bool
s == t = ite (Str_discrete s t) true false

-- `s < t`
unfoldable pub less : Str → Str → Bool
less [] [] = false
less [] (d ∷ t) = true
less (c ∷ s) [] = false
less (c ∷ s) (d ∷ t) = ltb c d || (nat_eq c d && less s t)

-- unicode.IsSpace
unfoldable pub is_space : ℕ → Bool
is_space c =
    (leb 9 c && leb c 13)
    || nat_eq c 32
    || nat_eq c 0x85
    || nat_eq c 0xa0
    || nat_eq c 0x1680
    || (leb 0x2000 c && leb c 0x200a)
    || nat_eq c 0x2028
    || nat_eq c 0x2029
    || nat_eq c 0x202f
    || nat_eq c 0x205f
    || nat_eq c 0x3000

-- unicode.IsControl
unfoldable pub is_control : ℕ → Bool
is_control c = leb c 0x1f || (leb 0x7f c && leb c 0x9f)

unfoldable pub lower : ℕ → ℕ
lower c =
    if (leb b'A' c && leb c b'Z') || (leb 0xc0 c && leb c 0xde && not (nat_eq c 0xd7))
    then c + 32
    else c

-- strings.ToLower
unfoldable pub to_lower : Str → Str
unfolding lower
to_lower [] = []
to_lower (c ∷ s) = lower c ∷ to_lower s

unfoldable pub trim_left : Str → Str
trim_left [] = []
trim_left (c ∷ s) = if is_space c then trim_left s else c ∷ s

unfoldable pub trim_right : Str → Str
trim_right [] = []
trim_right (c ∷ s) = let rest = trim_right s in if is_space c && is_empty rest then [] else c ∷ rest

-- strings.TrimSpace
unfoldable pub trim_space : Str → Str
unfolding trim_left trim_right is_space
trim_space s = trim_left (trim_right s)

-- strings.TrimSpace(strings.ToLower(s))
unfoldable pub fold : Str → Str
unfolding trim_space to_lower
fold s = trim_space (to_lower s)

-- strings.HasPrefix
abbrev pub has_prefix : Str → Str → Bool
has_prefix s prefix = take (length prefix) s == prefix

-- strings.Contains
unfoldable pub contains : Str → Str → Bool
contains [] part = is_empty part
contains (c ∷ s) part = has_prefix (c ∷ s) part || contains s part

-- strings.EqualFold(s, t)
abbrev pub equal_fold : Str → Str → Bool
equal_fold s t = to_lower s == to_lower t

-- Whether a switch over `s` takes the case with these strings.
unfoldable pub one_of : Str → List String → Bool
one_of s [] = false
one_of s (name ∷ names) = s == codes name || one_of s names

-- Whether a string is in a list, or a key of a map that is used as a set.
abbrev pub mem : Str → List Str → Bool
mem s ss = any (λ t. s == t) ss

unfoldable pub split_from : ℕ → Str → Str → List Str
split_from sep piece [] = piece ∷ []
split_from sep piece (c ∷ s) =
    let closed = piece ∷ split_from sep [] s in
    let longer = split_from sep (piece ++ c ∷ []) s in if nat_eq c sep then closed else longer

-- strings.Split(s, sep) for a separator of one character
unfoldable pub split : ℕ → Str → List Str
unfolding split_from
split sep s = split_from sep [] s

utf8_char : ℕ → List ℕ
utf8_char c =
    if ltb c 0x80
    then c ∷ []
    else if ltb c 0x800
    then (0xc0 + c / 64) ∷ (0x80 + c % 64) ∷ []
    else if ltb c 0x10000
    then (0xe0 + c / 4096) ∷ (0x80 + c / 64 % 64) ∷ (0x80 + c % 64) ∷ []
    else (0xf0 + c / 262144) ∷ (0x80 + c / 4096 % 64) ∷ (0x80 + c / 64 % 64) ∷ (0x80 + c % 64) ∷ []

-- []byte(s)
unfoldable pub utf8 : Str → List ℕ
unfolding utf8_char
utf8 [] = []
utf8 (c ∷ s) = utf8_char c ++ utf8 s

-- len(s)
abbrev pub byte_len : Str → ℕ
byte_len s = length (utf8 s)

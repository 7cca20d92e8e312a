-- ===== src/Text/Split.antt =====
-- strings.Split undoes joining pieces that do not hold the separator.
use beaverdeck.Base.{ℕ, ◌≡◌, refl, Bool, true, false, ◌||◌, [], ◌∷◌, ◌++◌, nat_eq, any, arith}
use beaverdeck.Text.{Str, split, split_from}
use mathlib.Core.List.{append-nil, append_assoc}

-- The character stands in the string.
abbrev pub has_char : ℕ → Str → Bool
has_char sep = any (λ c. nat_eq c sep)

or_false : (a b : Bool) → (a || b) ≡ false → (a ≡ false) × (b ≡ false)
or_false a b h = ground arith

pub nat_eq_self : (n : ℕ) → nat_eq n n ≡ true
nat_eq_self n = ground arith

split_from-end :
    (sep : ℕ) (piece s : Str) → has_char sep s ≡ false → split_from sep piece s ≡ (piece ++ s) ∷ []
unfolding split_from any
split_from-end sep piece [] h = rw append-nil refl
split_from-end sep piece (c ∷ s) h =
    let (h1, h2) = or_false (nat_eq c sep) (has_char sep s) h in
    rw (h1, split_from-end sep (piece ++ c ∷ []) s h2, append_assoc) refl

split_from-join :
    (sep : ℕ) (piece s t : Str)
    → has_char sep s ≡ false
    → split_from sep piece (s ++ (sep ∷ t)) ≡ (piece ++ s) ∷ split_from sep [] t
unfolding split_from any
split_from-join sep piece [] t h = rw (nat_eq_self sep, append-nil) refl
split_from-join sep piece (c ∷ s) t h =
    let (h1, h2) = or_false (nat_eq c sep) (has_char sep s) h in
    rw (h1, split_from-join sep (piece ++ c ∷ []) s t h2, append_assoc) refl

-- Two separators in a string that has no other give three pieces.
pub split-three :
    (sep : ℕ) (a b c : Str)
    → has_char sep a ≡ false
    → has_char sep b ≡ false
    → has_char sep c ≡ false
    → split sep (a ++ (sep ∷ (b ++ (sep ∷ c)))) ≡ a ∷ b ∷ c ∷ []
unfolding split
split-three sep a b c ha hb hc =
    rw
      (
        split_from-join sep [] a (b ++ (sep ∷ c)) ha,
        split_from-join sep [] b c hb,
        split_from-end sep [] c hc,
      )
      refl

-- Three separators give four pieces.
pub split-four :
    (sep : ℕ) (a b c d : Str)
    → has_char sep a ≡ false
    → has_char sep b ≡ false
    → has_char sep c ≡ false
    → has_char sep d ≡ false
    → split sep (a ++ (sep ∷ (b ++ (sep ∷ (c ++ (sep ∷ d)))))) ≡ a ∷ b ∷ c ∷ d ∷ []
unfolding split
split-four sep a b c d ha hb hc hd =
    rw
      (
        split_from-join sep [] a (b ++ (sep ∷ (c ++ (sep ∷ d)))) ha,
        split_from-join sep [] b (c ++ (sep ∷ d)) hb,
        split_from-join sep [] c d hc,
        split_from-end sep [] d hd,
      )
      refl

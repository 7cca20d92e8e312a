-- ===== src/Text/Laws.antt =====
-- How trimming and lowering interact: `fold` among them.
use beaverdeck.Base.{ℕ, ◌≡◌, refl, ap, true, [], ◌∷◌, arith, is_empty}
use beaverdeck.Text.{Str, is_space, lower, to_lower, trim_left, trim_right, trim_space, fold, ◌==◌}

is_space-lower : (c : ℕ) → is_space (lower c) ≡ is_space c
unfolding is_space lower
is_space-lower c = ground arith

lower_idem : (c : ℕ) → lower (lower c) ≡ lower c
unfolding lower
lower_idem c = ground arith

pub to_lower_idem : (s : Str) → to_lower (to_lower s) ≡ to_lower s
unfolding to_lower
to_lower_idem [] = refl
to_lower_idem (c ∷ s) = cc (lower_idem c, to_lower_idem s)

is_empty-to_lower : (s : Str) → is_empty (to_lower s) ≡ is_empty s
unfolding to_lower
is_empty-to_lower [] = refl
is_empty-to_lower (c ∷ s) = refl

trim_left-to_lower : (s : Str) → trim_left (to_lower s) ≡ to_lower (trim_left s)
unfolding trim_left to_lower
trim_left-to_lower [] = refl
trim_left-to_lower (c ∷ s) = ground (arith, is_space-lower c, trim_left-to_lower s)

trim_right-to_lower : (s : Str) → trim_right (to_lower s) ≡ to_lower (trim_right s)
unfolding trim_right to_lower
trim_right-to_lower [] = refl
trim_right-to_lower (c ∷ s) =
    ground (arith, is_space-lower c, trim_right-to_lower s, is_empty-to_lower (trim_right s))

pub trim_space-to_lower : (s : Str) → trim_space (to_lower s) ≡ to_lower (trim_space s)
unfolding trim_space
trim_space-to_lower s = rw trim_right-to_lower (trim_left-to_lower (trim_right s))

trim_left_idem : (s : Str) → trim_left (trim_left s) ≡ trim_left s
unfolding trim_left
trim_left_idem [] = refl
trim_left_idem (c ∷ s) = ground (arith, trim_left_idem s)

trim_right_idem : (s : Str) → trim_right (trim_right s) ≡ trim_right s
unfolding trim_right
trim_right_idem [] = refl
trim_right_idem (c ∷ s) = ground (arith, trim_right_idem s)

-- Trimming on the left keeps a string without trailing spaces so.
trim_right-tail : (c : ℕ) (s : Str) → trim_right (c ∷ s) ≡ c ∷ s → trim_right s ≡ s
unfolding trim_right
trim_right-tail c s h = ground arith

trim_right-trim_left : (s : Str) → trim_right s ≡ s → trim_right (trim_left s) ≡ trim_left s
unfolding trim_left
trim_right-trim_left [] h = h
trim_right-trim_left (c ∷ s) h = ground (arith, trim_right-trim_left s (trim_right-tail c s h))

pub trim_space_idem : (s : Str) → trim_space (trim_space s) ≡ trim_space s
unfolding trim_space
trim_space_idem s =
    rw (trim_right-trim_left (trim_right s) (trim_right_idem s)) (trim_left_idem (trim_right s))

pub to_lower-fold : (s : Str) → to_lower (fold s) ≡ fold s
to_lower-fold s = unfold fold in rw (← trim_space-to_lower) (ap trim_space (to_lower_idem s))

pub trim_space-fold : (s : Str) → trim_space (fold s) ≡ fold s
trim_space-fold s = unfold fold in trim_space_idem (to_lower s)

pub fold_idem : (s : Str) → fold (fold s) ≡ fold s
fold_idem s = unfold fold in rw (to_lower-fold' s) (trim_space_idem (to_lower s))
  where
    to_lower-fold' : (s : Str) → to_lower (trim_space (to_lower s)) ≡ trim_space (to_lower s)
    to_lower-fold' s = rw (← trim_space-to_lower) (ap trim_space (to_lower_idem s))

pub eq_self : (s : Str) → (s == s) ≡ true
eq_self s = ground arith

pub eq_sound : (s t : Str) → (s == t) ≡ true → s ≡ t
eq_sound s t h = ground arith

-- ===== src/Kube/Ring/Laws.antt =====
-- What the ring of samples holds.
use mathlib.Core.List.{append-nil, append_assoc}
use beaverdeck.Base.{
  ℕ, zero, suc, ◌-◌, ◌≤◌, ◌<◌, ◌≡◌, refl, sym, subst, ◌∙◌, true, false, List, [], ◌∷◌, ◌++◌, length,
  length-append, drop, nat_eq, Bool-cases, inl, inr, arith,
}
use beaverdeck.Kube.Ring.{RestartMetricSample, RestartMetricRing, ring_capacity, new_ring, add}

-- The ring after samples that come one after the other.
unfoldable pub add_all : List RestartMetricSample → RestartMetricRing → RestartMetricRing
add_all [] r = r
add_all (sample ∷ rest) r = add_all rest (add sample r)

module _ {ℓ} {A : Type ℓ} where
  drop-append : (n : ℕ) (xs ys : List A) → n ≤ length xs → drop n (xs ++ ys) ≡ drop n xs ++ ys
  drop-append zero xs ys h = refl
  drop-append (suc n) [] ys h = absurd (omega arith)
  drop-append (suc n) (x ∷ xs) ys h = drop-append n xs ys (omega arith)

  drop-one : (m : ℕ) (xs : List A) → drop 1 (drop m xs) ≡ drop (suc m) xs
  drop-one zero xs = refl
  drop-one (suc m) [] = refl
  drop-one (suc m) (x ∷ xs) = drop-one m xs

  length-drop : (n : ℕ) (xs : List A) → length (drop n xs) ≡ length xs - n
  length-drop zero xs = omega arith
  length-drop (suc n) [] = omega arith
  length-drop (suc n) (x ∷ xs) = omega (arith, length-drop n xs)

-- The ring holds the last samples of a history.
abbrev Holds : List RestartMetricSample → RestartMetricRing → Type 0
Holds past r = (0 < r.capacity) × (r.items ≡ drop (length past - r.capacity) past)

add-Holds :
    (past : List RestartMetricSample) (sample : RestartMetricSample) (r : RestartMetricRing)
    → Holds past r
    → Holds (past ++ sample ∷ []) (add sample r)
unfolding add
add-Holds past sample r (pos, same) = elim (Bool-cases (nat_eq (length r.items) r.capacity)) [
  | inl full ↦ rw full (
    pos,
    rw (same, drop-one)
        (from (suc (length past - r.capacity)) (omega (arith, more, full_past full, pos))
          (omega (arith, full_past full, pos))),
  )
  | inr room ↦
      rw room (
        pos,
        rw (same, none_gone room) (from 0 (omega (arith, more, short_past room)) (omega arith)),
      )
]
  where
    held : length r.items ≡ length past - (length past - r.capacity)
    held = rw same (length-drop (length past - r.capacity) past)

    more : length (past ++ sample ∷ []) ≡ suc (length past)
    more = omega (arith, length-append past (sample ∷ []))

    full_past : nat_eq (length r.items) r.capacity ≡ true → r.capacity ≤ length past
    full_past h = ground (arith, held)

    short_past : nat_eq (length r.items) r.capacity ≡ false → length past < r.capacity
    short_past h = ground (arith, held)

    none_gone : nat_eq (length r.items) r.capacity ≡ false → length past - r.capacity ≡ 0
    none_gone h = omega (arith, short_past h)

    from :
        (n : ℕ)
        → n ≡ length (past ++ sample ∷ []) - r.capacity
        → n ≤ length past
        → drop n past ++ sample ∷ []
          ≡ drop (length (past ++ sample ∷ []) - r.capacity) (past ++ sample ∷ [])
    from n same h = rw (← same) (sym (drop-append n past (sample ∷ []) h))

add_all-Holds :
    (past samples : List RestartMetricSample) (r : RestartMetricRing)
    → Holds past r
    → Holds (past ++ samples) (add_all samples r)
unfolding add_all
add_all-Holds past [] r h = rw append-nil h
add_all-Holds past (sample ∷ rest) r h =
    subst (λ l. Holds l (add_all (sample ∷ rest) r)) (append_assoc past (sample ∷ []) rest)
      (add_all-Holds (past ++ sample ∷ []) rest (add sample r) (add-Holds past sample r h))

add_all-capacity :
    (samples : List RestartMetricSample) (r : RestartMetricRing)
    → (add_all samples r).capacity ≡ r.capacity
unfolding add_all
add_all-capacity [] r = refl
add_all-capacity (sample ∷ rest) r = add_all-capacity rest (add sample r) ∙ add-capacity
  where
    add-capacity : (add sample r).capacity ≡ r.capacity
    add-capacity = unfold add in ground arith

ring_capacity_pos : (history interval : ℕ) → 4 ≤ ring_capacity history interval
unfolding ring_capacity
ring_capacity_pos history interval = ground arith

-- After any samples, a new ring holds the last ones of them in their order, as many as its capacity of
-- at least four has room for.
pub add_all-new_ring :
    (history interval : ℕ) (samples : List RestartMetricSample)
    → (4 ≤ ring_capacity history interval)
      × ((add_all samples (new_ring history interval)).items
          ≡ drop (length samples - ring_capacity history interval) samples)
unfolding new_ring
add_all-new_ring history interval samples = (
  enough,
  subst
      (λ n. (add_all samples (new_ring history interval)).items ≡ drop (length samples - n) samples)
      (add_all-capacity samples (new_ring history interval)) held.1,
)
  where
    nothing : 0 - ring_capacity history interval ≡ 0
    nothing = omega arith

    enough : 4 ≤ ring_capacity history interval
    enough = ring_capacity_pos history interval

    held : Holds samples (add_all samples (new_ring history interval))
    held =
        add_all-Holds [] samples (new_ring history interval)
          (omega (arith, enough), rw nothing refl)

-- ===== src/Kube/Ring/Nearest.antt =====
-- What the searches among the samples find.
use beaverdeck.Base.{
  ℕ, ◌+◌, ◌-◌, ◌^◌, ◌≤◌, ◌<◌, ◌≡◌, ◌⊎◌, refl, ap, sym, subst, ◌∙◌, Bool, true, Option, none, some,
  List, [], ◌∷◌, leb, ltb, Bool-cases, inl, inr, arith,
}
use beaverdeck.Text.{Str}
use beaverdeck.Kube.Ring.{
  RestartMetricSample, RestartMetricRing, distance, Best, nothing_yet, consider, nearest, within,
  offer_usage, closest_usage,
}

module _ {A : Type 0} (offer : RestartMetricSample → Option (A × ℕ)) (target not_after : ℕ) where
  -- What is offered at a time that counts, with its distance from the target.
  abbrev pub Offers : Option (A × ℕ) → A → ℕ → Type 0
  Offers o a d = (t : ℕ) × (o ≡ some (a, t)) × (t ≤ not_after) × (distance t target ≡ d)

  abbrev pub IsOffered : List RestartMetricSample → A → ℕ → Type 0
  IsOffered [] a d = ⊥
  IsOffered (sample ∷ rest) a d = Offers (offer sample) a d ⊎ IsOffered rest a d

  -- What is offered at a time that counts is at least `d` from the target.
  abbrev pub IsFar : Option (A × ℕ) → ℕ → Type 0
  IsFar none d = Unit
  IsFar (some (a, t)) d = (not_after < t) ⊎ (d ≤ distance t target)

  abbrev pub NoneCloser : List RestartMetricSample → ℕ → Type 0
  NoneCloser [] d = Unit
  NoneCloser (sample ∷ rest) d = IsFar (offer sample) d × NoneCloser rest d

  IsFar-le : (o : Option (A × ℕ)) (d e : ℕ) → e ≤ d → IsFar o d → IsFar o e
  IsFar-le none d e le far = tt
  IsFar-le (some (a, t)) d e le (inl late) = inl late
  IsFar-le (some (a, t)) d e le (inr far) = inr (omega (arith, le, far))

  NoneCloser-le :
      (samples : List RestartMetricSample) (d e : ℕ)
      → e ≤ d
      → NoneCloser samples d
      → NoneCloser samples e
  NoneCloser-le [] d e le nothing = tt
  NoneCloser-le (sample ∷ rest) d e le (here, there) =
      (IsFar-le (offer sample) d e le here, NoneCloser-le rest d e le there)

  -- What one round leaves: the best item or what is offered, and no larger distance than before.
  Considered : Option (A × ℕ) → Best A → Best A → Type 0
  Considered o best after =
      ((after ≡ best) ⊎ ((a : A) × (after.found ≡ some a) × Offers o a after.best_distance))
      × (after.best_distance ≤ best.best_distance)
      × IsFar o after.best_distance

  consider-Considered :
      (o : Option (A × ℕ)) (best : Best A) → Considered o best (consider target not_after o best)
  unfolding consider Considered
  consider-Considered none best = (inl refl, omega arith, tt)
  consider-Considered (some (a, t)) best = elim (Bool-cases (ltb not_after t)) [
    | inl late ↦ rw late (inl refl, omega arith, inl (ground (arith, late)))
    | inr early ↦ rw early (elim (Bool-cases (ltb (distance t target) best.best_distance)) [
      | inl closer ↦ rw closer (
        inr (a, refl, (t, refl, ground (arith, early), refl)),
        ground (arith, closer),
        inr (omega arith),
      )
      | inr farther ↦ rw farther (inl refl, omega arith, inr (ground (arith, farther)))
    ])
  ]

  -- What a search leaves: as after one round, for all samples.
  Searched : List RestartMetricSample → Best A → Best A → Type 0
  Searched samples best after =
      ((after ≡ best)
        ⊎ ((a : A) × (after.found ≡ some a) × IsOffered samples a after.best_distance))
      × (after.best_distance ≤ best.best_distance)
      × NoneCloser samples after.best_distance

  search_on :
      (sample : RestartMetricSample) (rest : List RestartMetricSample) (best mid after : Best A)
      → Considered (offer sample) best mid
      → Searched rest mid after
      → Searched (sample ∷ rest) best after
  unfolding Considered Searched
  search_on sample rest best mid after (taken, near, here) (kept, nearer, there) = (
    which kept taken,
    omega (arith, near, nearer),
    (IsFar-le (offer sample) mid.best_distance after.best_distance nearer here, there),
  )
    where
      which :
          ((after ≡ mid)
            ⊎ ((a : A) × (after.found ≡ some a) × IsOffered rest a after.best_distance))
          → ((mid ≡ best)
              ⊎ ((a : A) × (mid.found ≡ some a) × Offers (offer sample) a mid.best_distance))
          → (after ≡ best)
            ⊎ ((a : A) × (after.found ≡ some a) × IsOffered (sample ∷ rest) a after.best_distance)
      which (inr (a, f, offered)) _ = inr (a, f, inr offered)
      which (inl same) (inl unchanged) = inl (same ∙ unchanged)
      which (inl same) (inr (a, f, offered)) = inr (
        a,
        ap (λ b. b.found) same ∙ f,
        inl (subst (λ b. Offers (offer sample) a b.best_distance) (sym same) offered),
      )

  nearest-Searched :
      (samples : List RestartMetricSample) (best : Best A)
      → Searched samples best (nearest offer target not_after samples best)
  unfolding nearest Searched
  nearest-Searched [] best = (inl refl, omega arith, tt)
  nearest-Searched (sample ∷ rest) best =
      search_on sample rest best (consider target not_after (offer sample) best) _
        (consider-Considered (offer sample) best)
        (nearest-Searched rest (consider target not_after (offer sample) best))

  -- What a search with a tolerance gives: what is offered nearest to the target, or nothing when
  -- nothing is offered within the tolerance.
  abbrev pub IsNearest : List RestartMetricSample → ℕ → Option A → Type 0
  IsNearest samples tolerance none = NoneCloser samples (tolerance + 1)
  IsNearest samples tolerance (some a) =
      (d : ℕ) × IsOffered samples a d × (d ≤ tolerance) × NoneCloser samples d

  within-IsNearest :
      (tolerance : ℕ) (samples : List RestartMetricSample) (after : Best A)
      → tolerance < 2 ^ 63 - 1
      → Searched samples nothing_yet after
      → IsNearest samples tolerance (within tolerance after)
  unfolding within Searched
  within-IsNearest tolerance samples after small (kept, near, closer) =
      elim (Bool-cases (leb after.best_distance tolerance)) [
        | inr far ↦
            rw far (
              NoneCloser-le samples after.best_distance (tolerance + 1) (ground (arith, far))
                closer)
        | inl close ↦ rw close (which kept close)
      ]
    where
      which :
          ((after ≡ nothing_yet)
            ⊎ ((a : A) × (after.found ≡ some a) × IsOffered samples a after.best_distance))
          → leb after.best_distance tolerance ≡ true
          → IsNearest samples tolerance after.found
      which (inl same) close = absurd (ground (arith, close, ap (λ b. b.best_distance) same))
      which (inr (a, f, offered)) close =
          subst (IsNearest samples tolerance) (sym f)
            (after.best_distance, offered, ground (arith, close), closer)

  pub nearest-IsNearest :
      (tolerance : ℕ) (samples : List RestartMetricSample)
      → tolerance < 2 ^ 63 - 1
      → IsNearest samples tolerance
          (within tolerance (nearest offer target not_after samples nothing_yet))
  nearest-IsNearest tolerance samples small =
      within-IsNearest tolerance samples (nearest offer target not_after samples nothing_yet) small
        (nearest-Searched samples nothing_yet)

-- For a tolerance below the largest duration, closestUsage gives the usage that was sampled nearest to
-- the target among those not sampled too late, if it is within the tolerance; it gives none only if no such usage is.
pub closest_usage-IsNearest :
    (target not_after tolerance : ℕ) (key : Str) (container : Bool) (r : RestartMetricRing)
    → tolerance < 2 ^ 63 - 1
    → IsNearest
        (offer_usage key container)
        target
        not_after
        r.items
        tolerance
        (closest_usage target not_after tolerance key container r)
unfolding closest_usage
closest_usage-IsNearest target not_after tolerance key container r small =
    nearest-IsNearest (offer_usage key container) target not_after tolerance r.items small

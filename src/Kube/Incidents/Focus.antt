-- ===== src/Kube/Incidents/Focus.antt =====
-- Which incident is chosen among the restarts of a pod.
use beaverdeck.Base.{
  ◌≡◌, refl, ◌⊎◌, true, false, not, List, [], ◌∷◌, length, all, take, leb, Bool-cases, inl, inr,
  arith,
}
use beaverdeck.GoMap.Sorted.{sort_by, insert_by}
use beaverdeck.Kube.Incidents.{RestartIncident, comes_first, focus}

-- An order by three tests is asymmetric, and what does not come before is not overtaken.
comes_first_asym : (i j : RestartIncident) → comes_first i j ≡ true → comes_first j i ≡ false
unfolding comes_first
comes_first_asym i j h = ground (arith, h)

comes_first_trans :
    (i j k : RestartIncident)
    → comes_first i j ≡ false
    → comes_first j k ≡ false
    → comes_first i k ≡ false
unfolding comes_first
comes_first_trans i j k h l = ground (arith, h, l)

-- No incident of a list comes before this one.
abbrev pub IsFirst : RestartIncident → List RestartIncident → Type 0
IsFirst i l = all (λ j. not (comes_first j i)) l ≡ true

abbrev pub In : RestartIncident → List RestartIncident → Type 0
In i [] = ⊥
In i (j ∷ l) = (j ≡ i) ⊎ In i l

IsFirst-later :
    (x i : RestartIncident) (l : List RestartIncident)
    → comes_first i x ≡ false
    → IsFirst i l
    → IsFirst x l
unfolding all
IsFirst-later x i [] h first = refl
IsFirst-later x i (j ∷ l) h first =
    let stays : comes_first j x ≡ false = comes_first_trans j i x (ground (arith, first)) h in
    ground (arith, stays, IsFirst-later x i l h (ground (arith, first)))

self_first : (i : RestartIncident) → comes_first i i ≡ false
self_first i = elim (Bool-cases (comes_first i i)) [
  | inl before ↦ comes_first_asym i i before
  | inr same ↦ same
]

-- The head of the sorted list, or that there is none.
abbrev Headed : List RestartIncident → List RestartIncident → Type 0
Headed l [] = l ≡ []
Headed l (i ∷ rest) = In i l × IsFirst i l

insert-Headed :
    (x : RestartIncident) (l sorted : List RestartIncident)
    → Headed l sorted
    → Headed (x ∷ l) (insert_by comes_first x sorted)
unfolding insert_by all
insert-Headed x l [] empty = (inl refl, rw (empty, self_first x) refl)
insert-Headed x l (i ∷ rest) (member, first) = elim (Bool-cases (comes_first i x)) [
  | inl before ↦ rw before (inr member, rw (comes_first_asym i x before) first)
  | inr after ↦ rw after (inl refl, rw (self_first x) (IsFirst-later x i l after first))
]

sort-Headed : (l : List RestartIncident) → Headed l (sort_by comes_first l)
unfolding sort_by
sort-Headed [] = refl
sort-Headed (x ∷ l) = insert-Headed x l (sort_by comes_first l) (sort-Headed l)

-- What is reported of a list of restarts: nothing if there is none, else the one that comes first.
abbrev pub Focused : List RestartIncident → List RestartIncident → Type 0
Focused l [] = l ≡ []
Focused l (i ∷ []) = In i l × IsFirst i l
Focused l (i ∷ j ∷ rest) = ⊥

pub focus-Focused : (l : List RestartIncident) → Focused l (focus l)
unfolding focus all
focus-Focused [] = refl
focus-Focused (i ∷ []) = (inl refl, rw (self_first i) refl)
focus-Focused (i ∷ j ∷ l) =
    rw more (one (sort_by comes_first (i ∷ j ∷ l)) (sort-Headed (i ∷ j ∷ l)))
  where
    more : leb (length (i ∷ j ∷ l)) 1 ≡ false
    more = ground arith

    one :
        (sorted : List RestartIncident)
        → Headed (i ∷ j ∷ l) sorted
        → Focused (i ∷ j ∷ l) (take 1 sorted)
    one [] none_there = none_there
    one (k ∷ rest) headed = headed

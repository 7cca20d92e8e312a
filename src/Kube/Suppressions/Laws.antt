-- ===== src/Kube/Suppressions/Laws.antt =====
-- What is suppressed after SetInsightSuppressed.
use beaverdeck.Base.{
  ◌≡◌, refl, sym, subst, ap, ◌∙◌, Bool, true, not, ◌&&◌, ◌||◌, Option, none, some, List, [], ◌∷◌,
  ◌++◌, any, is_empty, ltb, Bool-cases, Option-cases, inl, inr, arith, if◌then◌else◌,
}
use beaverdeck.Text.{Str, ◌==◌, mem, less, trim_space, byte_len}
use beaverdeck.Text.Laws.{trim_space_idem, eq_self, eq_sound}
use beaverdeck.GoMap.Sorted.{sort_by, insert_by}
use beaverdeck.Kube.Suppressions.{
  clean_suppressed_insight_key, collect_keys, normalize_suppressed_insight_keys, without, next_keys,
  is_bad_char,
}

-- Every key is one that the cleaning leaves alone.
abbrev pub AreClean : List Str → Type 0
AreClean keys = (k : Str) → mem k keys ≡ true → clean_suppressed_insight_key k ≡ some k

mem-append : (k : Str) (xs ys : List Str) → mem k (xs ++ ys) ≡ mem k xs || mem k ys
unfolding any
mem-append k [] ys = refl
mem-append k (x ∷ xs) ys = ground (arith, mem-append k xs ys)

mem-single : (k x : Str) → mem k (x ∷ []) ≡ (k == x)
unfolding any
mem-single k x = ground arith

mem-insert_by : (k x : Str) (xs : List Str) → mem k (insert_by less x xs) ≡ (k == x) || mem k xs
unfolding any insert_by
mem-insert_by k x [] = refl
mem-insert_by k x (y ∷ ys) = ground (arith, mem-insert_by k x ys)

mem-sort_by : (k : Str) (xs : List Str) → mem k (sort_by less xs) ≡ mem k xs
unfolding any sort_by
mem-sort_by k [] = refl
mem-sort_by k (x ∷ xs) = ground (arith, mem-insert_by k x (sort_by less xs), mem-sort_by k xs)

mem-without : (j k : Str) (xs : List Str) → mem j (without k xs) ≡ mem j xs && not (j == k)
unfolding any without
mem-without j k [] = refl
mem-without j k (x ∷ xs) = ground (arith, mem-without j k xs)

pub mem-next_keys :
    (j k : Str) (suppressed : Bool) (current : List Str)
    → mem j (next_keys k suppressed current) ≡ (if j == k then suppressed else mem j current)
unfolding next_keys any
mem-next_keys j k suppressed current = ground (
  arith,
  mem-without j k current,
  mem-without k k current,
  eq_self k,
  mem-append j (without k current) (k ∷ []),
)

clean-trimmed :
    (value key : Str) → clean_suppressed_insight_key value ≡ some key → trim_space value ≡ key
unfolding clean_suppressed_insight_key
clean-trimmed value key = elim (Bool-cases (is_empty (trim_space value))) [
  | inl empty ↦ rw empty λ h. absurd cc
  | inr full ↦ rw full (elim (Bool-cases (ltb 512 (byte_len (trim_space value)))) [
    | inl long ↦ rw long λ h. absurd cc
    | inr short ↦ rw short (elim (Bool-cases (any is_bad_char (trim_space value))) [
      | inl bad ↦ rw bad λ h. absurd cc
      | inr good ↦ rw good λ h. cc
    ])
  ])
]

clean-same :
    (a b : Str)
    → trim_space a ≡ trim_space b
    → clean_suppressed_insight_key a ≡ clean_suppressed_insight_key b
unfolding clean_suppressed_insight_key
clean-same a b h = rw h refl

pub clean_idem :
    (value key : Str)
    → clean_suppressed_insight_key value ≡ some key
    → clean_suppressed_insight_key key ≡ some key
clean_idem value key h =
    clean-same key value (ap trim_space (sym (clean-trimmed value key h)) ∙ trim_space_idem value)
    ∙ h

collect_keys-AreClean :
    (input out keys : List Str) → AreClean out → collect_keys out input ≡ some keys → AreClean keys
unfolding collect_keys
collect_keys-AreClean [] out keys clean = λ h k member.
    clean k (subst (λ l. mem k l ≡ true) (sym (let same : out ≡ keys = cc in same)) member)
collect_keys-AreClean (item ∷ rest) out keys clean =
    elim (Option-cases (clean_suppressed_insight_key item)) [
      | inl bad ↦ rw (collect_keys, bad) λ h. absurd cc
      | inr (key, good) ↦
          rw (collect_keys, good)
            (elim (Bool-cases (mem key out)) [
              | inl seen ↦ rw seen λ h. collect_keys-AreClean rest out keys clean h
              | inr new ↦
                  rw new λ h. collect_keys-AreClean rest (out ++ key ∷ []) keys (more key good) h
            ])
    ]
  where
    more : (key : Str) → clean_suppressed_insight_key item ≡ some key → AreClean (out ++ key ∷ [])
    more key good k member = elim (Bool-cases (mem k out)) [
      | inl seen ↦ clean k seen
      | inr new ↦
          let same : k ≡ key =
            eq_sound k key
              (ground (arith, member, new, mem-append k out (key ∷ []), mem-single k key)) in
          subst (λ x. clean_suppressed_insight_key x ≡ some x) (sym same) (clean_idem item key good)
    ]

-- Clean keys are collected without an error, and each stays.
collect_keys-all :
    (input out : List Str)
    → AreClean input
    → (keys : List Str) × (collect_keys out input ≡ some keys)
      × ((k : Str) → mem k keys ≡ mem k out || mem k input)
unfolding collect_keys any
collect_keys-all [] out clean = (out, refl, λ k. ground arith)
collect_keys-all (item ∷ rest) out clean =
    rw (collect_keys, cleaned)
      (elim (Bool-cases (mem item out)) [
        | inl seen ↦ rw seen (
            let (keys, collected, members) = collect_keys-all rest out others in
            (keys, collected, λ k. ground (arith, members k, seen)))
        | inr new ↦ rw new (
            let (keys, collected, members) = collect_keys-all rest (out ++ item ∷ []) others in
            (
              keys,
              collected,
              λ k. ground (arith, members k, mem-append k out (item ∷ []), mem-single k item),
            ))
      ])
  where
    cleaned : clean_suppressed_insight_key item ≡ some item
    cleaned = clean item (ground (arith, eq_self item))

    others : AreClean rest
    others k member = clean k (ground (arith, member))

-- Clean keys are normalised without an error to clean keys, the same ones.
pub normalize-all :
    (input : List Str)
    → AreClean input
    → (keys : List Str) × (normalize_suppressed_insight_keys input ≡ some keys)
      × ((k : Str) → mem k keys ≡ mem k input)
unfolding normalize_suppressed_insight_keys any
normalize-all input clean =
    let (keys, collected, members) = collect_keys-all input [] clean in
    (
      sort_by less keys,
      rw (normalize_suppressed_insight_keys, collected) refl,
      λ k. mem-sort_by k keys ∙ members k,
    )

pub normalize-AreClean :
    (input keys : List Str) → normalize_suppressed_insight_keys input ≡ some keys → AreClean keys
unfolding normalize_suppressed_insight_keys any
normalize-AreClean input keys = sorted (collect_keys [] input) refl
  where
    sorted :
        (o : Option (List Str))
        → collect_keys [] input ≡ o
        → elim o as (λ _. Option (List Str)) [ none ↦ none | some out ↦ some (sort_by less out) ]
          ≡ some keys
        → AreClean keys
    sorted none collected h k member = absurd cc
    sorted (some out) collected h k member =
        let same : sort_by less out ≡ keys = cc in
        collect_keys-AreClean input [] out (λ j none_there. absurd (ground arith)) collected k
          (sym (mem-sort_by k out) ∙ ap (mem k) same ∙ member)

-- ===== src/Kube/Suppressions/RoundTrip.antt =====
-- What ListSuppressedInsights gives after SetInsightSuppressed.
use beaverdeck.Base.{
  ◌≡◌, refl, sym, subst, ◌∙◌, Bool, true, false, not, ◌||◌, Option, none, some, List, [], any,
  is_empty, Bool-cases, inl, inr, arith, if◌then◌else◌,
}
use beaverdeck.Text.{Str, ◌==◌, mem, trim_space}
use beaverdeck.Text.Laws.{eq_self, eq_sound}
use beaverdeck.GoMap.{lookup, put}
use beaverdeck.GoMap.Laws.{lookup-put}
use beaverdeck.Kube.Suppressions.{
  SuppressedInsightsRef, ConfigMap, Stored, ListCodec, is_valid_ref, clean_suppressed_insight_key,
  or_new, insight_labels, normalize_suppressed_insight_keys, next_keys, get_data, upsert_data,
  decode_keys, list_suppressed_insights, store_keys, set_insight_suppressed,
}
use beaverdeck.Kube.Suppressions.Laws.{
  AreClean, mem-next_keys, clean_idem, normalize-all, normalize-AreClean,
}

-- JSON reads back a list that it wrote, and never writes a blank text.
abbrev pub ReadsBack : ListCodec → Type 0
ReadsBack codec =
    (keys : List Str)
    → (codec.unmarshal (codec.marshal keys) ≡ some keys)
      × (is_empty (trim_space (codec.marshal keys)) ≡ false)

empty-AreClean : (keys : List Str) → keys ≡ [] → AreClean keys
unfolding any
empty-AreClean keys empty j member =
    absurd (let absent : mem j keys ≡ false = rw empty refl in ground (arith, absent, member))

module _ (codec : ListCodec) (ref : SuppressedInsightsRef) where
  decode_keys-AreClean :
      (found : Option Str) (keys : List Str)
      → decode_keys codec ref found ≡ some keys
      → AreClean keys
  unfolding decode_keys any
  decode_keys-AreClean none keys = λ h. empty-AreClean keys cc
  decode_keys-AreClean (some text) keys = elim (Bool-cases (is_empty (trim_space text))) [
    | inl blank ↦ rw blank λ h. empty-AreClean keys cc
    | inr written ↦ rw written (parsed (codec.unmarshal text))
  ]
    where
      parsed :
          (o : Option (List Str))
          → elim o as (λ _. Option (List Str)) [
            | none ↦ none
            | some found ↦ normalize_suppressed_insight_keys found
          ]
            ≡ some keys
          → AreClean keys
      parsed none h = absurd cc
      parsed (some found) h = normalize-AreClean found keys h

  list-AreClean :
      (s : Stored) (keys : List Str)
      → list_suppressed_insights codec ref s ≡ some keys
      → AreClean keys × (is_valid_ref ref ≡ true) × (s.reads ≡ true)
  unfolding list_suppressed_insights get_data
  list-AreClean s keys = elim (Bool-cases (not (is_valid_ref ref) || not s.reads)) [
    | inl refused ↦ rw (list_suppressed_insights, get_data, refused) λ h. absurd cc
    | inr read ↦ rw (list_suppressed_insights, get_data, read) (found s.config_map read)
  ]
    where
      found :
          (cm : Option ConfigMap)
          → (not (is_valid_ref ref) || not s.reads) ≡ false
          → elim (elim cm as (λ _. Option (Option Str)) [
            | none ↦ some none
            | some m ↦ some (lookup ref.key m.entries)
          ])
              as (λ _. Option (List Str)) [ none ↦ none | some o ↦ decode_keys codec ref o ]
            ≡ some keys
          → AreClean keys × (is_valid_ref ref ≡ true) × (s.reads ≡ true)
      found none read h =
          (decode_keys-AreClean none keys h, ground (arith, read), ground (arith, read))
      found (some m) read h = (
        decode_keys-AreClean (lookup ref.key m.entries) keys h,
        ground (arith, read),
        ground (arith, read),
      )

  -- What is stored is listed.
  store-listed :
      (s : Stored) (stored : List Str)
      → ReadsBack codec
      → is_valid_ref ref ≡ true
      → s.reads ≡ true
      → s.writes ≡ true
      → (after : Stored) × (store_keys codec ref s (some stored) ≡ some after)
        × (list_suppressed_insights codec ref after ≡ normalize_suppressed_insight_keys stored)
  unfolding store_keys upsert_data list_suppressed_insights get_data decode_keys
  store-listed s stored codes_back valid reads writes = (
    written,
    rw (upsert_data, valid, reads, writes) refl,
    rw
        (
          list_suppressed_insights,
          get_data,
          valid,
          reads,
          lookup-put ref.key ref.key text (or_new s.config_map).entries,
          eq_self ref.key,
          decode_keys,
          (codes_back stored).1,
          (codes_back stored).0,
        )
        refl,
  )
    where
      text : Str
      text = codec.marshal stored

      written : Stored
      written = record s {
        config_map = some (record {
          labels = insight_labels (or_new s.config_map).labels;
          entries = put ref.key text (or_new s.config_map).entries;
        });
      }

  -- When a key is clean, the list can be read and the cluster takes the write, then SetInsightSuppressed
  -- succeeds; the list can be read afterwards, and in it the key is as it was set, and every other key
  -- as it was before.
  pub set_insight_suppressed-listed :
      (value key : Str) (suppressed : Bool) (s : Stored) (current : List Str)
      → ReadsBack codec
      → clean_suppressed_insight_key value ≡ some key
      → list_suppressed_insights codec ref s ≡ some current
      → s.writes ≡ true
      → (after : Stored) × (set_insight_suppressed codec ref value suppressed s ≡ some after)
        × ((keys : List Str) × (list_suppressed_insights codec ref after ≡ some keys)
            × ((j : Str) → mem j keys ≡ (if j == key then suppressed else mem j current)))
  unfolding set_insight_suppressed
  set_insight_suppressed-listed value key suppressed s current codes_back clean listed writes =
      let (old_clean, valid, reads) = list-AreClean s current listed in
      let (stored, normal, members) =
        normalize-all (next_keys key suppressed current) (next_clean old_clean) in
      let (after, done, again) = store-listed s stored codes_back valid reads writes in
      let (keys, normal_again, same) =
        normalize-all stored
          (normalize-AreClean (next_keys key suppressed current) stored normal) in
      (
        after,
        rw (set_insight_suppressed, clean, listed, normal) done,
        (
          keys,
          again ∙ normal_again,
          λ j. same j ∙ members j ∙ mem-next_keys j key suppressed current,
        ),
      )
    where
      next_clean : AreClean current → AreClean (next_keys key suppressed current)
      next_clean old j member = elim (Bool-cases (j == key)) [
        | inl same ↦
            subst (λ x. clean_suppressed_insight_key x ≡ some x) (sym (eq_sound j key same))
              (clean_idem value key clean)
        | inr other ↦ old j (ground (arith, member, other, mem-next_keys j key suppressed current))
      ]

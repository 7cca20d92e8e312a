-- ===== src/Kube/Suppressions.antt =====
-- internal/kube/insight_suppressions.go: the insights that are suppressed, kept as a JSON list in a
-- ConfigMap.
pub mod Laws
pub mod RoundTrip
use beaverdeck.Base.{
  ℕ, Bool, true, false, not, ◌&&◌, ◌||◌, Option, none, some, List, [], ◌∷◌, ◌++◌, any, is_empty,
  ltb, nat_eq, if◌then◌else◌,
}
use beaverdeck.Text.{Str, codes, ◌==◌, mem, less, trim_space, is_control, byte_len}
use beaverdeck.GoMap.{GoMap, lookup, put}
use beaverdeck.GoMap.Sorted.{sort_by}

pub record SuppressedInsightsRef : Type 0 where
  pub namespace : Str
  pub name : Str
  pub key : Str

-- The parts of a corev1.ConfigMap that the code reads and writes; a nil map is empty;
-- `entries` is its field Data.
pub record ConfigMap : Type 0 where
  pub labels : GoMap Str
  pub entries : GoMap Str

-- The ConfigMap that a reference names, `none` if there is none, and whether the cluster answers.
pub record Stored : Type 0 where
  pub config_map : Option ConfigMap
  pub reads : Bool
  pub writes : Bool

unfoldable pub is_valid_ref : SuppressedInsightsRef → Bool
is_valid_ref ref =
    not (is_empty (trim_space ref.namespace))
    && not (is_empty (trim_space ref.name))
    && not (is_empty (trim_space ref.key))

unfoldable pub is_bad_char : ℕ → Bool
is_bad_char c = nat_eq c 0 || nat_eq c 13 || nat_eq c 10 || (is_control c && not (nat_eq c 9))

-- `none` for a key that is refused
unfoldable pub clean_suppressed_insight_key : Str → Option Str
clean_suppressed_insight_key value =
    let key = trim_space value in
    if is_empty key
    then none
    else if ltb 512 (byte_len key)
    then none
    else if any is_bad_char key
    then none
    else some key

-- The loop of normalizeSuppressedInsightKeys; `out` doubles as the set of the keys seen.
unfoldable pub collect_keys : List Str → List Str → Option (List Str)
collect_keys out [] = some out
collect_keys out (item ∷ rest) = elim (clean_suppressed_insight_key item) [
  | none ↦ none
  | some key ↦
      let skip = collect_keys out rest in
      let keep = collect_keys (out ++ key ∷ []) rest in if mem key out then skip else keep
]

unfoldable pub normalize_suppressed_insight_keys : List Str → Option (List Str)
normalize_suppressed_insight_keys input = elim (collect_keys [] input) [
  | none ↦ none
  | some out ↦ some (sort_by less out)
]

-- The loop of SetInsightSuppressed over the current keys.
unfoldable pub without : Str → List Str → List Str
without key [] = []
without key (item ∷ rest) =
    let others = without key rest in if item == key then others else item ∷ others

unfoldable pub next_keys : Str → Bool → List Str → List Str
next_keys key suppressed current =
    let next = without key current in
    if suppressed && not (mem key next) then next ++ key ∷ [] else next

-- Where the keys are read from: `none` is an error, and a text of `none` is not found.
unfoldable pub get_data : SuppressedInsightsRef → Stored → Option (Option Str)
get_data ref s =
    if not (is_valid_ref ref) || not s.reads
    then none
    else elim s.config_map [ none ↦ some none | some cm ↦ some (lookup ref.key cm.entries) ]

abbrev pub insight_labels : GoMap Str → GoMap Str
insight_labels labels =
    put (codes "app.kubernetes.io/component") (codes "insights")
      (put (codes "app.kubernetes.io/name") (codes "beaverdeck") labels)

abbrev pub or_new : Option ConfigMap → ConfigMap
or_new none = record { labels = []; entries = [] }
or_new (some cm) = cm

-- The new or the changed ConfigMap.
unfoldable pub upsert_data : SuppressedInsightsRef → Str → Stored → Option Stored
upsert_data ref text s =
    let cm = or_new s.config_map in
    if not (is_valid_ref ref) || not s.reads || not s.writes
    then none
    else some (record s {
      config_map =
          some
            (record { labels = insight_labels cm.labels; entries = put ref.key text cm.entries });
    })

-- JSON of a list of strings.
pub record ListCodec : Type 0 where
  pub unmarshal : Str → Option (List Str)
  pub marshal : List Str → Str

module _ (codec : ListCodec) (ref : SuppressedInsightsRef) where
  unfoldable pub decode_keys : Option Str → Option (List Str)
  decode_keys none = some []
  decode_keys (some text) =
      if is_empty (trim_space text) then some [] else elim (codec.unmarshal text) [
        | none ↦ none
        | some keys ↦ normalize_suppressed_insight_keys keys
      ]

  unfoldable pub list_suppressed_insights : Stored → Option (List Str)
  list_suppressed_insights s = elim (get_data ref s) [
    | none ↦ none
    | some found ↦ decode_keys found
  ]

  unfoldable pub store_keys : Stored → Option (List Str) → Option Stored
  store_keys s none = none
  store_keys s (some keys) = upsert_data ref (codec.marshal keys) s

  unfoldable pub set_insight_suppressed : Str → Bool → Stored → Option Stored
  set_insight_suppressed value suppressed s = elim (clean_suppressed_insight_key value) [
    | none ↦ none
    | some key ↦ elim (list_suppressed_insights s) [
      | none ↦ none
      | some current ↦
          store_keys s (normalize_suppressed_insight_keys (next_keys key suppressed current))
    ]
  ]

-- ===== src/Users/Json.antt =====
-- encoding/json, as far as internal/users and internal/api use it: values, decoding into Go types, and
-- the reader and the printer of texts as a parameter.
use beaverdeck.Base.{◌≡◌, Bool, false, Option, none, some, List, [], ◌∷◌}
use beaverdeck.Text.{Str}
use beaverdeck.GoMap.{GoMap, put}

-- JSON values. A number keeps its text; the code never reads one.
mutual
  pub data Json : Type 0 where
    null : Json
    bool : Bool → Json
    num : Str → Json
    str : Str → Json
    arr : Items → Json
    obj : Fields → Json

  pub data Items : Type 0 where
    nil : Items
    cons : Json → Items → Items

  pub data Fields : Type 0 where
    end : Fields
    field : Str → Json → Fields → Fields

-- encoding/json on the texts that the program reads and writes.
pub record JsonCodec : Type 0 where
  pub parse : Str → Option Json
  pub print : Json → Str

-- What the code relies on: a value that is printed is read back.
abbrev pub ReadsBack : JsonCodec → Type 0
ReadsBack codec = (j : Json) → codec.parse (codec.print j) ≡ some j

-- A JSON object as a Go map: of two fields with one name the later one stays.
unfoldable pub object_from : GoMap Json → Fields → GoMap Json
object_from m end = m
object_from m (field k v fs) = object_from (put k v m) fs

-- json.Unmarshal into a map, a string, a bool and a slice of strings; null leaves the zero value.
unfoldable pub decode_object : Json → Option (GoMap Json)
unfolding object_from
decode_object null = some []
decode_object (obj fs) = some (object_from [] fs)
decode_object _ = none

unfoldable pub decode_string : Json → Option Str
decode_string null = some []
decode_string (str s) = some s
decode_string _ = none

unfoldable pub decode_bool : Json → Option Bool
decode_bool null = some false
decode_bool (bool b) = some b
decode_bool _ = none

unfoldable pub decode_items : Items → Option (List Str)
unfolding decode_string
decode_items nil = some []
decode_items (cons j js) = elim (decode_string j) [
  | none ↦ none
  | some s ↦ elim (decode_items js) [ none ↦ none | some ss ↦ some (s ∷ ss) ]
]

unfoldable pub decode_strings : Json → Option (List Str)
unfolding decode_items
decode_strings null = some []
decode_strings (arr js) = decode_items js
decode_strings _ = none

-- ===== src/Users/Permissions.antt =====
-- config_snapshot.go, the permissions of a role: parsing, normalising and the compact form.
pub mod Write
pub mod Levels
use beaverdeck.Base.{
  ◌≡◌, Bool, true, false, not, ◌&&◌, ◌||◌, Option, none, some, List, [], ◌∷◌, ◌++◌, map, any,
  is_empty, if◌then◌else◌, is_some,
}
use beaverdeck.Text.{Str, codes, ◌==◌, less, trim_space, to_lower}
use beaverdeck.GoMap.{GoMap, lookup, put, has}
use beaverdeck.GoMap.Sorted.{sort_by}
use beaverdeck.Users.Types.{Err, bad_permissions, Result, ok, err, ◌>>=◌, ◌>>◌, no_permissions}
use beaverdeck.Users.Json.{
  Json, JsonCodec, decode_object, decode_string, decode_bool, decode_strings,
}
use beaverdeck.Users.Fields.{clean_config_field}

pub record RolePermissionFlags : Type 0 where
  pub view : Bool
  pub edit : Bool
  pub delete : Bool

abbrev pub no_flags : RolePermissionFlags
no_flags = record { view = false; edit = false; delete = false }

pub record NormalizedRolePermissions : Type 0 where
  pub namespaces : List Str
  pub resources : GoMap RolePermissionFlags

unfoldable pub has_any_permission : RolePermissionFlags → Bool
has_any_permission f = f.view || f.edit || f.delete

-- Delete implies edit, and edit implies view.
unfoldable pub imply : RolePermissionFlags → RolePermissionFlags
imply f =
    let g = (if f.delete then record f { edit = true; view = true } else f) in
    if g.edit then record g { view = true } else g

abbrev level_is : Str → Str → Bool
level_is level name = to_lower (trim_space level) == name

unfoldable pub permission_level_to_flags : Str → Option RolePermissionFlags
permission_level_to_flags level =
    if level_is level [] || level_is level (codes "none")
    then some no_flags
    else if level_is level (codes "view")
    then some (record { view = true; edit = false; delete = false })
    else if level_is level (codes "edit")
    then some (record { view = true; edit = true; delete = false })
    else if level_is level (codes "full") || level_is level (codes "delete")
    then some (record { view = true; edit = true; delete = true })
    else none

unfoldable pub permission_flags_to_level : RolePermissionFlags → Str
permission_flags_to_level f =
    if f.delete
    then codes "full"
    else if f.edit
    then codes "edit"
    else if f.view
    then codes "view"
    else []

abbrev pub mem : Str → List Str → Bool
mem k ks = any (λ j. j == k) ks

-- The loop of normalizePermissionNamespaces; `out` doubles as the set of the names seen.
unfoldable pub collect_namespaces : List Str → List Str → Result (List Str)
collect_namespaces out [] = ok out
collect_namespaces out (namespace ∷ rest) =
    let n = trim_space namespace in
    let skip = collect_namespaces out rest in
    let keep = collect_namespaces (out ++ n ∷ []) rest in
    if is_empty n then skip else do
      clean_config_field (codes "permission namespace") n 253 false
      if mem n out then skip else keep

unfoldable pub normalize_permission_namespaces : List Str → Result (List Str)
unfolding collect_namespaces
normalize_permission_namespaces input = do out ← collect_namespaces [] input; ok (sort_by less out)

or_bad {ℓ} : {A : Type ℓ} → Str → Option A → Result A
or_bad name none = err (bad_permissions name)
or_bad name (some a) = ok a

abbrev level_action : Str → Bool → RolePermissionFlags → Option RolePermissionFlags
level_action key enabled flags =
    if level_is key (codes "view")
    then some (record flags { view = enabled })
    else if level_is key (codes "edit")
    then some (record flags { edit = enabled })
    else if level_is key (codes "delete")
    then some (record flags { delete = enabled })
    else none

-- The loop over the fields of one resource's object.
unfoldable pub set_actions : Str → RolePermissionFlags → GoMap Json → Result RolePermissionFlags
unfolding decode_bool or_bad
set_actions resource flags [] = ok flags
set_actions resource flags ((key, value) ∷ rest) = do
  enabled ← or_bad resource (decode_bool value)
  changed ← or_bad resource (level_action key enabled flags)
  set_actions resource changed rest

unfoldable pub parse_permission_resource_value : Str → Json → Result RolePermissionFlags
unfolding decode_string decode_object or_bad
parse_permission_resource_value resource raw = elim (decode_string raw) [
  | some level ↦ or_bad resource (permission_level_to_flags level)
  | none ↦ do
    fields ← or_bad resource (decode_object raw)
    flags ← set_actions resource no_flags fields
    ok (imply flags)
]

-- The loop of parsePermissionResources.
unfoldable pub collect_resources :
    GoMap RolePermissionFlags → GoMap Json → Result (GoMap RolePermissionFlags)
collect_resources out [] = ok out
collect_resources out ((resource, raw) ∷ rest) = do
  name ← clean_config_field (codes "permission resource") (to_lower resource) 80 false
  flags ← parse_permission_resource_value name raw
  collect_resources (if has_any_permission flags then put name flags out else out) rest

unfoldable pub parse_permission_resources : Json → Result (GoMap RolePermissionFlags)
unfolding or_bad decode_object collect_resources
parse_permission_resources raw = do
  resources ← or_bad (codes "resources") (decode_object raw)
  collect_resources [] resources

unfoldable pub set_section :
    Str → Json → NormalizedRolePermissions → Result NormalizedRolePermissions
unfolding or_bad decode_strings
set_section key value out =
    if level_is key (codes "namespaces")
    then (do
      input ← or_bad (codes "namespaces") (decode_strings value)
      normalized ← normalize_permission_namespaces input
      ok (record out { namespaces = normalized }))
    else if level_is key (codes "resources")
    then (do
      resources ← parse_permission_resources value
      ok (record out { resources = resources }))
    else err (bad_permissions key)

-- The loop of parseRolePermissionsJSON over the fields of the object.
unfoldable pub set_sections :
    NormalizedRolePermissions → GoMap Json → Result NormalizedRolePermissions
unfolding set_section
set_sections out [] = ok out
set_sections out ((key, value) ∷ rest) = do
  changed ← set_section key value out
  set_sections changed rest

abbrev pub nothing_allowed : NormalizedRolePermissions
nothing_allowed = record { namespaces = []; resources = [] }

-- The object that a permissions value stands for, to a Go map.
unfoldable pub parse_root : Option Json → Result NormalizedRolePermissions
unfolding decode_object or_bad set_sections
parse_root parsed = do
  json ← or_bad (codes "json") parsed
  root ← or_bad (codes "object") (decode_object json)
  set_sections nothing_allowed root

module _ (codec : JsonCodec) where
  -- parseRolePermissionsJSON
  unfoldable pub parse_role_permissions : Str → Result NormalizedRolePermissions
  unfolding parse_root
  parse_role_permissions raw =
      if is_empty (trim_space raw) || trim_space raw == codes "null"
      then ok nothing_allowed
      else parse_root (codec.parse raw)

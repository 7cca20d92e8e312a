-- ===== src/Users/Permissions/Write.antt =====
-- config_snapshot.go, the permissions of a role written out: the expanded JSON and the compact form.
use beaverdeck.Base.{Bool, false, Option, none, some, List, [], ◌∷◌, is_empty, if◌then◌else◌}
use beaverdeck.Text.{Str, codes, less, to_lower}
use beaverdeck.GoMap.{GoMap, put}
use beaverdeck.GoMap.Sorted.{sort_by}
use beaverdeck.Users.Types.{bad_permissions, Result, ok, err, ◌>>=◌, no_permissions}
use beaverdeck.Users.Fields.{clean_config_field}
use beaverdeck.Users.Json.{
  Json, bool, str, arr, obj, Items, nil, cons, Fields, end, field, JsonCodec,
}
use beaverdeck.Users.Permissions.{
  RolePermissionFlags, NormalizedRolePermissions, has_any_permission, permission_level_to_flags,
  permission_flags_to_level, normalize_permission_namespaces, parse_role_permissions,
}

-- json.Marshal of the permissions: a map is written in the order of its keys.
unfoldable pub flags_json : RolePermissionFlags → Json
flags_json f = obj (
    field (codes "view") (bool f.view)
      (field (codes "edit") (bool f.edit) (field (codes "delete") (bool f.delete) end)))

unfoldable pub items_json : List Str → Items
items_json [] = nil
items_json (s ∷ ss) = cons (str s) (items_json ss)

unfoldable pub resource_fields : GoMap RolePermissionFlags → Fields
unfolding flags_json
resource_fields [] = end
resource_fields ((k, f) ∷ m) = field k (flags_json f) (resource_fields m)

abbrev key_before {ℓ} : {V : Type ℓ} → Str × V → Str × V → Bool
key_before a b = less a.0 b.0

unfoldable pub permissions_json : List Str → GoMap RolePermissionFlags → Json
unfolding items_json resource_fields
permissions_json namespaces resources =
    let written = obj (resource_fields (sort_by key_before resources)) in
    if is_empty namespaces
    then obj (field (codes "resources") written end)
    else obj (
        field (codes "namespaces") (arr (items_json namespaces))
          (field (codes "resources") written end))

-- The resources that grant something.
unfoldable pub granted : GoMap RolePermissionFlags → GoMap RolePermissionFlags
granted [] = []
granted ((k, f) ∷ m) = let rest = granted m in if has_any_permission f then (k, f) ∷ rest else rest

pub record ConfigPermissionsYaml : Type 0 where
  pub namespaces : List Str
  pub resources : GoMap Str

-- The loop of expandedPermissionsJSON over the compact resources.
unfoldable pub expand_resources :
    GoMap RolePermissionFlags → GoMap Str → Result (GoMap RolePermissionFlags)
expand_resources out [] = ok out
expand_resources out ((resource, level) ∷ rest) = do
  name ← clean_config_field (codes "permission resource") (to_lower resource) 80 false
  flags ← elim (permission_level_to_flags level) [
    | none ↦ err (bad_permissions name)
    | some f ↦ ok f
  ]
  expand_resources (if has_any_permission flags then put name flags out else out) rest

-- The loop of compactPermissionsYAML over the sorted resources.
unfoldable pub compact_resources : GoMap RolePermissionFlags → GoMap Str
compact_resources [] = []
compact_resources ((k, f) ∷ m) =
    let rest = compact_resources m in
    let level = permission_flags_to_level f in if is_empty level then rest else (k, level) ∷ rest

module _ (codec : JsonCodec) where
  unfoldable pub expanded_permissions_from_normalized : NormalizedRolePermissions → Result Str
  unfolding granted
  expanded_permissions_from_normalized permissions = do
    namespaces ← normalize_permission_namespaces permissions.namespaces
    let resources = granted permissions.resources
    if is_empty resources
        then ok no_permissions
        else ok (codec.print (permissions_json namespaces resources))

  -- normalizeRolePermissionsJSON
  unfoldable pub normalize_role_permissions : Str → Result Str
  unfolding expanded_permissions_from_normalized
  normalize_role_permissions raw = do
    permissions ← parse_role_permissions codec raw
    expanded_permissions_from_normalized permissions

  -- expandedPermissionsJSON
  unfoldable pub expanded_permissions : Option ConfigPermissionsYaml → Result Str
  unfolding expanded_permissions_from_normalized expand_resources
  expanded_permissions none = ok no_permissions
  expanded_permissions (some compact) = do
    namespaces ← normalize_permission_namespaces compact.namespaces
    resources ← expand_resources [] compact.resources
    expanded_permissions_from_normalized (record { namespaces = namespaces; resources = resources })

  -- compactPermissionsYAML
  unfoldable pub compact_permissions : Str → Result (Option ConfigPermissionsYaml)
  unfolding compact_resources
  compact_permissions raw = do
    permissions ← parse_role_permissions codec raw
    namespaces ← normalize_permission_namespaces permissions.namespaces
    let resources = compact_resources (sort_by key_before permissions.resources)
    if is_empty resources
        then ok none
        else ok (some (record { namespaces = namespaces; resources = resources }))

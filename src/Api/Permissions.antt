-- ===== src/Api/Permissions.antt =====
-- internal/api/permissions.go: what the role of a request's user allows.
pub mod Queried
use beaverdeck.Base.{
  Bool, true, false, not, ◌||◌, Option, none, some, List, [], ◌∷◌, ◌++◌, is_empty, if◌then◌else◌,
}
use beaverdeck.Text.{Str, codes, ◌==◌, mem, trim_space, to_lower, split}
use beaverdeck.GoMap.{GoMap, lookup, put}
use beaverdeck.Users.Types.{role_admin}
use beaverdeck.Api.Request.{Request, Config, query_get, user_from_context}

pub record RolePermission : Type 0 where
  pub view : Bool
  pub edit : Bool
  pub delete : Bool

pub record RolePermissionSet : Type 0 where
  pub namespaces : List Str
  pub resources : GoMap RolePermission

abbrev pub default_permission_set : RolePermissionSet
default_permission_set = record { namespaces = []; resources = [] }

-- The loop over parsed.Namespaces; `filtered` doubles as the set of the names seen.
unfoldable pub filter_namespaces : List Str → List Str → List Str
filter_namespaces filtered [] = filtered
filter_namespaces filtered (ns ∷ rest) =
    let n = trim_space ns in
    let skip = filter_namespaces filtered rest in
    let keep = filter_namespaces (filtered ++ n ∷ []) rest in
    if is_empty n || mem n filtered then skip else keep

-- What deleting and editing imply.
unfoldable pub close_permission : RolePermission → RolePermission
close_permission v =
    let w = (if v.delete then record v { edit = true; view = true } else v) in
    if w.edit then record w { view = true } else w

-- The loop over parsed.Resources.
unfoldable pub filter_resources : GoMap RolePermission → GoMap RolePermission → GoMap RolePermission
filter_resources out [] = out
filter_resources out ((k, permission) ∷ rest) =
    let v = close_permission permission in
    let grants = v.view || v.edit || v.delete in
    filter_resources (if grants then put (to_lower (trim_space k)) v out else out) rest

-- IsAdmin of internal/auth
unfoldable pub is_admin : Request → Bool
is_admin r = elim (user_from_context r) [ none ↦ false | some u ↦ u.role_mode == role_admin ]

-- strings.ToLower(strings.TrimSpace(s))
abbrev pub folded : Str → Str
folded s = to_lower (trim_space s)

-- The switch over the action.
unfoldable pub permission_for : Str → RolePermission → Bool
permission_for action perm =
    if folded action == codes "view"
    then perm.view
    else if folded action == codes "edit"
    then perm.edit
    else if folded action == codes "delete"
    then perm.delete
    else false

unfoldable pub namespace_allowed : Config → Str → Bool
namespace_allowed cfg ns =
    if is_empty ns
    then false
    else if cfg.allow_all_namespaces
    then true
    else ns == cfg.managed_namespace

-- `unmarshal` is json.Unmarshal into a rolePermissionSet, `none` for an error.
module _ (unmarshal : Str → Option RolePermissionSet) where
  unfoldable pub parse_permission_set : Str → RolePermissionSet
  parse_permission_set raw = if is_empty raw then default_permission_set else elim (unmarshal raw) [
    | none ↦ default_permission_set
    | some parsed ↦ record {
      namespaces = filter_namespaces [] parsed.namespaces;
      resources = filter_resources [] parsed.resources;
    }
  ]

  unfoldable pub permission_set_from_request : Request → RolePermissionSet
  permission_set_from_request r = elim (user_from_context r) [
    | none ↦ default_permission_set
    | some u ↦ parse_permission_set u.permissions
  ]

  unfoldable pub is_namespace_allowed_by_role : Request → Str → Bool
  is_namespace_allowed_by_role r ns =
      let perm = permission_set_from_request r in
      if is_empty ns
      then false
      else if is_admin r
      then true
      else if is_empty perm.namespaces
      then true
      else mem ns perm.namespaces

  unfoldable pub namespace_allowed_for_request : Config → Request → Str → Bool
  namespace_allowed_for_request cfg r ns =
      if not (namespace_allowed cfg ns) then false else is_namespace_allowed_by_role r ns

  unfoldable pub has_permission : Request → Str → Str → Bool
  has_permission r resource action =
      if is_admin r
      then true
      else elim (lookup (folded resource) (permission_set_from_request r).resources) [
        | none ↦ false
        | some perm ↦ permission_for action perm
      ]

  -- The loop of namespacesFromQuery; `out` doubles as the set of the names seen.
  unfoldable pub collect_parts : Config → Request → List Str → List Str → Option (List Str)
  collect_parts cfg r out [] = some out
  collect_parts cfg r out (part ∷ rest) =
      let ns = trim_space part in
      let skip = collect_parts cfg r out rest in
      let keep = collect_parts cfg r (out ++ ns ∷ []) rest in
      if is_empty ns
      then skip
      else if not (namespace_allowed_for_request cfg r ns)
      then none
      else if mem ns out
      then skip
      else keep

  -- `none` for a result that is not ok
  unfoldable pub namespaces_from_query : Config → Request → Option (List Str)
  namespaces_from_query cfg r =
      let raw = trim_space (query_get r (codes "namespace")) in
      if is_empty raw
      then (if namespace_allowed_for_request cfg r cfg.managed_namespace
          then some (cfg.managed_namespace ∷ [])
          else none)
      else elim (collect_parts cfg r [] (split b',' raw)) [
        | none ↦ none
        | some out ↦ if is_empty out then none else some out
      ]

  -- namespaceFromQuery of resource_handlers.go; `none` for a result that is not ok
  unfoldable pub namespace_from_query : Config → Request → Option Str
  namespace_from_query cfg r =
      let asked = trim_space (query_get r (codes "namespace")) in
      let ns = (if is_empty asked then cfg.managed_namespace else asked) in
      if namespace_allowed_for_request cfg r ns then some ns else none

unfoldable pub strings_trim_or_fallback : Str → Str → Str
strings_trim_or_fallback primary fallback =
    let value = trim_space primary in if is_empty value then trim_space fallback else value

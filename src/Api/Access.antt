-- ===== src/Api/Access.antt =====
-- The access checks of the handlers: requirePermission, requireAdmin and the checks of namespaces.
use beaverdeck.Base.{Bool, Option, List}
use beaverdeck.Text.{Str}
use beaverdeck.Api.Request.{Request, Config}
use beaverdeck.Api.Permissions.{
  RolePermissionSet, is_admin, has_permission, namespace_allowed_for_request, namespaces_from_query,
  namespace_from_query,
}
use beaverdeck.Api.Handling.{Handling, require, require_some}

unfoldable pub require_admin : Request → Handling (Unit {0})
require_admin r = require (is_admin r) 403

-- What the checks of a server depend on.
pub record Server : Type 0 where
  pub cfg : Config
  pub unmarshal : Str → Option RolePermissionSet

-- hasPermission and namespaceAllowedForRequest of a server
abbrev pub can : Server → Request → Str → Str → Bool
can s r resource action = has_permission s.unmarshal r resource action

abbrev pub allows : Server → Request → Str → Bool
allows s r ns = namespace_allowed_for_request s.unmarshal s.cfg r ns

unfoldable pub require_permission : Server → Request → Str → Str → Handling (Unit {0})
require_permission s r resource action = require (can s r resource action) 403

unfoldable pub require_namespace : Server → Request → Str → Handling (Unit {0})
require_namespace s r ns = require (allows s r ns) 403

-- The namespace or the namespaces of the query, or the status 403.
unfoldable pub query_namespace : Server → Request → Handling Str
query_namespace s r = require_some (namespace_from_query s.unmarshal s.cfg r) 403

unfoldable pub query_namespaces : Server → Request → Handling (List Str)
query_namespaces s r = require_some (namespaces_from_query s.unmarshal s.cfg r) 403

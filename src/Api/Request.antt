-- ===== src/Api/Request.antt =====
-- What a handler reads of an HTTP request, and the settings of the server that the access checks use.
use beaverdeck.Base.{Bool, Option, none, some, List, [], ◌∷◌}
use beaverdeck.Text.{Str}
use beaverdeck.GoMap.{GoMap, lookup}
use beaverdeck.Users.Types.{UserWithToken}

-- `query` is r.URL.Query(), `header` is r.Header.Get, `path` is r.PathValue, and `user` is the value that the middleware puts
-- into the context.
pub record Request : Type 0 where
  pub query : GoMap (List Str)
  pub header : Str → Str
  pub path : Str → Str
  pub user : Option UserWithToken

-- The settings of config.Config that decide about namespaces.
pub record Config : Type 0 where
  pub allow_all_namespaces : Bool
  pub managed_namespace : Str

abbrev first_value : Option (List Str) → Str
first_value none = []
first_value (some []) = []
first_value (some (value ∷ rest)) = value

-- r.URL.Query().Get(key)
unfoldable pub query_get : Request → Str → Str
query_get r key = first_value (lookup key r.query)

-- r.URL.Query()[key]
unfoldable pub query_values : Request → Str → List Str
query_values r key = elim (lookup key r.query) [ none ↦ [] | some values ↦ values ]

-- UserFromContext
unfoldable pub user_from_context : Request → Option UserWithToken
user_from_context r = r.user

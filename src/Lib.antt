-- ===== src/Lib.antt =====
-- The user store, the HTTP interface and the Kubernetes client of beaverdeck.
--
-- A request comes in through the middleware (internal/auth), which authenticates its token with the
-- user store (internal/users); a handler (internal/api) checks the permissions that the role of the user
-- gives, and calls the client (internal/kube), which calls the cluster.
--
-- The store is one record behind a lock. Each operation that changes the configuration checks its
-- input, takes the lock, changes the maps in a closure, and hands a snapshot of the result to a saver;
-- when the saver fails, the store is put back from the snapshot of before. Sessions are signed tokens
-- with a record each; a token of a local user carries the session version of that user.
--
-- Files and the code they model:
--   Users/Types, Users/Locked    internal/users/types.go and the helpers that run under the lock
--   Users/Snapshot               snapshotLocked, applyConfigSnapshotLocked and mutateConfigAndPersist
--                                in internal/users/config_snapshot.go
--   Users/Fields, Users/Json, Users/Permissions, Users/Normalize, Users/Import
--                                the rest of config_snapshot.go: field checks, role permissions,
--                                NormalizeConfigSnapshot, import, export and reset; Open in store.go
--   Users/Accounts, Users/Roles  internal/users/accounts.go
--   Users/Bootstrap              internal/users/bootstrap.go
--   Users/Google, Users/Oidc     internal/users/google.go and internal/users/oidc.go
--   Users/Passwords              internal/users/passwords.go
--   Users/Sessions               internal/users/session_tokens.go and the sessions of accounts.go
--   Users/Commands               all operations on the configuration as one type, and runs of them
--   Users/Invariant              what a well-formed store is, and when two stores agree
--   Api/Request, Api/Middleware  a request, and internal/auth/middleware.go
--   Api/Permissions, Api/Access, Api/Kinds
--                                internal/api/permissions.go and the kinds of objects
--   Api/Mutations                internal/api/mutation_handlers.go
--   Api/Lists, Api/Details, Api/Manifests, Api/Insights
--                                internal/api/resource_handlers.go
--   Api/Pool                     the workers of writeNamespacedList in resource_handlers.go
--   Api/Admin                    the handlers of internal/api/admin_handlers.go, admin_auth_handlers.go
--                                and admin_config_handlers.go that change the store
--   Api/Calls, Api/Handling      the calls of the client, and how a handler runs
--   Api/Routes                   the routes of internal/api/server.go behind the middleware
--   Api/Permitted                which calls a role permits, and that handlers make no others
--   Kube/Targets, Kube/Drain, Kube/Shell
--                                internal/kube/operations.go: deletion, DrainNode and the terminal
--   Kube/Ring, Kube/Incidents, Kube/Dedupe
--                                internal/kube/restart_diagnostics.go: samples, detection and queue
--   Kube/Suppressions            internal/kube/insight_suppressions.go
--   Kube/ResizeQueue             internal/kube/terminal_resize.go
--   Text, GoMap, Base            Go strings and numbers, Go maps, and shared helpers
--   Tests                        concrete stores, requests, pods and parameters
-- A function keeps its name in snake_case. A method of the Store becomes a function on the record
-- Store; one that can fail returns the store and an error, or a Result. The closure of a method is a
-- definition of its own, as are the checks in front of it. A handler keeps its name with `_handler`.
--
-- Choices. A string is its list of code points; lowering is exact below U+0100. A time is its
-- nanoseconds, 0 for the zero time. A session version is the bit pattern of an int64, with its
-- wrap-around. A map is an association list; a nil map is an empty one, since the code reads both alike
-- and makes the map before it writes. One critical section is one step. The code that walks a
-- map and then sorts, or only asks whether some entry passes a test, gives the same for every order.
-- A handler that uses the cluster is written in the style of its continuation: it gives the calls that
-- it makes, in their order, and the status and the computed parts of its reply. A body comes decoded,
-- `none` for one that does not decode. A number of a query is its sign and its amount, cut off at the
-- range of an int64. In its handler, writeNamespacedList asks for the namespaces one after the
-- other; Api/Pool has its workers, whose context is done when one of them has an error or the
-- request is cancelled; a cancelled request may be answered with the chunks that are there. A goroutine
-- takes its steps one at a time; the queue of the terminal has one pusher and one reader. No model takes
-- fuel: every loop is a recursion on a list or on a count of rounds.
--
-- Parameters: SHA-256 and HMAC (Crypto), the JSON reader and printer (JsonCodec, ListCodec, `unmarshal`),
-- the JSON and base64 texts in a token (TokenCodec), the documents of a YAML text (`documents`), the
-- saver, the clock and the random bytes (Env), the answers of the cluster (Cluster, Answers, Stored,
-- `probe`, and `error_text` for the text of an error of a list), and fmt.Sprintf and UnixNano in the key
-- of an incident.
--
-- Not modelled: the SQLite tables, the YAML form of a snapshot, the hourly loop of the session sweeper,
-- the sign-in flows over HTTP, the streams of logs and of the terminal, the lists, metrics, releases and
-- insights that internal/kube makes of the objects of the cluster, ApplyYAML and UpdateManifestYAML,
-- internal/config, internal/updatecheck, cmd/server and the web interface. They convert data of other
-- libraries or run for their effects, or are left for a later extension.
pub mod Base
pub mod Text
pub mod GoMap
pub mod Users
pub mod Api
pub mod Kube
pub mod Tests

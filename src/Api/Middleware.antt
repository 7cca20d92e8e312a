-- ===== src/Api/Middleware.antt =====
-- internal/auth/middleware.go: who a request is let through as.
pub mod Laws
use beaverdeck.Base.{
  ℕ, Bool, true, false, ◌||◌, not, Option, none, some, drop, is_empty, if◌then◌else◌,
}
use beaverdeck.Text.{Str, codes, ◌==◌, has_prefix, trim_space, to_lower}
use beaverdeck.Users.Types.{Err, no_rows, Result, ok, err, UserWithToken, Store, Env}
use beaverdeck.Users.Passwords.{Crypto}
use beaverdeck.Users.Sessions.{TokenCodec, authenticate}
use beaverdeck.Api.Request.{Request, query_get}

-- The refusal of a request by its status, or the request that the next handler gets.
pub data Admission : Type 0 where
  refused : ℕ → Admission
  admitted : Request → Admission

unfoldable pub token_from_request : Request → Str
token_from_request r =
    let auth_header = r.header (codes "Authorization") in
    if has_prefix (to_lower auth_header) (codes "bearer ")
    then trim_space (drop 7 auth_header)
    else query_get r (codes "token")

-- The name that the request asks to act under: the header's, else the query's.
unfoldable pub requested_user : Request → Str
requested_user r =
    let named = trim_space (r.header (codes "X-BeaverDeck-Username")) in
    if is_empty named then trim_space (query_get r (codes "username")) else named

abbrev auth_status : Err → ℕ
auth_status no_rows = 401
auth_status failure = 500

unfoldable pub admit : Request → Result UserWithToken → Admission
admit r (err failure) = refused (auth_status failure)
admit r (ok u) =
    let name = requested_user r in
    if is_empty name || not (name == u.username)
    then refused 401
    else admitted (record r { user = some u })

module _ (crypto : Crypto) (codec : TokenCodec) where
  -- Middleware, up to the call of the next handler
  unfoldable pub middleware : Env → Option Store → Request → Admission
  middleware env none r = refused 503
  middleware env (some user_store) r =
      admit r (authenticate crypto codec env user_store (token_from_request r))

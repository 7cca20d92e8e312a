-- ===== src/Api/Permitted/Steps.antt =====
-- The steps of a handler, and when all calls that follow them are permitted.
use beaverdeck.Base.{
  ℕ, ◌≡◌, refl, Bool, true, false, Option, none, some, List, [], all, if◌then◌else◌, is_empty,
}
use beaverdeck.Text.{Str}
use beaverdeck.Api.Request.{Request}
use beaverdeck.Api.Permissions.Queried.{namespace_from_query-allowed, namespaces_from_query-allowed}
use beaverdeck.Api.Calls.{KubeCall, AnswerOf}
use beaverdeck.Api.Handling.{Handled, require, require_some, after_answer, call, attempt, Cluster}
use beaverdeck.Api.Access.{
  Server, can, allows, require_permission, require_namespace, query_namespace, query_namespaces,
}
use beaverdeck.Api.Mutations.{Document}
use beaverdeck.Api.Permitted.{permits}

module _ (s : Server) (documents : Str → List Document) (cluster : Cluster) (r : Request) where
  -- All calls of a run are permitted.
  abbrev pub IsPermitted : Handled → Type 0
  IsPermitted h = all (permits s documents cluster r) h.calls ≡ true

  pub stop-IsPermitted : all (permits s documents cluster r) [] ≡ true
  unfolding all
  stop-IsPermitted = refl

  pub if-IsPermitted :
      (test : Bool) (x y : Handled)
      → (test ≡ true → IsPermitted x)
      → (test ≡ false → IsPermitted y)
      → IsPermitted (if test then x else y)
  if-IsPermitted true x y h k = h refl
  if-IsPermitted false x y h k = k refl

  pub require-IsPermitted :
      (test : Bool) (status : ℕ) (next : Unit {0} → Handled)
      → (test ≡ true → IsPermitted (next tt))
      → IsPermitted (require test status next)
  unfolding require all
  require-IsPermitted true status next rest = rest refl
  require-IsPermitted false status next rest = refl

  pub require_some-IsPermitted {ℓ} :
      {A : Type ℓ} (o : Option A) (status : ℕ) (next : A → Handled)
      → ((a : A) → o ≡ some a → IsPermitted (next a))
      → IsPermitted (require_some o status next)
  unfolding require_some all
  require_some-IsPermitted none status next rest = refl
  require_some-IsPermitted (some a) status next rest = rest a refl

  after_answer-IsPermitted {ℓ} :
      {A : Type ℓ} (o : Option A) (next : A → Handled)
      → ((a : A) → o ≡ some a → IsPermitted (next a))
      → IsPermitted (after_answer o next)
  unfolding after_answer all
  after_answer-IsPermitted none next rest = refl
  after_answer-IsPermitted (some a) next rest = rest a refl

  pub call-IsPermitted :
      (c : KubeCall) (next : AnswerOf c → Handled)
      → permits s documents cluster r c ≡ true
      → ((a : AnswerOf c) → cluster c ≡ some a → IsPermitted (next a))
      → IsPermitted (call cluster c next)
  unfolding call all
  call-IsPermitted c next permitted rest =
      rw permitted (after_answer-IsPermitted (cluster c) next rest)

  pub attempt-IsPermitted :
      (c : KubeCall) (next : Option (AnswerOf c) → Handled)
      → permits s documents cluster r c ≡ true
      → ((o : Option (AnswerOf c)) → IsPermitted (next o))
      → IsPermitted (attempt cluster c next)
  unfolding attempt all
  attempt-IsPermitted c next permitted rest = rw permitted (rest (cluster c))

  pub require_permission-IsPermitted :
      (resource action : Str) (next : Unit {0} → Handled)
      → (can s r resource action ≡ true → IsPermitted (next tt))
      → IsPermitted (require_permission s r resource action next)
  unfolding require_permission
  require_permission-IsPermitted resource action next rest = require-IsPermitted _ _ next rest

  pub require_namespace-IsPermitted :
      (ns : Str) (next : Unit {0} → Handled)
      → (allows s r ns ≡ true → IsPermitted (next tt))
      → IsPermitted (require_namespace s r ns next)
  unfolding require_namespace
  require_namespace-IsPermitted ns next rest = require-IsPermitted _ _ next rest

  pub query_namespace-IsPermitted :
      (next : Str → Handled)
      → ((ns : Str) → allows s r ns ≡ true → IsPermitted (next ns))
      → IsPermitted (query_namespace s r next)
  unfolding query_namespace
  query_namespace-IsPermitted next rest =
      require_some-IsPermitted _ _ next
        λ ns e. rest ns (namespace_from_query-allowed s.unmarshal s.cfg r ns e)

  pub query_namespaces-IsPermitted :
      (next : List Str → Handled)
      → ((l : List Str) → is_empty l ≡ false → all (allows s r) l ≡ true → IsPermitted (next l))
      → IsPermitted (query_namespaces s r next)
  unfolding query_namespaces
  query_namespaces-IsPermitted next rest = require_some-IsPermitted _ _ next λ l e.
      let found = namespaces_from_query-allowed s.unmarshal s.cfg r l e in rest l found.0 found.1.0

-- ===== src/Api/Handling.antt =====
-- How a handler of internal/api runs: it calls the cluster and ends with a reply. A handler is written
-- in the style of its continuation, so that a test or a call that fails ends it.
use beaverdeck.Base.{ℕ, Bool, true, false, Option, none, some, List, [], ◌∷◌}
use beaverdeck.Text.{Str}
use beaverdeck.Api.Calls.{ListItem, KubeCall, AnswerOf}

-- What writeJSON sends, as far as the code computes it.
pub data Body : Type 0 where
  done : Body
  items : List ListItem → Body
  names : List Str → Body
  drained : Str → ℕ → ℕ → ℕ → Body
  summary : ℕ → ℕ → ℕ → ℕ → ℕ → Body

-- writeErr with a status, or the success of the request.
pub data Reply : Type 0 where
  failure : ℕ → Reply
  success : Body → Reply

pub record Handled : Type 0 where
  pub calls : List KubeCall
  pub reply : Reply

abbrev pub finish : Reply → Handled
finish reply = record { calls = []; reply = reply }

-- A step of a handler that goes on with a value.
abbrev pub Handling {ℓ} : Type ℓ → Type ℓ
Handling Value = (Value → Handled) → Handled

abbrev pub ◌>>=◌ {ℓ} : {Value : Type ℓ} → Handling Value → (Value → Handled) → Handled
step >>= next = step next

abbrev pub ◌>>◌ : Handling (Unit {0}) → Handled → Handled
step >> next = step λ _. next

infixl 5 ◌>>=◌ ◌>>◌
-- `if !b { writeErr(w, status, …); return }`
unfoldable pub require : Bool → ℕ → Handling (Unit {0})
require true status next = next tt
require false status next = finish (failure status)

-- A decoding or a search that fails with a status.
unfoldable pub require_some {ℓ} : {A : Type ℓ} → Option A → ℕ → Handling A
require_some none status next = finish (failure status)
require_some (some a) status next = next a

-- The answers of the cluster; `none` is an error.
abbrev pub Cluster : Type 0
Cluster = (c : KubeCall) → Option (AnswerOf c)

unfoldable pub after_answer {ℓ} : {A : Type ℓ} → Option A → Handling A
after_answer none next = finish (failure 500)
after_answer (some a) next = next a

-- A call whose error is answered with the status 500.
unfoldable pub call : Cluster → (c : KubeCall) → Handling (AnswerOf c)
call cluster c next =
    let rest = after_answer (cluster c) next in
    record { calls = c ∷ rest.calls; reply = rest.reply }

-- A call whose error does not end the handler.
unfoldable pub attempt : Cluster → (c : KubeCall) → Handling (Option (AnswerOf c))
attempt cluster c next =
    let rest = next (cluster c) in record { calls = c ∷ rest.calls; reply = rest.reply }

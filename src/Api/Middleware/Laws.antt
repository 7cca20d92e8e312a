-- ===== src/Api/Middleware/Laws.antt =====
-- Which requests the middleware lets through.
use beaverdeck.Base.{◌≡◌, refl, ◌↔◌, inl, inr, false, some, is_empty, Bool-cases}
use beaverdeck.Text.{◌==◌}
use beaverdeck.Text.Laws.{eq_sound, eq_self}
use beaverdeck.Users.Types.{Result, ok, err, UserWithToken, Store, Env}
use beaverdeck.Users.Passwords.{Crypto}
use beaverdeck.Users.Sessions.{TokenCodec, authenticate}
use beaverdeck.Api.Request.{Request}
use beaverdeck.Api.Middleware.{admitted, admit, middleware, token_from_request, requested_user}

module _ (r q : Request) where
  -- What it takes to be let through as a user.
  abbrev pub IsAdmitted : UserWithToken → Type 0
  IsAdmitted u =
      (requested_user r ≡ u.username)
      × (is_empty u.username ≡ false)
      × (q ≡ record r { user = some u })

  admit-eq_admitted : (u : UserWithToken) → admit r (ok u) ≡ admitted q → IsAdmitted u
  unfolding admit
  admit-eq_admitted u = elim (Bool-cases (is_empty (requested_user r))) [
    | inl none_named ↦ rw none_named λ h. absurd cc
    | inr named ↦ rw named elim (Bool-cases (requested_user r == u.username)) [
      | inr other ↦ rw other λ h. absurd cc
      | inl same ↦ rw same λ h. (
        eq_sound (requested_user r) u.username same,
        rw (← eq_sound (requested_user r) u.username same) named,
        cc,
      )
    ]
  ]

  admitted-admit : (u : UserWithToken) → IsAdmitted u → admit r (ok u) ≡ admitted q
  unfolding admit
  admitted-admit u (named, not_empty, same) = rw (named, not_empty, eq_self u.username) cc

  admitted-IsAdmitted :
      (found : Result UserWithToken)
      → (admit r found ≡ admitted q) ↔ ((u : UserWithToken) × (found ≡ ok u) × IsAdmitted u)
  admitted-IsAdmitted (err failure) = (λ h. absurd (unfold admit in cc), λ (u, h, _). absurd cc)
  admitted-IsAdmitted (ok u) =
      (λ h. (u, refl, admit-eq_admitted u h), λ (v, same, h). rw same (admitted-admit v h))

module _ (crypto : Crypto) (codec : TokenCodec) (env : Env) (s : Store) (r : Request) where
  -- The middleware hands a request on exactly when its token authenticates a user whose name is not
  -- empty and is the name that the request asks for, and then hands it on as that user's request,
  -- otherwise unchanged.
  pub middleware-admitted :
      (q : Request)
      → (middleware crypto codec env (some s) r ≡ admitted q) ↔ (
          (u : UserWithToken) × (authenticate crypto codec env s (token_from_request r) ≡ ok u)
          × IsAdmitted r q u)
  unfolding middleware
  middleware-admitted q =
      admitted-IsAdmitted r q (authenticate crypto codec env s (token_from_request r))

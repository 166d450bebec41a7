-- ===== src/Api/Failures.antt =====
-- What an answer of the error handler adds to the response (pkg/handler/error/error.go, as the handlers of
-- the routes call it): one cookie, which counts the attempts.
use wonderwall.Base.{ℕ, String, ◌==◌, ◌≡◌, refl, ap, ◌∙◌, false, [], ◌∷◌, ◌++◌, arith}
use wonderwall.Http.{Request, HttpCookie}
use wonderwall.Cookie
use wonderwall.Cookie.{make, unset_expiry}
use wonderwall.ErrorHandler.{Outcome, respond_error, increment_retry_attempt}
use wonderwall.Api.Answers.{failed, Exchange, sets, then_set}
use wonderwall.Api.Answers.Extension.{Extends, Spares, sets-append}
use wonderwall.Api.{StandardHandler, get_error_handler, respond}

module _ {W Held Jwks : Type 0} (src : StandardHandler W Held Jwks) where
  abbrev pub failure_of : ℕ → Request → W → HttpCookie × Outcome
  failure_of status r w = respond_error (get_error_handler src) (src.env.now w).0 r status

  pub respond_cookies :
      (status : ℕ) (r : Request) (x : Exchange W)
      → (respond src status r x).1.cookies ≡ x.cookies ++ (failure_of status r x.world).0 ∷ []
  unfolding respond then_set
  respond_cookies status r x = refl

  pub respond-Extends : (status : ℕ) (r : Request) → Extends (respond src status r)
  respond-Extends status r x = ((failure_of status r x.world).0 ∷ [], respond_cookies status r x)

  failure_name : (status : ℕ) (r : Request) (w : W) → (failure_of status r w).0.name ≡ Cookie.retry
  unfolding respond_error increment_retry_attempt make unset_expiry
  failure_name status r w = refl

  pub respond-Spares :
      (name : String) (status : ℕ) (r : Request)
      → (Cookie.retry == name) ≡ false
      → Spares name (respond src status r)
  respond-Spares name status r other x =
      ap (λ cs. sets name cs) (respond_cookies status r x)
      ∙ sets-append name x.cookies ((failure_of status r x.world).0 ∷ [])
      ∙ ground (arith, failure_name status r x.world)

  pub respond_answer :
      (status : ℕ) (r : Request) (x : Exchange W)
      → (respond src status r x).0 ≡ failed (failure_of status r x.world).1
  unfolding respond then_set
  respond_answer status r x = refl

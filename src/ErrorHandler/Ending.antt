-- ===== src/ErrorHandler/Ending.antt =====
-- That a request which keeps failing gets an error page (pkg/handler/error/error.go).
use wonderwall.Base.{ℕ, zero, suc, ◌≤◌, ◌<◌, String, ◌≡◌, ◌↔◌, refl, ap, ◌∙◌, ok, err, Error, arith}
use wonderwall.Base.Int.{ℤ, pos}
use wonderwall.Http.{Request, find_cookie}
use wonderwall.Cookie
use wonderwall.Cookie.{make, unset_expiry}
use wonderwall.Session.Metadata.{Time}
use wonderwall.ErrorHandler.{
  Source, retried, respond_error, get_retry_attempts, attempts_of, increment_retry_attempt,
  next_attempt, retry, nil_on_error,
}
use wonderwall.ErrorHandler.Attempts.{respond_error_attempts}

module _ (src : Source) where
  -- A browser that follows the redirects of failed requests: each of its next requests has the cookie
  -- that the response before it set. It has followed as many as the number says.
  pub data Follows (r : Request) : ℕ → Request → Type 0 where
    start : Follows r 0 r
    follow :
        {n : ℕ} {s t : Request} (now : Time) (status : ℕ) (uri : String)
        → Follows r n s
        → (respond_error src now s status).1 ≡ retried uri
        → find_cookie t.cookies Cookie.retry ≡ ok (respond_error src now s status).0.value
        → Follows r (suc n) t

  -- The cookie counts the redirects; at first there is none.
  abbrev Counted : ℕ → Request → Type 0
  Counted zero s = (e : Error) × (find_cookie s.cookies Cookie.retry ≡ err e)
  Counted (suc n) s = find_cookie s.cookies Cookie.retry ≡ ok (src.itoa (pos (suc n)))

  first_attempt :
      (now : Time) (s : Request) (status : ℕ) (e : Error)
      → find_cookie s.cookies Cookie.retry ≡ err e
      → let (cookie, outcome) = respond_error src now s status in
        (cookie.value ≡ src.itoa (pos 1)) × ((uri : String) × (outcome ≡ retried uri))
  unfolding respond_error increment_retry_attempt next_attempt unset_expiry make get_retry_attempts
      attempts_of
  first_attempt now s status e h =
      let again = retry src s (nil_on_error (src.login_cookie s)) in (rw h refl, (again, rw h refl))

  next_response :
      ((a : ℤ) → src.atoi (src.itoa a) ≡ ok a)
      → (now : Time) (n : ℕ) (s : Request) (status : ℕ) → Counted n s
      → n ≤ 3
      → let (cookie, outcome) = respond_error src now s status in
        (cookie.value ≡ src.itoa (pos (suc n)))
        × (((uri : String) × (outcome ≡ retried uri)) ↔ (n < 3))
  next_response reads now zero s status (e, h) le =
      let (counted, again) = first_attempt now s status e h in
      (counted, (λ _. omega arith, λ _. again))
  next_response reads now (suc n) s status h le =
      respond_error_attempts src reads now s status (suc n) (omega arith) h

  Follows-Counted :
      ((a : ℤ) → src.atoi (src.itoa a) ≡ ok a)
      → (r : Request) {n : ℕ} {s : Request} → Counted 0 r
      → Follows r n s
      → Counted n s × (n ≤ 3)
  Follows-Counted reads r fresh start = (fresh, omega arith)
  Follows-Counted reads r fresh (follow {n = n} {s = s} now status uri before again returned) =
      let (counted, le) = Follows-Counted reads r fresh before in
      let (value, iff) = next_response reads now n s status counted le in
      let less : n < 3 = iff.0 (uri, again) in (returned ∙ ap ok value, omega arith)

  -- A browser that begins without a counting cookie follows at most three redirects of failed requests,
  -- and then, and only then, the next failure is not answered with a redirect to try again.
  pub Follows-ends :
      ((a : ℤ) → src.atoi (src.itoa a) ≡ ok a)
      → (r s : Request) (n : ℕ) (e : Error) (now : Time) (status : ℕ)
      → find_cookie r.cookies Cookie.retry ≡ err e
      → Follows r n s
      → (n ≤ 3) × (((uri : String) × ((respond_error src now s status).1 ≡ retried uri)) ↔ (n < 3))
  Follows-ends reads r s n e now status fresh chain =
      let (counted, le) = Follows-Counted reads r (e, fresh) chain in
      (le, (next_response reads now n s status counted le).1)

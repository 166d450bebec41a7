-- ===== src/ErrorHandler/Attempts.antt =====
-- How often a failed request is tried again (pkg/handler/error/error.go).
use wonderwall.Base.{
  ap, ℕ, suc, ◌≤◌, ◌<◌, String, ◌==◌, ◌≡◌, ◌≢◌, ◌↔◌, refl, some, ok, if◌then◌else◌, arith,
  Bool-cases, Result-cases, inl, inr,
}
use wonderwall.Base.Int.{ℤ, pos, ◌+ℤ◌, ltb_ℤ, max_int64, wrap64_of_fits}
use wonderwall.Http.{Request, find_cookie}
use wonderwall.Cookie
use wonderwall.Cookie.{make, unset_expiry}
use wonderwall.Session.Metadata.{Time}
use wonderwall.ErrorHandler.{
  Source, retried, respond_error, show_error, default_error_response, custom_error_redirect,
  get_retry_attempts, attempts_of, increment_retry_attempt, next_attempt, retry, nil_on_error,
}

one_more : (n : ℕ) → pos n +ℤ pos 1 ≡ pos (suc n)
unfolding ◌+ℤ◌
one_more n = ground arith

module _ (src : Source) where
  show_error_final :
      (r : Request) (status : ℕ) (uri : String) → show_error src r status ≢ retried uri
  unfolding show_error default_error_response custom_error_redirect
  show_error_final r status uri e = elim (Bool-cases (src.error_path == "")) [
    | inl t ↦ ground arith
    | inr f ↦ elim (Result-cases (src.urls.parse src.error_path)) [
      | inl (u, h) ↦ ground arith
      | inr (x, h) ↦ ground arith
    ]
  ]

  get_retry_attempts_counted :
      ((a : ℤ) → src.atoi (src.itoa a) ≡ ok a)
      → (r : Request) (n : ℕ) → find_cookie r.cookies Cookie.retry ≡ ok (src.itoa (pos n))
      → get_retry_attempts src r ≡ some (pos n)
  unfolding get_retry_attempts attempts_of
  get_retry_attempts_counted reads r n h = rw h (rw (reads (pos n)) refl)

  -- A failed request whose cookie counts `n` attempts is tried again if `n` is less than three, and only
  -- then; the new cookie counts one more.
  pub respond_error_attempts :
      ((a : ℤ) → src.atoi (src.itoa a) ≡ ok a)
      → (now : Time) (r : Request) (status n : ℕ) → suc n ≤ max_int64
      → find_cookie r.cookies Cookie.retry ≡ ok (src.itoa (pos n))
      → let (cookie, outcome) = respond_error src now r status in
        (cookie.value ≡ src.itoa (pos (suc n)))
        × (((uri : String) × (outcome ≡ retried uri)) ↔ (n < 3))
  unfolding respond_error increment_retry_attempt next_attempt unset_expiry make
  respond_error_attempts reads now r status n fits h =
      let counted = get_retry_attempts_counted reads r n h in
      (
        rw counted (ap src.itoa (rw (one_more n) (wrap64_of_fits (suc n) fits))),
        elim (Bool-cases (ltb_ℤ (pos n) (pos 3))) [
          | inl t ↦ (
            λ q. ground arith,
            λ q. (
              retry src r (nil_on_error (src.login_cookie r)),
              rw counted (rw (t, if◌then◌else◌) refl),
            ),
          )
          | inr f ↦ (
            λ q. absurd (show_error_final r status q.0 (ground (arith, counted, q.1))),
            λ q. absurd (ground arith),
          )
        ],
      )

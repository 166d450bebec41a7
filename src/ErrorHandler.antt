-- ===== src/ErrorHandler.antt =====
-- pkg/handler/error/error.go: a request that failed is tried again by a redirect, up to three times in a
-- row, which a cookie counts; then the browser gets an error page. Logging and the template are left out.
pub mod Attempts
pub mod Ending
use Prim.Native.String.{[] as empty, ◌∷◌ as cons, ◌++◌ as append}
use wonderwall.Base.{
  ℕ, String, ◌==◌, Bool, true, false, ◌||◌, Option, none, some, List, [], ◌∷◌, ◌++◌, Result, ok,
  err, if◌then◌else◌,
}
use wonderwall.Base.Int.{ℤ, pos, ◌+ℤ◌, ltb_ℤ, wrap64}
use wonderwall.Http.{
  Pairs, Encoding, HttpCookie, RawUrlEncoding, Request, Url, UrlLibrary, find_cookie,
}
use wonderwall.Cookie
use wonderwall.Cookie.{Options, make, unset_expiry}
use wonderwall.Redirect.{canonical_redirect, login_url}
use wonderwall.Session.Metadata.{Time, Duration}
use wonderwall.OpenId.Client.Login.{LoginCookie}

abbrev pub max_auto_retry_attempts : ℤ
max_auto_retry_attempts = pos 3

-- `page` has the status and the URI of its link.
pub data Outcome : Type 0 where
  retried : String → Outcome
  custom : String → Outcome
  page : ℕ → String → Outcome

-- strings.HasSuffix
has_suffix : String → String → Bool
has_suffix empty t = empty == t
has_suffix (cons c s) t = cons c s == t || has_suffix s t

abbrev or_referer : Option LoginCookie → String → String
or_referer none redirect = redirect
or_referer (some c) redirect = if c.referer == "" then redirect else c.referer

-- The handler's source and the libraries: `atoi` and `itoa` are strconv's, `parse_query` is
-- `URL.Query`, `whole_seconds` is `int(d.Seconds())`.
pub record Source : Type 0 where
  pub cookie_options : Request → Options
  pub error_path : String
  pub path : Request → String
  pub correlation_id : Request → String
  pub login_cookie : Request → Result LoginCookie
  pub encoding : Encoding
  pub raw : RawUrlEncoding
  pub urls : UrlLibrary
  pub parse_query : String → Pairs
  pub atoi : String → Result ℤ
  pub itoa : ℤ → String
  pub whole_seconds : Duration → ℤ

abbrev pub nil_on_error : {A : Type 0} → Result A → Option A
nil_on_error (ok a) = some a
nil_on_error (err _) = none

next_attempt : Option ℤ → ℤ
next_attempt none = pos 1
next_attempt (some prev) = wrap64 (prev +ℤ pos 1)

abbrev pub may_retry : Option ℤ → Bool
may_retry none = true
may_retry (some attempts) = ltb_ℤ attempts max_auto_retry_attempts

module _ (src : Source) where
  unfoldable pub retry : Request → Option LoginCookie → String
  unfolding has_suffix
  retry r login_cookie =
      if has_suffix r.path "/oauth2/logout" || has_suffix r.path "/oauth2/logout/frontchannel"
      then r.path
      else login_url src.urls src.encoding src.raw (src.path r)
          (or_referer login_cookie (canonical_redirect src.urls src.encoding src.raw r))

  attempts_of : Result String → Option ℤ
  attempts_of (err _) = none
  attempts_of (ok value) = nil_on_error (src.atoi value)

  unfoldable pub get_retry_attempts : Request → Option ℤ
  unfolding attempts_of
  get_retry_attempts r = attempts_of (find_cookie r.cookies Cookie.retry)

  -- The cookie that is set.
  unfoldable pub increment_retry_attempt : Time → Request → HttpCookie
  unfolding next_attempt
  increment_retry_attempt now r = unset_expiry (
      make src.whole_seconds now Cookie.retry (src.itoa (next_attempt (get_retry_attempts r)))
        (src.cookie_options r))

  default_error_response : Request → ℕ → Outcome
  default_error_response r status_code =
      page status_code (retry r (nil_on_error (src.login_cookie r)))

  custom_error_redirect : Request → ℕ → Url → Outcome
  custom_error_redirect r status_code override = custom (
      src.urls.print (record override {
        scheme = "";
        host = "";
        raw_query = src.urls.encode (
            src.parse_query override.raw_query
            ++ ("correlation_id", src.correlation_id r)
              ∷ ("status_code", src.itoa (pos status_code))
              ∷ []);
      }))

  -- Once there are no more attempts.
  unfoldable pub show_error : Request → ℕ → Outcome
  unfolding default_error_response custom_error_redirect
  show_error r status_code =
      if src.error_path == ""
      then default_error_response r status_code
      else elim (src.urls.parse src.error_path) [
        | ok override ↦ custom_error_redirect r status_code override
        | err _ ↦ default_error_response r status_code
      ]

  unfoldable pub respond_error : Time → Request → ℕ → HttpCookie × Outcome
  unfolding increment_retry_attempt show_error
  respond_error now r status_code = (
    increment_retry_attempt now r,
    if may_retry (get_retry_attempts r)
        then retried (retry r (nil_on_error (src.login_cookie r)))
        else show_error r status_code,
  )

-- ===== src/Tests/Errors.antt =====
-- The error handler at concrete inputs.
use wonderwall.Base.{String, ◌≡◌, ◌↔◌, ◌<◌, ◌≤◌, err, no_cookie, refl, arith, [], ◌∷◌, ok}
use wonderwall.Base.Int.{pos}
use wonderwall.Http.{Request, find_cookie}
use wonderwall.Cookie
use wonderwall.Cookie.{default_options}
use wonderwall.ErrorHandler.{Source, retried, respond_error, get_retry_attempts}
use wonderwall.ErrorHandler.Ending.{start, follow, Follows-ends}
use wonderwall.ErrorHandler.Attempts.{respond_error_attempts}
use wonderwall.Tests.Codecs.{plain_encoding, plain_itoa, plain_atoi, plain_atoi-plain_itoa}
use wonderwall.Tests.Flows.{plain_raw, plain_urls, request, login_cookie}

abbrev source : Source
source = record {
  cookie_options = λ r. default_options;
  error_path = "/error";
  path = λ r. "/app";
  correlation_id = λ r. "id";
  login_cookie = λ r. ok login_cookie;
  encoding = plain_encoding;
  raw = plain_raw;
  urls = plain_urls;
  parse_query = λ q. [];
  atoi = plain_atoi;
  itoa = plain_itoa;
  whole_seconds = λ d. d;
}

abbrev failed_twice : Request
failed_twice = record request { cookies = (Cookie.retry, plain_itoa (pos 2)) ∷ [] }

cookie_of_failed : find_cookie failed_twice.cookies Cookie.retry ≡ ok (plain_itoa (pos 2))
unfolding find_cookie
cookie_of_failed = refl

respond_error_attempts_example :
    let (cookie, outcome) = respond_error source (pos 7) failed_twice 500 in
    (cookie.value ≡ plain_itoa (pos 3)) × (((uri : String) × (outcome ≡ retried uri)) ↔ (2 < 3))
respond_error_attempts_example =
    respond_error_attempts source plain_atoi-plain_itoa (pos 7) failed_twice 500 2 (omega arith)
      cookie_of_failed

fresh_request : find_cookie request.cookies Cookie.retry ≡ err no_cookie
unfolding find_cookie
fresh_request = refl

abbrev failed_once : Request
failed_once = record request {
  cookies = (Cookie.retry, (respond_error source (pos 7) request 500).0.value) ∷ [];
}

answered_once : (uri : String) × ((respond_error source (pos 7) request 500).1 ≡ retried uri)
unfolding respond_error get_retry_attempts find_cookie
answered_once = (_, refl)

returned_once :
    find_cookie failed_once.cookies Cookie.retry
    ≡ ok (respond_error source (pos 7) request 500).0.value
unfolding find_cookie
returned_once = refl

Follows-ends_example :
    (1 ≤ 3)
    × (((uri : String) × ((respond_error source (pos 8) failed_once 502).1 ≡ retried uri))
        ↔ (1 < 3))
Follows-ends_example =
    Follows-ends source plain_atoi-plain_itoa request failed_once 1 no_cookie (pos 8) 502
      fresh_request (follow (pos 7) 500 answered_once.0 start answered_once.1 returned_once)

-- ===== src/Api.antt =====
-- The handlers of the routes (pkg/handler/api, pkg/handler/handler_standard.go), as functions that answer
-- a request: they change the world, add cookies to the response, and end with an answer. Logging and
-- counters are left out.
pub mod Answers
pub mod Failures
pub mod Login
pub mod LoginCallback
pub mod Logout
pub mod Sessions
pub mod Proxy
pub mod Isolation
pub mod Ownership
use wonderwall.Base.{ℕ, Bool, String, ◌==◌, Option, none, some, List, [], ◌∷◌, Result}
use wonderwall.Base.Int.{ℤ}
use wonderwall.Base.Retry.{Retrier}
use wonderwall.Http.{Pairs, Request, HttpCookie}
use wonderwall.Cookie
use wonderwall.Cookie.{Options, with_path}
use wonderwall.AutoLogin.{AutoLogin}
use wonderwall.ErrorHandler
use wonderwall.Ingress.{Ingresses, matching_path}
use wonderwall.Loginstatus.{LoginstatusConfig, Client}
use wonderwall.OpenId.Config
use wonderwall.OpenId.Client.Login.{LoginCookie, Setup}
use wonderwall.OpenId.Client.Callback.{Redeemer, get_login_cookie}
use wonderwall.Session.Id
use wonderwall.Session.Metadata.{Duration}
use wonderwall.Session.Handler.{SessionConfig, Env}
use wonderwall.Api.Answers.{Exchange, Reply, failed, then_set}

-- StandardHandler: its parts, and the libraries that the handlers call. `marshal` and `unmarshal` are
-- encoding/json at the login cookie, `atoi` and `itoa` strconv's, `parse_query` is `URL.Query`,
-- `whole_seconds` is `int(d.Seconds())`, `matches` is doublestar.Match.
pub record StandardHandler (W Held Jwks : Type 0) : Type 1 where
  pub auto_login : AutoLogin
  pub cookie_options : Options
  pub error_path : String
  pub ingresses : Ingresses
  pub loginstatus : LoginstatusConfig
  pub loginstatus_client : Client W
  pub open_id : Config.Provider
  pub post_logout_redirect_uri : String
  pub client : Setup W
  pub redeemer : Redeemer W Jwks
  pub env : Env W Held
  pub retrier : Retrier W
  pub session_config : SessionConfig
  pub session_provider : Id.Provider
  pub marshal : LoginCookie → Result String
  pub unmarshal : String → Result LoginCookie
  pub correlation_id : Request → String
  pub parse_query : String → Pairs
  pub atoi : String → Result ℤ
  pub itoa : ℤ → String
  pub whole_seconds : Duration → ℤ
  pub matches : String → String → Bool

module _ {W Held Jwks : Type 0} (src : StandardHandler W Held Jwks) where
  -- The path that the middleware found.
  unfoldable pub get_path : Request → String
  get_path r = elim r.context_path [ some path ↦ path | none ↦ matching_path src.ingresses.paths r ]

  unfoldable pub get_cookie_opts_path_aware : Request → Options
  unfolding get_path
  get_cookie_opts_path_aware r = with_path (get_path r) src.cookie_options

  abbrev pub login_cookie_of : Request → Result LoginCookie
  login_cookie_of r = get_login_cookie src.env.encoding src.env.crypter src.unmarshal r.cookies

  unfoldable pub get_error_handler : ErrorHandler.Source
  unfolding get_path get_cookie_opts_path_aware
  get_error_handler = record {
    cookie_options = get_cookie_opts_path_aware;
    error_path = src.error_path;
    path = get_path;
    correlation_id = src.correlation_id;
    login_cookie = login_cookie_of;
    encoding = src.env.encoding;
    raw = src.client.raw;
    urls = src.client.urls;
    parse_query = src.parse_query;
    atoi = src.atoi;
    itoa = src.itoa;
    whole_seconds = src.whole_seconds;
  }

  -- `respondError` reads the clock for the cookie that it sets.
  unfoldable pub respond : ℕ → Request → Reply W
  unfolding get_error_handler
  respond status r x =
      let (t, v) = src.env.now x.world in
      let (c, outcome) = ErrorHandler.respond_error get_error_handler t r status in
      then_set c (λ y. (failed outcome, y)) (record x { world = v })

  abbrev pub internal_error : Request → Reply W
  internal_error = respond 500

  abbrev pub bad_request : Request → Reply W
  bad_request = respond 400

  abbrev pub unauthorized : Request → Reply W
  unauthorized = respond 401

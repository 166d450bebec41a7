-- ===== src/Router.antt =====
-- pkg/router/router.go: which handler answers a request, and pkg/handler/handler_standard.go, which has the
-- handlers. How chi finds the handler of a request among the registered routes is a parameter.
pub mod Callbacks
pub mod Ownership
pub mod Histories
pub mod Isolation
use Prim.Native.String.{◌++◌ as append}
use wonderwall.Base.{ℕ, String, true, false, ◌≡◌, List, [], ◌∷◌, map}
use wonderwall.Base.Lists.{contains}
use wonderwall.Http.{Request, HttpCookie, Url}
use wonderwall.Redirect.{oauth2, login, login_callback, logout_callback}
use wonderwall.Middleware.{ingress_handler}
use wonderwall.Api.{StandardHandler}
use wonderwall.Api.Answers.{Answer, Exchange, Reply, begin}
use wonderwall.Api.Login
use wonderwall.Api.LoginCallback
use wonderwall.Api.Logout
use wonderwall.Api.Sessions
use wonderwall.Api.Proxy
use wonderwall.Api.Proxy.{Proxied}

-- The methods of `Handlers`, but for ReverseProxy.
pub data Endpoint : Type 0 where
  to_login to_login_callback to_logout to_logout_callback : Endpoint
  to_logout_front_channel to_logout_local to_session to_session_refresh : Endpoint

pub record Route : Type 0 where
  pub method : String
  pub pattern : String
  pub endpoint : Endpoint

abbrev get : String → Endpoint → Route
get pattern endpoint = record { method = "GET"; pattern = pattern; endpoint = endpoint }

-- The routes of one prefix.
abbrev pub routes : List Route
routes =
    get login to_login
    ∷ get login_callback to_login_callback
    ∷ get "/logout" to_logout
    ∷ get logout_callback to_logout_callback
    ∷ get "/logout/frontchannel" to_logout_front_channel
    ∷ get "/logout/local" to_logout_local
    ∷ get "/session" to_session
    ∷ get "/session/refresh" to_session_refresh
    ∷ record { method = "POST"; pattern = "/session/refresh"; endpoint = to_session_refresh }
    ∷ []

-- A call of `r.Route`.
pub record Mount : Type 0 where
  pub pattern : String
  pub routes : List Route

abbrev pub mount_at : String → Mount
mount_at prefix = record { pattern = append prefix oauth2; routes = routes }

-- The loop over the prefixes.
unfoldable pub mounts : List String → List Mount
mounts prefixes = map mount_at prefixes

-- What chi finds: a route, the route of all other paths, or a status for a path under a mount that has no
-- route, or none for the method.
pub data Found : Type 0 where
  endpoint : Endpoint → Found
  catch_all : Found
  refused : ℕ → Found

-- By the method and the path of a request.
abbrev pub Chi : Type 0
Chi = List Mount → String → String → Found

pub data Response : Type 0 where
  answered : Answer → List HttpCookie → Response
  passed : Proxied → Response
  no_route : ℕ → Response

module _ {W Held Jwks : Type 0} (src : StandardHandler W Held Jwks) where
  -- The methods of StandardHandler. `Logout` is global, `LogoutLocal` is not.
  unfoldable pub handler : Endpoint → Request → Reply W
  handler to_login = Login.login src
  handler to_login_callback = LoginCallback.login_callback src
  handler to_logout = Logout.logout src true
  handler to_logout_callback = Logout.logout_callback src
  handler to_logout_front_channel = Logout.logout_front_channel src
  handler to_logout_local = Logout.logout src false
  handler to_session = Sessions.session src
  handler to_session_refresh = Sessions.session_refresh src

  abbrev pub answer : Reply W → W → Response × W
  answer reply w = let (a, x) = reply (begin w) in (answered a x.cookies, x.world)

  abbrev pub dispatch : Found → Request → String → W → Response × W
  dispatch (endpoint e) r url w = answer (handler e r) w
  dispatch catch_all r url w = let (p, v) = Proxy.proxy src r url w in (passed p, v)
  dispatch (refused s) r url w = (no_route s, w)

  -- A request that comes to the router; `visited` has the ingresses in the order of the middleware.
  unfoldable pub serve : Chi → List Url → Request → String → W → Response × W
  unfolding mounts
  serve chi visited r url =
      dispatch (chi (mounts src.ingresses.paths) r.method r.path)
        (ingress_handler src.ingresses visited r) url

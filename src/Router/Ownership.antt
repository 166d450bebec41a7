-- ===== src/Router/Ownership.antt =====
-- Which entries of the store a request changes, by the handler that it is sent to (pkg/router/router.go).
use wonderwall.Base.{true, false, String, ◌≡◌, List, ok, arith}
use wonderwall.Http.{Request, Url}
use wonderwall.Ingress.{Ingresses}
use wonderwall.Middleware.{ingress_handler}
use wonderwall.OpenId.Client.Logout.{new_logout_frontchannel}
use wonderwall.Session.Id.{key}
use wonderwall.Session.Store.{Entries}
use wonderwall.Session.Handler.{get_key}
use wonderwall.Session.Handler.Ownership.{Surroundings}
use wonderwall.Api.{StandardHandler}
use wonderwall.Api.Answers.{begin}
use wonderwall.Api.Ownership.{IsOutside, InOrder}
use wonderwall.Api.Ownership.Logins.{login-Safely, login_callback-Safely}
use wonderwall.Api.Ownership.Sessions.{
  logout_callback-Safely, logout-Safely, session-Safely, session_refresh-Safely, proxy-InOrder,
  logout_front_channel-Safely,
}
use wonderwall.Router.{
  to_login, to_login_callback, to_logout, to_logout_callback, to_logout_front_channel,
  to_logout_local, to_session, to_session_refresh, Found, endpoint, catch_all, refused, handler,
  dispatch,
}

-- The middleware that finds the ingress leaves the cookies and the parameters of a request.
pub ingress_handler_rest :
    (i : Ingresses) (visited : List Url) (r : Request)
    → ((ingress_handler i visited r).cookies ≡ r.cookies)
      × ((ingress_handler i visited r).query ≡ r.query)
unfolding ingress_handler
ingress_handler_rest i visited r = (ground arith, ground arith)

module _ {W Held Jwks : Type 0} (src : StandardHandler W Held Jwks) (entries : W → Entries)
    (Mine : String → Type 0) (old : Entries)
    (rely : Surroundings src.env src.retrier src.session_provider entries Mine old)
    (quiet : IsOutside src entries) where
  abbrev P : W → Type 0
  P = InOrder src entries Mine old rely

  -- The key of the request's cookie is mine.
  abbrev pub Holds : Request → Type 0
  Holds r =
      (k : String)
      → get_key src.env src.retrier src.session_config src.session_provider r.cookies ≡ ok k
      → Mine k

  -- The keys that a request may concern are mine.
  abbrev pub Permits : Found → Request → Type 0
  Permits (endpoint to_login) r = Unit
  Permits (endpoint to_login_callback) r = (id : String) → Mine (key src.session_provider id)
  Permits (endpoint to_logout_callback) r = Unit
  Permits (endpoint to_logout_front_channel) r =
      Mine (key src.session_provider (new_logout_frontchannel r).sid)
  Permits (endpoint to_logout) r = Holds r
  Permits (endpoint to_logout_local) r = Holds r
  Permits (endpoint to_session) r = Holds r
  Permits (endpoint to_session_refresh) r = Holds r
  Permits catch_all r = Holds r
  Permits (refused s) r = Unit

  pub dispatch-InOrder :
      (f : Found) (r : Request) (url : String) (w : W)
      → Permits f r
      → P w
      → P (dispatch src f r url w).1
  unfolding handler
  dispatch-InOrder (endpoint to_login) r url w h p =
      login-Safely src entries Mine old rely quiet r (begin w) p
  dispatch-InOrder (endpoint to_login_callback) r url w h p =
      login_callback-Safely src entries Mine old rely quiet h r (begin w) p
  dispatch-InOrder (endpoint to_logout_callback) r url w h p =
      logout_callback-Safely src entries Mine old rely r (begin w) p
  dispatch-InOrder (endpoint to_logout_front_channel) r url w h p =
      logout_front_channel-Safely src entries Mine old rely r h (begin w) p
  dispatch-InOrder (endpoint to_logout) r url w h p =
      logout-Safely src entries Mine old rely r h true (begin w) p
  dispatch-InOrder (endpoint to_logout_local) r url w h p =
      logout-Safely src entries Mine old rely r h false (begin w) p
  dispatch-InOrder (endpoint to_session) r url w h p =
      session-Safely src entries Mine old rely r h (begin w) p
  dispatch-InOrder (endpoint to_session_refresh) r url w h p =
      session_refresh-Safely src entries Mine old rely r h (begin w) p
  dispatch-InOrder catch_all r url w h p = proxy-InOrder src entries Mine old rely r h url w p
  dispatch-InOrder (refused s) r url w h p = p

-- ===== src/Router/Isolation.antt =====
-- A request changes the session that it is about and no other (pkg/router/router.go, pkg/handler).
use wonderwall.Base.{String, ◌≡◌, ◌≢◌, ◌∙◌, refl, sym, ap, List, ok}
use wonderwall.Http.{Request, Url, get}
use wonderwall.Middleware.{ingress_handler}
use wonderwall.OpenId.Client.Logout.{new_logout_frontchannel}
use wonderwall.Session.Id.{key}
use wonderwall.Session.Store.{Entries}
use wonderwall.Session.Handler.{get_key}
use wonderwall.Session.Handler.Ownership.{WellKeyed, IsOwned, Surroundings}
use wonderwall.Api.{StandardHandler}
use wonderwall.Api.Ownership.{IsOutside}
use wonderwall.Router.Ownership.{ingress_handler_rest, Permits, dispatch-InOrder}
use wonderwall.Router.{
  Chi, to_login, to_login_callback, to_logout, to_logout_callback, to_logout_front_channel,
  to_logout_local, to_session, to_session_refresh, Found, endpoint, catch_all, refused, mounts,
  serve,
}

module _ {W Held Jwks : Type 0} (src : StandardHandler W Held Jwks) (chi : Chi)
    (entries : W → Entries) (j : String) (w : W)
    (rely : Surroundings src.env src.retrier src.session_provider entries (λ k. k ≢ j) (entries w))
    (quiet : IsOutside src entries) where
  permitted :
      (f : Found) (r : Request)
      → f ≢ endpoint to_login_callback
      → get_key src.env src.retrier src.session_config src.session_provider r.cookies ≢ ok j
      → key src.session_provider (new_logout_frontchannel r).sid ≢ j
      → Permits src entries (λ k. k ≢ j) (entries w) rely quiet f r
  permitted (endpoint to_login) r n other sid = tt
  permitted (endpoint to_login_callback) r n other sid = absurd (n refl)
  permitted (endpoint to_logout_callback) r n other sid = tt
  permitted (endpoint to_logout_front_channel) r n other sid = sid
  permitted (endpoint to_logout) r n other sid = λ k h same. other (h ∙ ap ok same)
  permitted (endpoint to_logout_local) r n other sid = λ k h same. other (h ∙ ap ok same)
  permitted (endpoint to_session) r n other sid = λ k h same. other (h ∙ ap ok same)
  permitted (endpoint to_session_refresh) r n other sid = λ k h same. other (h ∙ ap ok same)
  permitted catch_all r n other sid = λ k h same. other (h ∙ ap ok same)
  permitted (refused s) r n other sid = tt

  -- Where each entry is data of the session of its key, a request leaves an entry alone unless the key of
  -- the entry is the one in its session cookie, it names the session to the front-channel logout, or it is
  -- a login callback; this holds of each route and of the reverse proxy, on errors too.
  pub serve_keeps :
      (visited : List Url) (r : Request) (url : String)
      → WellKeyed src.env src.session_provider (entries w)
      → chi (mounts src.ingresses.paths) r.method r.path ≢ endpoint to_login_callback
      → get_key src.env src.retrier src.session_config src.session_provider r.cookies ≢ ok j
      → key src.session_provider (new_logout_frontchannel r).sid ≢ j
      → entries (serve src chi visited r url w).1 j ≡ entries w j
  unfolding serve
  serve_keeps visited r url keyed callback other sid =
      let f = chi (mounts src.ingresses.paths) r.method r.path in
      let r' = ingress_handler src.ingresses visited r in
      let rest = ingress_handler_rest src.ingresses visited r in
      let may =
        permitted f r' callback
          (λ e. other (
            ap (get_key src.env src.retrier src.session_config src.session_provider) (sym rest.0)
            ∙ e))
          (λ e. sid (ap (λ q. key src.session_provider (get q "sid")) (sym rest.1) ∙ e)) in
      let before : IsOwned src.env src.session_provider (λ k. k ≢ j) (entries w) (entries w) =
        record { keyed = keyed; others = λ k mine. refl } in
      (dispatch-InOrder src entries (λ k. k ≢ j) (entries w) rely quiet f r' url w may
          before).others
        j (λ mine. mine refl)

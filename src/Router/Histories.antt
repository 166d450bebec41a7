-- ===== src/Router/Histories.antt =====
-- What the server makes of its store, request after request (pkg/router/router.go).
use wonderwall.Base.{String, ◌≡◌, subst, none, List, ok}
use wonderwall.Base.Ensures.{OnOk-elim}
use wonderwall.Http.{Request, Url}
use wonderwall.Middleware.{ingress_handler}
use wonderwall.Session.Data.{Data}
use wonderwall.Session.Id.{key}
use wonderwall.Session.Store.{Entries}
use wonderwall.Session.Handler.{get_for_key}
use wonderwall.Session.Handler.Ownership.{WellKeyed, IsOwned, Surroundings, get_for_key-Owned}
use wonderwall.Api.{StandardHandler}
use wonderwall.Api.Ownership.{IsOutside}
use wonderwall.Router.Ownership.{Permits, dispatch-InOrder}
use wonderwall.Router.{
  Chi, to_login, to_login_callback, to_logout, to_logout_callback, to_logout_front_channel,
  to_logout_local, to_session, to_session_refresh, Found, endpoint, catch_all, refused, mounts,
  serve,
}

-- What happened since a state of the world: requests that were served one after another, and what others
-- did in between.
module _ {W Held Jwks : Type 0} (src : StandardHandler W Held Jwks) (chi : Chi) where
  pub data History (since : W) : W → Type 0 where
    started : History since since
    served :
        {v w : W} (visited : List Url) (r : Request) (url : String)
        → History since v
        → (serve src chi visited r url v).1 ≡ w
        → History since w
    elapsed : {v w : W} → History since v → src.retrier.Elapse v w → History since w

  module _ (entries : W → Entries)
      (rely : Surroundings src.env src.retrier src.session_provider entries (λ k. Unit) (λ k. none))
      (quiet : IsOutside src entries) where
    any_request :
        (f : Found) (r : Request) → Permits src entries (λ k. Unit) (λ k. none) rely quiet f r
    any_request (endpoint to_login) r = tt
    any_request (endpoint to_login_callback) r = λ id. tt
    any_request (endpoint to_logout_callback) r = tt
    any_request (endpoint to_logout_front_channel) r = tt
    any_request (endpoint to_logout) r = λ k h. tt
    any_request (endpoint to_logout_local) r = λ k h. tt
    any_request (endpoint to_session) r = λ k h. tt
    any_request (endpoint to_session_refresh) r = λ k h. tt
    any_request catch_all r = λ k h. tt
    any_request (refused s) r = tt

    owned :
        (m : Entries)
        → WellKeyed src.env src.session_provider m
        → IsOwned src.env src.session_provider (λ k. Unit) (λ k. none) m
    owned m h = record { keyed = h; others = λ j n. absurd (n tt) }

    serve-WellKeyed :
        (visited : List Url) (r : Request) (url : String) (w : W)
        → WellKeyed src.env src.session_provider (entries w)
        → WellKeyed src.env src.session_provider (entries (serve src chi visited r url w).1)
    unfolding serve
    serve-WellKeyed visited r url w h =
        let f = chi (mounts src.ingresses.paths) r.method r.path in
        let r' = ingress_handler src.ingresses visited r in
        (dispatch-InOrder src entries (λ k. Unit) (λ k. none) rely quiet f r' url w
          (any_request f r') (owned (entries w) h)).keyed

    -- Whatever requests a server answers, in any order, each entry of the store remains the data of the
    -- session of its key.
    pub History-WellKeyed :
        {since w : W}
        → WellKeyed src.env src.session_provider (entries since)
        → History since w
        → WellKeyed src.env src.session_provider (entries w)
    History-WellKeyed h started = h
    History-WellKeyed h (served visited r url before e) =
        subst (λ v. WellKeyed src.env src.session_provider (entries v)) e
          (serve-WellKeyed visited r url _ (History-WellKeyed h before))
    History-WellKeyed h (elapsed before t) =
        (rely.waits _ _ t (owned _ (History-WellKeyed h before))).keyed

    -- Begun with an empty store, whatever requests a server answers and in whatever order, with what
    -- others do in between: the data that is found under a key is that of the session of the key.
    pub History-found :
        {since w : W}
        → ((k : String) → entries since k ≡ none)
        → History since w
        → (k : String) (d : Data)
        → (get_for_key src.env src.retrier src.session_config src.session_provider k w).0 ≡ ok d
        → key src.session_provider d.external_session_id ≡ k
    History-found {since} {w} empty history k d h =
        let keyed = History-WellKeyed (λ j e there d' opened. cc (empty j)) history in
        let found =
          get_for_key-Owned src.env src.retrier src.session_config src.session_provider entries
            (λ j. Unit) (λ j. none) rely k in
        OnOk-elim _ _ d (found.at w (owned (entries w) keyed)).1 h

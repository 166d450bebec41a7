-- ===== src/Api/Ownership/Sessions.antt =====
-- A request with a session changes the entry of that session only (pkg/handler/api/logout,
-- logoutfrontchannel, session, sessionrefresh, pkg/handler/reverseproxy).
use wonderwall.Base.{
  ℕ, String, ◌≡◌, Bool, Error, Result, ok, err, key_not_found, cookie_not_found, session_inactive,
  invalid_state,
}
use wonderwall.Base.Action.{lift}
use wonderwall.Base.Ensures.{OnOk, Anything, Ensures, Preserves, lift-Ensures}
use wonderwall.Http.{Request}
use wonderwall.Cookie.{Options}
use wonderwall.Loginstatus.{clear_cookie}
use wonderwall.OpenId.Client.Logout.{
  Logout, new_logout, new_logout_frontchannel, missing_sid_parameter,
}
use wonderwall.Session.Data.{Data}
use wonderwall.Session.Id.{key}
use wonderwall.Session.Store.{Entries}
use wonderwall.Session.Handler.{attempt, create, get_key, get_for_id, destroy_for_id}
use wonderwall.Session.Handler
use wonderwall.Session.Handler.Ownership.{Surroundings, destroy_for_key-Owned, get_for_key-Owned}
use wonderwall.Session.Handler.Ownership.Refreshes.{
  refresh-Owned, get-Owned, get_access_token-Owned,
}
use wonderwall.Api.Answers.{Reply, status}
use wonderwall.Api.Answers.Preservation.{
  Safely, ends-Safely, then_set-Safely, then_set_all-Safely, if-Safely, on_result-Safely,
  on_error-Safely,
}
use wonderwall.Api.{StandardHandler, respond}
use wonderwall.Api.Login.{encrypted}
use wonderwall.Api.Logout.{
  logout, logout_callback, logout_front_channel, clear_local, destroy_found, destroy_sid,
  end_logout, unless_gone,
}
use wonderwall.Api.Sessions.{
  session, session_refresh, refresh_session, report, report_with_refresh, session_failure,
  get_failure, refresh_failure,
}
use wonderwall.Api.Proxy.{proxy}
use wonderwall.Api.Ownership.{InOrder, now-InOrder, set_cookie-InOrder, respond-InOrder}

module _ {W Held Jwks : Type 0} (src : StandardHandler W Held Jwks) (entries : W → Entries)
    (Mine : String → Type 0) (old : Entries)
    (rely : Surroundings src.env src.retrier src.session_provider entries Mine old) where
  abbrev P : W → Type 0
  P = InOrder src entries Mine old rely

  respond-P : (status : ℕ) (r : Request) → Safely P (respond src status r)
  respond-P = respond-InOrder src entries Mine old rely

  cookie-P : (name value : String) (opts : Options) → Preserves P (encrypted src name value opts)
  cookie-P = set_cookie-InOrder src entries Mine old rely

  now-P : (w : W) → P w → P (src.env.now w).1
  now-P w p = ((now-InOrder src entries Mine old rely).at w p).0

  report-P : (d : Data) → Safely P (report src d)
  report-P d x p = now-P _ (now-P x.world p)

  report_with_refresh-P : (d : Data) → Safely P (report_with_refresh src d)
  report_with_refresh-P d x p = now-P _ (now-P _ (now-P _ (now-P _ (now-P x.world p))))

  session_failure-P : (e : Error) → Safely P (session_failure src e)
  session_failure-P key_not_found = ends-Safely P (status 401)
  session_failure-P cookie_not_found = ends-Safely P (status 401)
  session_failure-P _ = ends-Safely P (status 500)

  get_failure-P : (e : Error) → Safely P (get_failure src e)
  get_failure-P key_not_found = ends-Safely P (status 401)
  get_failure-P session_inactive = ends-Safely P (status 401)
  get_failure-P _ = ends-Safely P (status 500)

  refresh_failure-P : (e : Error) → Safely P (refresh_failure src e)
  refresh_failure-P invalid_state = ends-Safely P (status 401)
  refresh_failure-P _ = ends-Safely P (status 500)

  clear_local-P : (r : Request) (rest : Reply W) → Safely P rest → Safely P (clear_local src r rest)
  unfolding clear_local
  clear_local-P r rest safe = then_set-Safely P _ _ (
      if-Safely P src.loginstatus.enabled _ rest
        (then_set_all-Safely P (clear_cookie src.loginstatus src.cookie_options) rest safe) safe)

  unless_gone-P :
      (r : Request) (rest : Reply W) (e : Error)
      → Safely P rest
      → Safely P (unless_gone src r rest e)
  unless_gone-P r rest key_not_found safe = safe
  unless_gone-P r rest _ safe = respond-P 500 r

  end_logout-P :
      (b : Bool) (r : Request) (l : Logout) (t : String) → Safely P (end_logout src b r l t)
  unfolding end_logout
  end_logout-P b r l t =
      clear_local-P r _ (if-Safely P b _ _ (ends-Safely P _) (ends-Safely P (status 200)))

  destroy-P :
      (id : String)
      → Mine (key src.session_provider id)
      → Preserves P (destroy_for_id src.env src.retrier src.session_config src.session_provider id)
  unfolding destroy_for_id
  destroy-P id =
      destroy_for_key-Owned src.env src.retrier src.session_config src.session_provider entries Mine
        old rely (key src.session_provider id)

  destroy_found-P :
      (r : Request) (rest : String → Reply W) (f : Result Data)
      → ((t : String) → Safely P (rest t))
      → OnOk (λ d. Mine (key src.session_provider d.external_session_id)) f
      → Safely P (destroy_found src r rest f)
  unfolding destroy_found
  destroy_found-P r rest (err e) safe mine = safe ""
  destroy_found-P r rest (ok d) safe mine =
      on_error-Safely P Anything _ (destroy-P d.external_session_id mine) _ _
        (λ e. unless_gone-P r (rest d.id_token) e (safe d.id_token)) λ _ _. safe d.id_token

  pub logout_callback-Safely : (r : Request) → Safely P (logout_callback src r)
  unfolding logout_callback
  logout_callback-Safely r = then_set-Safely P _ _ (ends-Safely P _)

  module _ (r : Request)
      (mine : (k : String)
        → get_key src.env src.retrier src.session_config src.session_provider r.cookies ≡ ok k
        → Mine k) where
    get-P :
        Ensures P
          (Handler.get src.env src.retrier src.session_config src.session_provider r.cookies)
          (λ d. Mine (key src.session_provider d.external_session_id))
    get-P =
        get-Owned src.env src.retrier src.session_config src.session_provider entries Mine old rely
          r.cookies mine

    pub logout-Safely : (b : Bool) → Safely P (logout src b r)
    unfolding logout
    logout-Safely b =
        on_error-Safely P Anything _
          (lift-Ensures P Anything (new_logout src.client.urls r) (λ _ _. tt)) _ _
          (λ _. respond-P 500 r)
          λ l _.
            on_result-Safely P (λ d. Mine (key src.session_provider d.external_session_id)) _ get-P
              _ λ f own. destroy_found-P r (end_logout src b r l) f (end_logout-P b r l) own

    key-P :
        Ensures P
          (lift (get_key src.env src.retrier src.session_config src.session_provider r.cookies))
          Mine
    key-P =
        lift-Ensures P Mine
          (get_key src.env src.retrier src.session_config src.session_provider r.cookies) mine

    pub session-Safely : Safely P (session src r)
    unfolding session
    session-Safely =
        on_error-Safely P _ _ get-P _ _ session_failure-P
          λ d _. if-Safely P src.session_config.refresh _ _ (report_with_refresh-P d) (report-P d)

    refresh_session-P : Safely P (refresh_session src r)
    unfolding refresh_session
    refresh_session-P =
        on_error-Safely P Mine _ key-P _ _ (λ _. ends-Safely P (status 401))
          λ k my. on_error-Safely P _ _ get-P _ _ get_failure-P λ d _.
            on_error-Safely P Anything _
              (refresh-Owned src.env src.retrier src.session_config src.session_provider entries
                Mine old rely k my d)
              _ _ refresh_failure-P λ d' _. report_with_refresh-P d'

    pub session_refresh-Safely : Safely P (session_refresh src r)
    unfolding session_refresh
    session_refresh-Safely =
        if-Safely P src.session_config.refresh _ _ refresh_session-P (ends-Safely P (status 404))

    pub proxy-InOrder : (url : String) (w : W) → P w → P (proxy src r url w).1
    unfolding proxy
    proxy-InOrder url w p =
        ((get_access_token-Owned src.env src.retrier src.session_config src.session_provider entries
            Mine old rely r.cookies mine).at
          w p).0

  destroy_sid-P :
      (r : Request) (sid : String)
      → Mine (key src.session_provider sid)
      → Safely P (destroy_sid src r sid)
  unfolding destroy_sid get_for_id
  destroy_sid-P r sid mine =
      on_error-Safely P _ _
        (get_for_key-Owned src.env src.retrier src.session_config src.session_provider entries Mine
          old rely (key src.session_provider sid))
        _ _ (λ _. ends-Safely P (status 202))
        λ d _.
          on_error-Safely P Anything _ (destroy-P sid mine) _ _ (λ _. ends-Safely P (status 202))
            λ _ _. then_set-Safely P _ _ (ends-Safely P (status 200))

  pub logout_front_channel-Safely :
      (r : Request)
      → Mine (key src.session_provider (new_logout_frontchannel r).sid)
      → Safely P (logout_front_channel src r)
  unfolding logout_front_channel
  logout_front_channel-Safely r mine = clear_local-P r _ (
      if-Safely P (missing_sid_parameter (new_logout_frontchannel r)) _ _
        (ends-Safely P (status 202)) (destroy_sid-P r (new_logout_frontchannel r).sid mine))

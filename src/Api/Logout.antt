-- ===== src/Api/Logout.antt =====
-- The three logouts: pkg/handler/api/logout, logoutcallback and logoutfrontchannel.
pub mod Endings
pub mod FrontChannel
use wonderwall.Base.{
  Bool, Error, key_not_found, Option, none, some, String, Result, ok, err, [], if◌then◌else◌,
}
use wonderwall.Base.Action.{Action, lift, pure, catch, ◌>>=◌}
use wonderwall.Http.{Request}
use wonderwall.Cookie
use wonderwall.Cookie.{clear}
use wonderwall.Loginstatus.{clear_cookie}
use wonderwall.OpenId.Client.Logout.{
  Logout, new_logout, single_logout_url, post_logout_redirect_uri, LogoutFrontchannel,
  new_logout_frontchannel, missing_sid_parameter,
}
use wonderwall.Session.Data.{Data}
use wonderwall.Session.Handler.{get, get_for_id, destroy_for_id}
use wonderwall.Api.Answers.{
  Reply, status, redirect, ends, then_set, then_set_all, on_error, on_result,
}
use wonderwall.Api.{StandardHandler, get_cookie_opts_path_aware, internal_error}

module _ {W Held Jwks : Type 0} (src : StandardHandler W Held Jwks) where
  -- The cookies of the session and of the login status.
  unfoldable pub clear_local : Request → Reply W → Reply W
  clear_local r rest = then_set (clear Cookie.session (get_cookie_opts_path_aware src r)) (
      if src.loginstatus.enabled
      then then_set_all (clear_cookie src.loginstatus src.cookie_options) rest
      else rest)

  abbrev pub unless_gone : Request → Reply W → Error → Reply W
  unless_gone r rest key_not_found = rest
  unless_gone r rest _ = internal_error src r

  -- With what `Get` returned: the ID token of the session that was destroyed, or "".
  unfoldable pub destroy_found : Request → (String → Reply W) → Result Data → Reply W
  destroy_found r rest (err _) = rest ""
  destroy_found r rest (ok d) =
      on_error
        (destroy_for_id src.env src.retrier src.session_config src.session_provider
          d.external_session_id)
        (unless_gone r (rest d.id_token)) (λ _. rest d.id_token)

  -- From the cookies on. A local logout writes nothing else, so its status is 200.
  unfoldable pub end_logout : Bool → Request → Logout → String → Reply W
  unfolding clear_local
  end_logout global_logout r l id_token = clear_local r (
      if global_logout
      then ends (
          redirect (
            single_logout_url src.client.urls src.parse_query src.open_id.end_session_endpoint_url l
              id_token))
      else ends (status 200))

  unfoldable pub logout : Bool → Request → Reply W
  unfolding destroy_found end_logout
  logout global_logout r =
      on_error (lift (new_logout src.client.urls r)) (λ _. internal_error src r)
        λ l.
          on_result (get src.env src.retrier src.session_config src.session_provider r.cookies)
            (destroy_found r (end_logout global_logout r l))

  unfoldable pub logout_callback : Request → Reply W
  logout_callback r =
      then_set (clear Cookie.retry (get_cookie_opts_path_aware src r))
        (ends (redirect (post_logout_redirect_uri src.client.urls src.post_logout_redirect_uri r)))

  abbrev pub accepted : Error → Reply W
  accepted _ = ends (status 202)

  -- With the session identifier of the request.
  unfoldable pub destroy_sid : Request → String → Reply W
  destroy_sid r sid =
      on_error (get_for_id src.env src.retrier src.session_config src.session_provider sid) accepted
        λ _.
          on_error (destroy_for_id src.env src.retrier src.session_config src.session_provider sid)
            accepted
            λ _.
              then_set (clear Cookie.retry (get_cookie_opts_path_aware src r)) (ends (status 200))

  unfoldable pub logout_front_channel : Request → Reply W
  unfolding clear_local destroy_sid
  logout_front_channel r = clear_local r (
      if missing_sid_parameter (new_logout_frontchannel r)
      then ends (status 202)
      else destroy_sid r (new_logout_frontchannel r).sid)

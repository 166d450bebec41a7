-- ===== src/Api/LoginCallback.antt =====
-- pkg/handler/api/logincallback/logincallback.go: from the redirect of the provider to a session.
pub mod Checks
pub mod NextRequest
use wonderwall.Base.{Error, String, Result, ok, err, if◌then◌else◌, []}
use wonderwall.Base.Action.{Action, lift, always, ◌>>=◌}
use wonderwall.Base.Retry.{retry_all}
use wonderwall.Http.{Request, HttpCookie, none_mode, default_mode}
use wonderwall.Cookie
use wonderwall.Cookie.{Options, clear, with_same_site, with_expires_in, encrypt_and_set}
use wonderwall.Loginstatus.{TokenResponse, exchange_token, set_cookie}
use wonderwall.OpenId.Token.{Tokens}
use wonderwall.OpenId.Client.Login.{LoginCookie}
use wonderwall.OpenId.Client.Callback.{
  LoginCallback, new_login_callback, identity_provider_error, state_mismatch_error, redeem_tokens,
}
use wonderwall.Session.Handler.{attempt, create}
use wonderwall.Api.Answers.{Reply, redirect, ends, then_set, on_error}
use wonderwall.Api.{
  StandardHandler, login_cookie_of, get_cookie_opts_path_aware, internal_error, unauthorized,
}

module _ {W Held Jwks : Type 0} (src : StandardHandler W Held Jwks) where
  abbrev pub clear_login_cookies : Request → Reply W → Reply W
  clear_login_cookies r rest =
      let opts = get_cookie_opts_path_aware src r in
      then_set (clear Cookie.login (with_same_site none_mode opts))
        (then_set (clear Cookie.login_legacy (with_same_site default_mode opts)) rest)

  -- Any error is tried again.
  abbrev pub redeem_valid_tokens : LoginCallback → Action W Tokens
  redeem_valid_tokens cb =
      src.retrier.run Tokens (attempt retry_all (redeem_tokens src.redeemer cb))

  abbrev pub get_loginstatus_token : Tokens → Action W TokenResponse
  get_loginstatus_token tokens = src.retrier.run TokenResponse (
      attempt retry_all (exchange_token src.loginstatus_client src.loginstatus tokens.access_token))

  abbrev pub set_loginstatus : Request → Tokens → Reply W → Reply W
  set_loginstatus r tokens rest =
      on_error (get_loginstatus_token tokens) (λ _. internal_error src r)
        λ token x.
          let (t, v) = src.env.now x.world in
          then_set (set_cookie src.loginstatus src.whole_seconds t token src.cookie_options) rest
            (record x { world = v })

  abbrev pub finish : Request → LoginCookie → Reply W
  finish r cookie =
      then_set (clear Cookie.retry (get_cookie_opts_path_aware src r))
        (ends (redirect cookie.referer))

  -- The cookie of the login status, if there is one.
  unfoldable pub with_loginstatus : Request → Tokens → Reply W → Reply W
  with_loginstatus r tokens rest =
      if src.loginstatus.enabled then set_loginstatus r tokens rest else rest

  abbrev pub session_options : Request → Options
  session_options r =
      with_expires_in src.session_config.max_lifetime (get_cookie_opts_path_aware src r)

  -- Once there is a session.
  unfoldable pub hand_out : Request → LoginCookie → Tokens → String → Reply W
  unfolding with_loginstatus
  hand_out r cookie tokens key =
      on_error
        (encrypt_and_set src.env.encoding src.env.crypter src.whole_seconds src.env.now
          Cookie.session key (session_options r))
        (λ _. internal_error src r) λ c. then_set c (with_loginstatus r tokens (finish r cookie))

  -- Once the request has passed the checks.
  unfoldable pub start_session : Request → LoginCookie → LoginCallback → Reply W
  unfolding hand_out
  start_session r cookie cb =
      on_error (redeem_valid_tokens cb) (λ _. internal_error src r)
        λ tokens.
          on_error
            (create src.env src.retrier src.session_config src.session_provider r.query tokens
              src.session_config.max_lifetime)
            (λ _. internal_error src r) (hand_out r cookie tokens)

  unfoldable pub checked_callback : Request → LoginCookie → LoginCallback → Reply W
  unfolding start_session
  checked_callback r cookie cb =
      on_error (lift (identity_provider_error cb)) (λ _. internal_error src r)
        λ _.
          on_error (lift (state_mismatch_error cb)) (λ _. unauthorized src r)
            λ _. start_session r cookie cb

  unfoldable pub login_callback : Request → Reply W
  unfolding checked_callback
  login_callback r = clear_login_cookies r (
      on_error (lift (login_cookie_of src r)) (λ _. unauthorized src r)
        λ cookie.
          on_error (lift (new_login_callback src.client.urls r cookie)) (λ _. internal_error src r)
            (checked_callback r cookie))

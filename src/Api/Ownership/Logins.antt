-- ===== src/Api/Ownership/Logins.antt =====
-- A login leaves the store alone, and its callback changes the entry of the new session only
-- (pkg/handler/api/login, logincallback).
use wonderwall.Base.{ℕ, String, Error, Result, ok, err, invalid_security_level, invalid_locale}
use wonderwall.Base.Action.{lift}
use wonderwall.Base.Ensures.{
  OnOk, Anything, Preserves, bind-Ensures, lift-Ensures, raise-Ensures, pure-Ensures, catch-Ensures,
  run-Preserves, then_pure,
}
use wonderwall.Base.Retry.{retry_all}
use wonderwall.Http.{Request, default_mode, get}
use wonderwall.Random.{generate_base64}
use wonderwall.Cookie
use wonderwall.Cookie.{Options, clear, with_same_site}
use wonderwall.Loginstatus
use wonderwall.Loginstatus.{
  exchange_token, handle_response, set_cookie, clear_cookie, TokenResponse,
}
use wonderwall.OpenId.Token.{Tokens, new_tokens, validate}
use wonderwall.OpenId.Client.Login.{LoginCookie, new_login, new_login_parameters}
use wonderwall.OpenId.Client.Callback.{
  LoginCallback, redeem_tokens, accept_tokens, grant_options, identity_provider_error,
  state_mismatch_error, new_login_callback,
}
use wonderwall.Session.Id.{key}
use wonderwall.Session.Store.{Entries}
use wonderwall.Session.Handler.Ownership.{Surroundings}
use wonderwall.Session.Handler.Ownership.Creation.{create-Owned}
use wonderwall.Api.Answers.{Reply, redirect}
use wonderwall.Api.Answers.Preservation.{
  Safely, ends-Safely, then_set-Safely, if-Safely, on_error-Safely,
}
use wonderwall.Api.{StandardHandler, respond, login_cookie_of, get_cookie_opts_path_aware}
use wonderwall.Api.Login.{login, set_login_cookies, refused_login, encrypted, login_options}
use wonderwall.Api.LoginCallback.{
  login_callback, checked_callback, start_session, hand_out, set_loginstatus, finish,
  session_options,
}
use wonderwall.Api.Ownership.{
  IsOutside, InOrder, outside, now-InOrder, set_cookie-InOrder, respond-InOrder,
}

module _ {W Held Jwks : Type 0} (src : StandardHandler W Held Jwks) (entries : W → Entries)
    (Mine : String → Type 0) (old : Entries)
    (rely : Surroundings src.env src.retrier src.session_provider entries Mine old)
    (quiet : IsOutside src entries) where
  abbrev P : W → Type 0
  P = InOrder src entries Mine old rely

  respond-P : (status : ℕ) (r : Request) → Safely P (respond src status r)
  respond-P = respond-InOrder src entries Mine old rely

  cookie-P : (name value : String) (opts : Options) → Preserves P (encrypted src name value opts)
  cookie-P = set_cookie-InOrder src entries Mine old rely

  random_text-P : (n : ℕ) → Preserves P (generate_base64 src.client.random src.client.raw.encode n)
  unfolding generate_base64
  random_text-P n =
      then_pure P (src.client.random n) src.client.raw.encode
        (outside src entries Mine old rely (src.client.random n) (quiet.random n))

  parameters-P : Preserves P (new_login_parameters src.client)
  unfolding new_login_parameters
  parameters-P = bind-Ensures P Anything Anything _ _ (random_text-P 64) λ code_verifier _.
      bind-Ensures P Anything Anything _ _ (random_text-P 32)
        λ nonce _. then_pure P _ _ (random_text-P 32)

  new_login-P : (r : Request) → Preserves P (new_login src.client r)
  unfolding new_login
  new_login-P r =
      bind-Ensures P Anything Anything _ _ parameters-P λ p _. lift-Ensures P Anything _ (λ _ _. tt)

  set_login_cookies-P :
      (r : Request) (c : LoginCookie) (rest : Reply W)
      → Safely P rest
      → Safely P (set_login_cookies src r c rest)
  unfolding set_login_cookies
  set_login_cookies-P r c rest safe =
      on_error-Safely P Anything (lift (src.marshal c))
        (lift-Ensures P Anything (src.marshal c) (λ _ _. tt)) _ _ (λ _. respond-P 500 r)
        λ value _.
          on_error-Safely P Anything _ (cookie-P Cookie.login value (login_options src r)) _ _
            (λ _. respond-P 500 r)
            λ c₁ _. then_set-Safely P c₁ _ (
              on_error-Safely P Anything _
                (cookie-P Cookie.login_legacy value
                  (with_same_site default_mode (login_options src r)))
                _ _ (λ _. respond-P 500 r) λ c₂ _. then_set-Safely P c₂ rest safe)

  refused_login-P : (r : Request) (e : Error) → Safely P (refused_login src r e)
  refused_login-P r invalid_security_level = respond-P 400 r
  refused_login-P r invalid_locale = respond-P 400 r
  refused_login-P r _ = respond-P 500 r

  pub login-Safely : (r : Request) → Safely P (login src r)
  unfolding login
  login-Safely r =
      on_error-Safely P Anything (new_login src.client r) (new_login-P r) _ _ (refused_login-P r)
        λ l _. set_login_cookies-P r l.cookie _ (ends-Safely P (redirect l.auth_code_url))

  accept_tokens-P :
      (nonce : String) (r : Result Tokens) → Preserves P (accept_tokens src.redeemer nonce r)
  unfolding accept_tokens
  accept_tokens-P nonce (err e) =
      bind-Ensures P (OnOk Anything) Anything _ _
        (catch-Ensures P Anything src.redeemer.refresh_public_jwk_set (
          outside src entries Mine old rely src.redeemer.refresh_public_jwk_set
            quiet.refresh_public_jwk_set))
        λ _ _. raise-Ensures P Anything e
  accept_tokens-P nonce (ok tokens) =
      bind-Ensures P Anything Anything _ _
        (lift-Ensures P Anything
          (validate src.redeemer.check src.redeemer.expected nonce tokens.id_token) (λ _ _. tt))
        λ _ _. pure-Ensures P Anything tokens tt

  redeem_tokens-P : (cb : LoginCallback) → Preserves P (redeem_tokens src.redeemer cb)
  unfolding redeem_tokens
  redeem_tokens-P cb =
      bind-Ensures P Anything Anything _ _
        (outside src entries Mine old rely src.redeemer.make_assertion quiet.make_assertion)
        λ assertion _.
          bind-Ensures P Anything Anything _ _
            (outside src entries Mine old rely
              (src.redeemer.auth_code_grant (get cb.request_params "code")
                (grant_options cb assertion))
              (quiet.auth_code_grant (get cb.request_params "code") (grant_options cb assertion)))
            λ raw _.
              bind-Ensures P Anything Anything _ _
                (outside src entries Mine old rely src.redeemer.get_public_jwk_set
                  quiet.get_public_jwk_set)
                λ jwks _. accept_tokens-P cb.cookie.nonce (new_tokens src.redeemer.parse raw jwks)

  exchange-P :
      (token : String) → Preserves P (exchange_token src.loginstatus_client src.loginstatus token)
  unfolding exchange_token
  exchange-P token =
      bind-Ensures P Anything Anything _ _
        (lift-Ensures P Anything
          (Loginstatus.request src.loginstatus_client src.loginstatus.token_url token) (λ _ _. tt))
        λ req _.
          bind-Ensures P Anything Anything _ _
            (outside src entries Mine old rely (src.loginstatus_client.send req) (quiet.send req))
            λ resp _.
              lift-Ensures P Anything (handle_response src.loginstatus_client resp) (λ _ _. tt)

  set_loginstatus-P :
      (r : Request) (tokens : Tokens) (rest : Reply W)
      → Safely P rest
      → Safely P (set_loginstatus src r tokens rest)
  set_loginstatus-P r tokens rest safe =
      on_error-Safely P Anything _
        (run-Preserves P src.retrier retry_all
          (exchange_token src.loginstatus_client src.loginstatus tokens.access_token) rely.waits
          (exchange-P tokens.access_token))
        _ _ (λ _. respond-P 500 r)
        λ token _ x p.
          then_set-Safely P
            (set_cookie src.loginstatus src.whole_seconds (src.env.now x.world).0 token
              src.cookie_options)
            rest safe _ ((now-InOrder src entries Mine old rely).at x.world p).0

  finish-P : (r : Request) (c : LoginCookie) → Safely P (finish src r c)
  finish-P r c =
      then_set-Safely P (clear Cookie.retry (get_cookie_opts_path_aware src r)) _
        (ends-Safely P (redirect c.referer))

  hand_out-P :
      (r : Request) (c : LoginCookie) (tokens : Tokens) (k : String)
      → Safely P (hand_out src r c tokens k)
  unfolding hand_out
  hand_out-P r c tokens k =
      on_error-Safely P Anything _ (cookie-P Cookie.session k (session_options src r)) _ _
        (λ _. respond-P 500 r)
        λ set _. then_set-Safely P set _ (
          if-Safely P src.loginstatus.enabled _ _ (set_loginstatus-P r tokens _ (finish-P r c))
            (finish-P r c))

  module _ (mine : (id : String) → Mine (key src.session_provider id)) where
    start_session-P :
        (r : Request) (c : LoginCookie) (cb : LoginCallback) → Safely P (start_session src r c cb)
    unfolding start_session
    start_session-P r c cb =
        on_error-Safely P Anything _
          (run-Preserves P src.retrier retry_all (redeem_tokens src.redeemer cb) rely.waits
            (redeem_tokens-P cb))
          _ _ (λ _. respond-P 500 r)
          λ tokens _.
            on_error-Safely P Anything _
              (create-Owned src.env src.retrier src.session_config src.session_provider entries Mine
                old rely mine r.query tokens src.session_config.max_lifetime)
              _ _ (λ _. respond-P 500 r) λ k _. hand_out-P r c tokens k

    pub login_callback-Safely : (r : Request) → Safely P (login_callback src r)
    unfolding login_callback checked_callback
    login_callback-Safely r = then_set-Safely P _ _ (
        then_set-Safely P _ _ (
          on_error-Safely P Anything _ (lift-Ensures P Anything (login_cookie_of src r) (λ _ _. tt))
            _ _ (λ _. respond-P 401 r)
            λ c _.
              on_error-Safely P Anything _
                (lift-Ensures P Anything (new_login_callback src.client.urls r c) (λ _ _. tt)) _ _
                (λ _. respond-P 500 r)
                λ cb _.
                  on_error-Safely P Anything _
                    (lift-Ensures P Anything (identity_provider_error cb) (λ _ _. tt)) _ _
                    (λ _. respond-P 500 r)
                    λ _ _.
                      on_error-Safely P Anything _
                        (lift-Ensures P Anything (state_mismatch_error cb) (λ _ _. tt)) _ _
                        (λ _. respond-P 401 r) λ _ _. start_session-P r c cb))

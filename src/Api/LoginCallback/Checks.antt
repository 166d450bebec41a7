-- ===== src/Api/LoginCallback/Checks.antt =====
-- When the login callback gives the browser a session (pkg/handler/api/logincallback/logincallback.go).
use wonderwall.Base.{
  ℕ, String, ◌==◌, ◌≡◌, ◌≢◌, refl, sym, subst, ap, ◌∙◌, true, false, List, ok, arith, Result-cases,
  Bool-cases, inl, inr,
}
use wonderwall.Http.{Request, HttpCookie, get, UrlLibrary}
use wonderwall.Cookie
use wonderwall.Cookie.{clear, encrypt_and_set}
use wonderwall.Redirect.{login_callback_url}
use wonderwall.OpenId.Token.{Tokens, OauthToken, new_tokens, validate}
use wonderwall.OpenId.Client.Login.{LoginCookie}
use wonderwall.OpenId.Client.Callback
use wonderwall.OpenId.Client.Callback.{
  new_login_callback, identity_provider_error, state_mismatch_error, redeem_tokens,
}
use wonderwall.OpenId.Client.Callback.Checks.{state_mismatch_error_iff, redeem_tokens_valid}
use wonderwall.Session.Handler.{create}
use wonderwall.Session.Handler.Storage.{last_retry_all}
use wonderwall.Api.Answers.{Exchange, begin, sets, then_set, Reply}
use wonderwall.Api.Answers.Extension.{
  if-both, Spares, Extends, Includes, on_error-sets, then_set-Includes, then_set-Extends,
  ends-Extends, on_error-Extends,
}
use wonderwall.Api.{respond, StandardHandler, login_cookie_of}
use wonderwall.Api.Failures.{respond-Spares, respond-Extends}
use wonderwall.Api.LoginCallback.{
  get_loginstatus_token, set_loginstatus, finish, with_loginstatus, session_options,
  checked_callback, login_callback,
}

-- The callback at work is about the login cookie and the parameters of the request.
pub new_login_callback_keeps :
    (urls : UrlLibrary) (r : Request) (cookie : LoginCookie) (cb : Callback.LoginCallback)
    → new_login_callback urls r cookie ≡ ok cb
    → (cb.request_params ≡ r.query)
      × (cb.cookie.state ≡ cookie.state)
      × (cb.cookie.nonce ≡ cookie.nonce)
unfolding new_login_callback
new_login_callback_keeps urls r cookie cb h = elim (Bool-cases (cookie.redirect_uri == "")) [
  | inr f ↦ ground arith
  | inl t ↦ elim (Result-cases (login_callback_url urls r)) [
    | inr (x, e) ↦ absurd (ground arith)
    | inl (url, e) ↦ ground arith
  ]
]

module _ {W Held Jwks : Type 0} (src : StandardHandler W Held Jwks) where
  -- What stands between a request to the callback and a session: the parameter `state` is that of the
  -- login cookie, the tokens were parsed with keys of the provider, their ID token was validated with the
  -- nonce of the login cookie, `Create` returned a key for them, and the response sets a cookie that
  -- `EncryptAndSet` made of the key.
  pub record IsLoggedIn (r : Request) (response : List HttpCookie) : Type 0 where
    pub cookie : LoginCookie
    pub tokens : Tokens
    pub raw : OauthToken
    pub jwks : Jwks
    pub key : String
    pub before : W
    pub session_cookie : HttpCookie
    pub returned : login_cookie_of src r ≡ ok cookie
    pub same_state : get r.query "state" ≡ cookie.state
    pub some_state : cookie.state ≢ ""
    pub parsed : new_tokens src.redeemer.parse raw jwks ≡ ok tokens
    pub valid :
        validate src.redeemer.check src.redeemer.expected cookie.nonce tokens.id_token ≡ ok tt
    pub created :
        (create src.env src.retrier src.session_config src.session_provider r.query tokens
          src.session_config.max_lifetime before).0
        ≡ ok key
    pub encrypted :
        (encrypt_and_set src.env.encoding src.env.crypter src.whole_seconds src.env.now
          Cookie.session key
          (session_options src r)
          (create src.env src.retrier src.session_config src.session_provider r.query tokens
            src.session_config.max_lifetime before).1).0
        ≡ ok session_cookie
    pub handed : Includes session_cookie response

  fails : (status : ℕ) (r : Request) → Spares Cookie.session (respond src status r)
  fails status r = respond-Spares src Cookie.session status r refl

  finish-Extends : (r : Request) (cookie : LoginCookie) → Extends (finish src r cookie)
  finish-Extends r cookie = then_set-Extends _ _ (ends-Extends _)

  set_loginstatus-Extends :
      (r : Request) (tokens : Tokens) (rest : Reply W)
      → Extends rest
      → Extends (set_loginstatus src r tokens rest)
  set_loginstatus-Extends r tokens rest h =
      on_error-Extends (get_loginstatus_token src tokens) _ _ (λ _. respond-Extends src 500 r)
        λ token x.
          then_set-Extends _ rest h
            (record { world = (src.env.now x.world).1; cookies = x.cookies })

  rest-Extends :
      (r : Request) (cookie : LoginCookie) (tokens : Tokens)
      → Extends (with_loginstatus src r tokens (finish src r cookie))
  unfolding with_loginstatus
  rest-Extends r cookie tokens =
      let last = finish-Extends r cookie in
      if-both Extends src.loginstatus.enabled _ _ (set_loginstatus-Extends r tokens _ last) last

  -- A session cookie is set only after the checks.
  session_started :
      (r : Request) (cookie : LoginCookie) (cb : Callback.LoginCallback) (x : Exchange W)
      → login_cookie_of src r ≡ ok cookie
      → new_login_callback src.client.urls r cookie ≡ ok cb
      → sets Cookie.session x.cookies ≡ false
      → sets Cookie.session (checked_callback src r cookie cb x).1.cookies ≡ true
      → IsLoggedIn r (checked_callback src r cookie cb x).1.cookies
  unfolding checked_callback
  session_started r cookie cb x got made none_yet h =
      let (_, _, e₁, h₁) = on_error-sets Cookie.session _ _ _ x (λ _. fails 500 r) none_yet h in
      let (_, matched, e₂, h₂) =
        on_error-sets Cookie.session _ _ _ _ (λ _. fails 401 r) none_yet h₁ in
      let (tokens, redeemed, e₃, h₃) =
        on_error-sets Cookie.session _ _ _ _ (λ _. fails 500 r) none_yet h₂ in
      let (key, created, e₄, h₄) =
        on_error-sets Cookie.session _ _ _ _ (λ _. fails 500 r) none_yet h₃ in
      let (c, encrypted, e₅, _) =
        on_error-sets Cookie.session _ _ _ _ (λ _. fails 500 r) none_yet h₄ in
      let last =
        last_retry_all src.retrier (λ _. Unit {0}) (λ _ _ _ _. tt) (redeem_tokens src.redeemer cb)
          (λ _ _. tt) x.world tokens tt redeemed in
      let is_redeemed = redeem_tokens_valid src.redeemer cb last.from tokens last.returned in
      let (params, state, nonce) = new_login_callback_keeps src.client.urls r cookie cb made in
      let (same, some_state) = (state_mismatch_error_iff cb).0 matched in
      record {
        cookie = cookie;
        tokens = tokens;
        raw = is_redeemed.raw;
        jwks = is_redeemed.jwks;
        key = key;
        before = _;
        session_cookie = c;
        returned = got;
        same_state = ap (λ q. get q "state") (sym params) ∙ same ∙ state;
        some_state = λ e. some_state (state ∙ e);
        parsed = is_redeemed.parsed;
        valid =
            subst (λ n. validate src.redeemer.check src.redeemer.expected n tokens.id_token ≡ ok tt)
              nonce is_redeemed.valid;
        created = created;
        encrypted = encrypted;
        handed =
            subst (λ p. Includes c p.1.cookies) (sym (e₁ ∙ e₂ ∙ e₃ ∙ e₄ ∙ e₅))
              (then_set-Includes c _ _ (rest-Extends r cookie tokens));
      }

  -- If the callback sets a session cookie, whatever it answers, then the state was compared, the tokens
  -- validated, the session created, and a cookie of its key is in the response.
  pub login_callback-IsLoggedIn :
      (r : Request) (w : W)
      → sets Cookie.session (login_callback src r (begin w)).1.cookies ≡ true
      → IsLoggedIn r (login_callback src r (begin w)).1.cookies
  unfolding login_callback then_set clear
  login_callback-IsLoggedIn r w h =
      let (cookie, got, e₁, h₁) = on_error-sets Cookie.session _ _ _ _ (λ _. fails 401 r) refl h in
      let (cb, made, e₂, h₂) = on_error-sets Cookie.session _ _ _ _ (λ _. fails 500 r) refl h₁ in
      subst (λ p. IsLoggedIn r p.1.cookies) (sym (e₁ ∙ e₂))
        (session_started r cookie cb _ got made refl h₂)

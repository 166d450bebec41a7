-- ===== src/Api/Proxy/Tokens.antt =====
-- Which requests the application gets, and with which token (pkg/handler/reverseproxy/reverseproxy.go).
use Prim.Native.String.{◌++◌ as append}
use wonderwall.Base.{
  All, Result-cases, Error, String, ◌==◌, ◌≡◌, ◌↔◌, refl, sym, ap, ◌∙◌, true, false, Option, none,
  some, [], ◌∷◌, ok, err, arith, inl, inr, ◌⊎◌,
}
use wonderwall.Http.{Request, find_cookie}
use wonderwall.AutoLogin.{normalized}
use wonderwall.AutoLogin.Patterns.{needs_login_iff}
use wonderwall.AutoLogin
use wonderwall.Loginstatus
use wonderwall.Session.Data.{Data}
use wonderwall.Session.Metadata.{is_expired}
use wonderwall.Session.Handler.Refresh.{get_access_token, get_or_refresh}
use wonderwall.Session.Handler.Refresh.AccessToken.{get_access_token_valid}
use wonderwall.Redirect.{login_url}
use wonderwall.Api.{StandardHandler, get_path}
use wonderwall.Api.Proxy.{to_login, sent_on, Outgoing, director, authorization, proxy}

-- The login status is enabled, and its cookie is missing.
abbrev pub MissesCookie : {W Held Jwks : Type 0} → StandardHandler W Held Jwks → Request → Type 0
MissesCookie src r =
    (src.loginstatus.enabled ≡ true)
    × ((e : Error) × (find_cookie r.cookies src.loginstatus.cookie_name ≡ err e))

module _ {W Held Jwks : Type 0} (src : StandardHandler W Held Jwks) where
  -- A request goes on with a token exactly if `GetAccessToken` returned it, and the cookie of the login
  -- status, where that is enabled, is there.
  pub proxy_sent_on_iff :
      (r : Request) (url : String) (w : W) (token : String)
      → ((proxy src r url w).0 ≡ sent_on (some token)) ↔ (
          ((get_access_token src.env src.retrier src.session_config src.session_provider r.cookies
              w).0
            ≡ ok token)
          × (Loginstatus.needs_login src.loginstatus r ≡ false))
  unfolding proxy AutoLogin.needs_login
  proxy_sent_on_iff r url w token = ground arith

  status_missing_iff :
      (r : Request) → (Loginstatus.needs_login src.loginstatus r ≡ true) ↔ MissesCookie src r
  unfolding Loginstatus.needs_login
  status_missing_iff r = elim (Result-cases (find_cookie r.cookies src.loginstatus.cookie_name)) [
    | inl (c, e) ↦ (λ h. absurd (ground arith), λ m. absurd (ground arith))
    | inr (x, e) ↦ (λ h. (ground arith, (x, e)), λ m. ground arith)
  ]

  proxied_to_login :
      (r : Request) (url : String) (w : W)
      → let got =
          (get_access_token src.env src.retrier src.session_config src.session_provider r.cookies
            w).0 in
        ((proxy src r url w).0
          ≡ to_login
              (login_url src.client.urls src.env.encoding src.client.raw (get_path src r) url))
        ↔ ((AutoLogin.needs_login src.matches src.auto_login r false ≡ true)
            × (((e : Error) × (got ≡ err e)) ⊎ (Loginstatus.needs_login src.loginstatus r ≡ true)))
  unfolding proxy AutoLogin.needs_login
  proxied_to_login r url w = ground arith

  -- A request is sent to the login, with its own URL to come back to, exactly if the automatic login is
  -- enabled, its method is GET, none of the patterns to ignore matches its path, and `GetAccessToken` gives no
  -- token, or the login status is enabled and its cookie is missing.
  pub proxy_to_login_iff :
      (r : Request) (url : String) (w : W)
      → let got =
          (get_access_token src.env src.retrier src.session_config src.session_provider r.cookies
            w).0 in
        ((proxy src r url w).0
          ≡ to_login
              (login_url src.client.urls src.env.encoding src.client.raw (get_path src r) url))
        ↔ ((src.auto_login.enabled ≡ true)
            × (r.method ≡ "GET")
            × All (λ g. src.matches g (normalized r.path) ≡ false) src.auto_login.ignore_patterns
            × (((e : Error) × (got ≡ err e)) ⊎ MissesCookie src r))
  proxy_to_login_iff r url w =
      let p = proxied_to_login r url w in
      let q = needs_login_iff src.matches src.auto_login r false in
      let c = status_missing_iff r in
      (
        λ h.
            let (due, why) = p.0 h in
            let (_, enabled, is_get, unmatched) = q.0 due in
            (enabled, is_get, unmatched, elim why [ inl e ↦ inl e | inr m ↦ inr (c.0 m) ]),
        λ (enabled, is_get, unmatched, why). p.1 (
          q.1 (refl, enabled, is_get, unmatched),
          elim why [ inl e ↦ inl e | inr m ↦ inr (c.1 m) ],
        ),
      )

  -- What the application gets as `Authorization` of a request that goes on with a token: the access token
  -- of the session of the request, which is not empty and has not expired at a reading of the clock
  -- after the session was read or refreshed. Without a token it gets what the client sent.
  pub proxy-authorization :
      (r : Request) (url : String) (w : W) (upstream_host : String) (out : Outgoing)
      (token : Option String)
      → (proxy src r url w).0 ≡ sent_on token
      → let got =
          get_or_refresh src.env src.retrier src.session_config src.session_provider r.cookies w in
        ((d : Data) × (got.0 ≡ ok d)
          × ((director upstream_host token out).header authorization
              ≡ append "Bearer " d.access_token ∷ [])
          × ((d.access_token == "") ≡ false)
          × (is_expired (src.env.now got.1).0 d.metadata ≡ false))
        ⊎ ((token ≡ none)
            × ((director upstream_host token out).header authorization ≡ out.header authorization))
  unfolding director
  proxy-authorization r url w upstream_host out none sent = inr (refl, refl)
  proxy-authorization r url w upstream_host out (some token) sent =
      let (given, _) = (proxy_sent_on_iff r url w token).0 sent in
      let (d, got, same, nonempty, unexpired) =
        get_access_token_valid src.env src.retrier src.session_config src.session_provider r.cookies
          w token given in
      inl (
        d,
        got,
        ap (λ t. append "Bearer " t ∷ []) same,
        ap (λ t. t == "") (sym same) ∙ nonempty,
        unexpired,
      )

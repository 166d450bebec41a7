-- ===== src/Api/Login/Cookies.antt =====
-- What the browser gets from the login handler (pkg/handler/api/login/login.go), and how the callback reads
-- it (pkg/openid/cookies.go).
use wonderwall.Base.{
  String, ◌≡◌, ◌≢◌, refl, ap, ◌∙◌, [], ◌∷◌, ◌++◌, Result, ok, err, no_cookie, arith, Error,
}
use wonderwall.Http.{Request, Pairs, HttpCookie, IsEncoding, default_mode, find_cookie}
use wonderwall.Cookie
use wonderwall.Cookie.{get_decrypted, with_same_site}
use wonderwall.Cookie.RoundTrip.{IsCrypter, get_decrypted-encrypt_and_set}
use wonderwall.OpenId.Client.Login
use wonderwall.OpenId.Client.Login.{LoginCookie, new_login}
use wonderwall.OpenId.Client.Callback.{get_login_cookie}
use wonderwall.Api.Answers.{Answer, redirect, Exchange, begin, ends, then_set}
use wonderwall.Api.Answers.Extension.{on_error-both}
use wonderwall.Api.{StandardHandler, respond}
use wonderwall.Api.Failures.{respond_answer}
use wonderwall.Api.Login.{login, set_login_cookies, login_options, refused_login}

module _ {W Held Jwks : Type 0} (src : StandardHandler W Held Jwks) where
  abbrev pub reads : Pairs → Result LoginCookie
  reads cookies = get_login_cookie src.env.encoding src.env.crypter src.unmarshal cookies

  refused_answer :
      (r : Request) (e : Error) (url : String) (x : Exchange W)
      → (refused_login src r e x).0 ≢ redirect url
  refused_answer r e url x h =
      ground (arith, respond_answer src 500 r x, respond_answer src 400 r x)

  other_name :
      (value : String)
      → get_decrypted src.env.encoding src.env.crypter
          ((Cookie.login_legacy, value) ∷ [])
          Cookie.login
        ≡ err no_cookie
  unfolding get_decrypted find_cookie
  other_name value = refl

  reads_first :
      (cookies : Pairs) (json : String) (cookie : LoginCookie)
      → get_decrypted src.env.encoding src.env.crypter cookies Cookie.login ≡ ok json
      → src.unmarshal json ≡ ok cookie
      → reads cookies ≡ ok cookie
  unfolding get_login_cookie
  reads_first cookies json cookie found parsed = ground arith

  -- A request without the first cookie falls back to the second.
  reads_second :
      (name value json : String) (cookie : LoginCookie)
      → name ≡ Cookie.login_legacy
      → get_decrypted src.env.encoding src.env.crypter ((name, value) ∷ []) Cookie.login_legacy
        ≡ ok json
      → src.unmarshal json ≡ ok cookie
      → reads ((name, value) ∷ []) ≡ ok cookie
  unfolding get_login_cookie
  reads_second name value json cookie named found parsed =
      let absent : get_decrypted src.env.encoding src.env.crypter ((name, value) ∷ []) Cookie.login
          ≡ err no_cookie =
        ap (λ n. get_decrypted src.env.encoding src.env.crypter ((n, value) ∷ []) Cookie.login)
          named
        ∙ other_name value in
      ground arith

  -- The two cookies of a login: a request that returns the first, or the second alone, is read as the
  -- login cookie.
  pub record IsRemembered (cookie : LoginCookie) (rest : Pairs) (p : Answer × Exchange W)
      : Type 0 where
    pub first : HttpCookie
    pub legacy : HttpCookie
    pub sent : p.1.cookies ≡ first ∷ legacy ∷ []
    pub read_back : reads ((first.name, first.value) ∷ rest) ≡ ok cookie
    pub read_legacy : reads ((legacy.name, legacy.value) ∷ []) ≡ ok cookie

  module _ (encoding : IsEncoding src.env.encoding) (crypter : IsCrypter src.env.crypter) where
    set_login_cookies-IsRemembered :
        (r : Request) (cookie : LoginCookie) (made url : String) (rest : Pairs) (x : Exchange W)
        → x.cookies ≡ []
        → ((json : String) → src.marshal cookie ≡ ok json → src.unmarshal json ≡ ok cookie)
        → (set_login_cookies src r cookie (ends (redirect made)) x).0 ≡ redirect url
        → (url ≡ made)
          × IsRemembered cookie rest (set_login_cookies src r cookie (ends (redirect made)) x)
    unfolding set_login_cookies then_set ends
    set_login_cookies-IsRemembered r cookie made url rest x fresh json_laws =
        let opts = login_options src r in
        let P : Answer × Exchange W → Type 0 =
          λ p. p.0 ≡ redirect url → (url ≡ made) × IsRemembered cookie rest p in
        let fails : (y : Exchange W) → P (respond src 500 r y) =
          λ y h. absurd (ground (arith, respond_answer src 500 r y)) in
        on_error-both P _ _ _ x (λ _ _. fails _)
          λ json marshalled.
            on_error-both P _ _ _ x (λ _ _. fails _)
              λ c first_set.
                on_error-both P _ _ _ _ (λ _ _. fails _)
                  λ legacy legacy_set same.
                    let (_, _, _, back) =
                      get_decrypted-encrypt_and_set src.env.encoding encoding src.env.crypter
                        crypter src.whole_seconds src.env.now Cookie.login json opts _ c rest
                        first_set in
                    let (named, _, _, back') =
                      get_decrypted-encrypt_and_set src.env.encoding encoding src.env.crypter
                        crypter src.whole_seconds src.env.now Cookie.login_legacy json
                        (with_same_site default_mode opts) _ legacy [] legacy_set in
                    (
                      cc,
                      record {
                        first = c;
                        legacy = legacy;
                        sent = ap (λ cs. (cs ++ c ∷ []) ++ legacy ∷ []) fresh;
                        read_back = reads_first _ json cookie back (json_laws json marshalled);
                        read_legacy =
                            reads_second legacy.name legacy.value json cookie named back'
                              (json_laws json marshalled);
                      },
                    )

    -- If the login is answered with a redirect, it leads to the URL of the login that `NewLogin` made, and
    -- the response sets two cookies: a request that returns the first, or the second alone, is read as
    -- the login cookie of that login, given that decoding JSON undoes encoding it.
    pub login-IsRemembered :
        (r : Request) (w : W) (url : String) (rest : Pairs)
        → ((cookie : LoginCookie) (json : String)
            → src.marshal cookie ≡ ok json
            → src.unmarshal json ≡ ok cookie)
        → (login src r (begin w)).0 ≡ redirect url
        → (l : Login.Login) × ((new_login src.client r w).0 ≡ ok l)
          × (url ≡ l.auth_code_url)
          × IsRemembered l.cookie rest (login src r (begin w))
    unfolding login
    login-IsRemembered r w url rest json_laws h =
        let P : Answer × Exchange W → Type 0 = λ p.
          p.0 ≡ redirect url
          → (l : Login.Login) × ((new_login src.client r w).0 ≡ ok l)
            × (url ≡ l.auth_code_url)
            × IsRemembered l.cookie rest p in
        on_error-both P (new_login src.client r) (refused_login src r) _ (begin w)
          (λ e _ there. absurd (refused_answer r e url _ there))
          (λ l made there.
            let (same, remembered) =
              set_login_cookies-IsRemembered r l.cookie l.auth_code_url url rest _ refl
                (json_laws l.cookie) there in
            (l, made, same, remembered))
          h

-- ===== src/Api/Login.antt =====
-- pkg/handler/api/login/login.go: the redirect to the provider, and the two login cookies.
pub mod Cookies
use wonderwall.Base.{Error, invalid_security_level, invalid_locale, String, Result, ok, err}
use wonderwall.Base.Action.{Action, lift, pure, ◌>>=◌}
use wonderwall.Base.Int.{pos}
use wonderwall.Http.{Request, HttpCookie, none_mode, default_mode}
use wonderwall.Cookie
use wonderwall.Cookie.{Options, with_expires_in, with_same_site, encrypt_and_set}
use wonderwall.OpenId.Client.Login.{LoginCookie, new_login}
use wonderwall.Session.Metadata.{Duration}
use wonderwall.Api.Answers.{Reply, redirect, ends, then_set, on_error}
use wonderwall.Api.{StandardHandler, get_cookie_opts_path_aware, internal_error, bad_request}

-- One hour
abbrev pub cookie_lifetime : Duration
cookie_lifetime = pos 3600000000000

module _ {W Held Jwks : Type 0} (src : StandardHandler W Held Jwks) where
  abbrev pub login_options : Request → Options
  login_options r =
      with_same_site none_mode (with_expires_in cookie_lifetime (get_cookie_opts_path_aware src r))

  abbrev pub encrypted : String → String → Options → Action W HttpCookie
  encrypted = encrypt_and_set src.env.encoding src.env.crypter src.whole_seconds src.env.now

  -- The cookie, its duplicate without a SameSite value, and what follows if both were set.
  unfoldable pub set_login_cookies : Request → LoginCookie → Reply W → Reply W
  set_login_cookies r login_cookie rest =
      let opts = login_options r in
      let internal = λ (e : Error). internal_error src r in
      on_error (lift (src.marshal login_cookie)) internal λ value.
        on_error (encrypted Cookie.login value opts) internal λ c. then_set c (
          on_error (encrypted Cookie.login_legacy value (with_same_site default_mode opts)) internal
            λ legacy. then_set legacy rest)

  abbrev pub refused_login : Request → Error → Reply W
  refused_login r invalid_security_level = bad_request src r
  refused_login r invalid_locale = bad_request src r
  refused_login r _ = internal_error src r

  unfoldable pub login : Request → Reply W
  unfolding set_login_cookies
  login r =
      on_error (new_login src.client r) (refused_login r)
        λ l. set_login_cookies r l.cookie (ends (redirect l.auth_code_url))

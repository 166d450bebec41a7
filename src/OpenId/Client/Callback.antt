-- ===== src/OpenId/Client/Callback.antt =====
-- pkg/openid/client/login_callback.go, and the login cookie of pkg/openid/cookies.go. Exchanging the
-- code is golang.org/x/oauth2, the keys of the provider are those of its JWKS endpoint.
pub mod Checks
use wonderwall.Base.{
  String, ◌==◌, Option, none, some, [], ◌∷◌, List, Result, ok, err, other, if◌then◌else◌,
  ◌>>=◌ as then_result,
}
use wonderwall.Base.Action.{Action, lift, raise, pure, catch, ◌>>=◌, ◌>>◌}
use wonderwall.Http.{Pairs, Request, UrlLibrary, Encoding, get}
use wonderwall.Cookie
use wonderwall.Cookie.{Crypter, get_decrypted}
use wonderwall.Redirect.{login_callback_url}
use wonderwall.OpenId.Token.{
  Tokens, Claim, Claims, ValidateOption, Expected, OauthToken, validate, new_tokens,
}
use wonderwall.OpenId.Client.Login.{LoginCookie}
use wonderwall.OpenId.Client.Grant.{assertion_type}

-- The cookie, or its duplicate for old browsers.
unfoldable pub get_login_cookie :
    {W : Type 0} → Encoding → Crypter W → (String → Result LoginCookie) → Pairs → Result LoginCookie
get_login_cookie encoding crypter unmarshal cookies =
    then_result
      (elim (get_decrypted encoding crypter cookies Cookie.login) [
        | ok json ↦ ok json
        | err _ ↦ get_decrypted encoding crypter cookies Cookie.login_legacy
      ])
      unmarshal

pub record LoginCallback : Type 0 where
  pub cookie : LoginCookie
  pub request_params : Pairs

unfoldable pub new_login_callback : UrlLibrary → Request → LoginCookie → Result LoginCallback
new_login_callback urls r cookie =
    if cookie.redirect_uri == ""
    then (then_result (login_callback_url urls r) λ url.
        ok (record { cookie = record cookie { redirect_uri = url }; request_params = r.query }))
    else ok (record { cookie = cookie; request_params = r.query })

unfoldable pub identity_provider_error : LoginCallback → Result (Unit {0})
identity_provider_error cb = if get cb.request_params "error" == "" then ok tt else err other

unfoldable pub state_mismatch_error : LoginCallback → Result (Unit {0})
state_mismatch_error cb =
    let actual_state = get cb.request_params "state" in
    if actual_state == ""
    then err other
    else if cb.cookie.state == actual_state
    then ok tt
    else err other

abbrev pub grant_options : LoginCallback → String → Pairs
grant_options cb client_assertion =
    ("code_verifier", cb.cookie.code_verifier)
    ∷ ("client_assertion", client_assertion)
    ∷ ("client_assertion_type", assertion_type)
    ∷ ("redirect_uri", cb.cookie.redirect_uri)
    ∷ []

-- `parse` is `jwt.Parse`, `check` is `jwtlib.Validate`.
pub record Redeemer (W Jwks : Type 0) : Type 0 where
  pub make_assertion : Action W String
  pub auth_code_grant : String → Pairs → Action W OauthToken
  pub get_public_jwk_set : Action W Jwks
  pub refresh_public_jwk_set : Action W Jwks
  pub parse : String → Jwks → Result Claims
  pub check : List ValidateOption → Option Claims → Result (Unit {0})
  pub expected : Expected

module _ {W Jwks : Type 0} (env : Redeemer W Jwks) where
  -- From the result of the parsing on.
  unfoldable pub accept_tokens : String → Result Tokens → Action W Tokens
  accept_tokens nonce (err e) = do catch env.refresh_public_jwk_set; raise e
  accept_tokens nonce (ok tokens) = do
    lift (validate env.check env.expected nonce tokens.id_token)
    pure tokens

  unfoldable pub redeem_tokens : LoginCallback → Action W Tokens
  unfolding accept_tokens
  redeem_tokens cb = do
    client_assertion ← env.make_assertion
    raw_tokens ←
        env.auth_code_grant (get cb.request_params "code") (grant_options cb client_assertion)
    jwk_set ← env.get_public_jwk_set
    accept_tokens cb.cookie.nonce (new_tokens env.parse raw_tokens jwk_set)

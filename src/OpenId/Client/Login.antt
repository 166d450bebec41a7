-- ===== src/OpenId/Client/Login.antt =====
-- pkg/openid/client/login.go: the request for a login at the provider. Building the URL is
-- golang.org/x/oauth2, the hash is crypto/sha256.
pub mod Requests
use wonderwall.Base.{
  Bool, String, ◌==◌, List, [], ◌∷◌, ◌++◌, ◌&&◌, not, ℕ, Result, ok, err, contains, Error,
  replace_error, if◌then◌else◌, invalid_login_parameter, invalid_security_level, invalid_locale,
  ◌>>=◌,
}
use wonderwall.Base.Action.{Action, lift, pure, ◌>>=◌ as bind}
use wonderwall.Http.{Bytes, Pairs, Encoding, Request, RawUrlEncoding, UrlLibrary, get}
use wonderwall.Random.{generate_base64}
use wonderwall.Redirect.{login_callback_url, canonical_redirect}
use wonderwall.Loginstatus.{LoginstatusConfig, needs_resource_indicator}
use wonderwall.OpenId.Config.{OpenId, ProviderMetadata}

-- pkg/openid/cookies.go
pub record LoginCookie : Type 0 where
  pub state : String
  pub nonce : String
  pub code_verifier : String
  pub referer : String
  pub redirect_uri : String

pub record LoginParameters : Type 0 where
  pub code_verifier : String
  pub code_challenge : String
  pub nonce : String
  pub state : String

pub record Login : Type 0 where
  pub auth_code_url : String
  pub canonical_redirect : String
  pub cookie : LoginCookie
  pub params : LoginParameters

-- The configuration of the client and the provider, and the libraries: `auth_code_url` is
-- `oauth2.Config.AuthCodeURL` and `sha256` the sum of a text's bytes.
pub record Setup (W : Type 0) : Type 0 where
  pub open_id : OpenId
  pub metadata : ProviderMetadata
  pub loginstatus : LoginstatusConfig
  pub auth_code_url : String → Pairs → String
  pub sha256 : Bytes → Bytes
  pub random : ℕ → Action W Bytes
  pub encoding : Encoding
  pub raw : RawUrlEncoding
  pub urls : UrlLibrary

unfoldable pub login_url_parameter : Request → String → String → List String → Result String
login_url_parameter r parameter fallback supported =
    let given = get r.query parameter in
    let value = if given == "" then fallback else given in
    if contains supported value then ok value else err invalid_login_parameter

-- `LoginParameterMapping[param]` is `mapped`.
unfoldable pub with_param_mapping :
    Request → Pairs → String → String → String → List String → Result Pairs
unfolding login_url_parameter
with_param_mapping r opts param mapped fallback supported = if fallback == "" then ok opts else do
  value ← login_url_parameter r param fallback supported
  ok (opts ++ (mapped, value) ∷ [])

module _ {W : Type 0} (c : Setup W) where
  unfoldable pub with_security_level : Request → Pairs → Result Pairs
  unfolding with_param_mapping
  with_security_level r opts =
      with_param_mapping r opts "level" "acr_values" c.open_id.acr_values
        c.metadata.acr_values_supported

  unfoldable pub with_locale : Request → Pairs → Result Pairs
  unfolding with_param_mapping
  with_locale r opts =
      with_param_mapping r opts "locale" "ui_locales" c.open_id.ui_locales
        c.metadata.ui_locales_supported

  abbrev pub code_challenge : String → String
  code_challenge code_verifier = c.raw.encode (c.sha256 (c.encoding.to_bytes code_verifier))

  unfoldable pub new_login_parameters : Action W LoginParameters
  new_login_parameters = bind (generate_base64 c.random c.raw.encode 64) λ code_verifier.
      bind (generate_base64 c.random c.raw.encode 32) λ nonce.
        bind (generate_base64 c.random c.raw.encode 32) λ state. pure (record {
          code_verifier = code_verifier;
          code_challenge = code_challenge code_verifier;
          nonce = nonce;
          state = state;
        })

  abbrev pub base_options : LoginParameters → String → Pairs
  base_options p callback_url =
      let opts =
        ("nonce", p.nonce)
        ∷ ("response_mode", "query")
        ∷ ("code_challenge", p.code_challenge)
        ∷ ("code_challenge_method", "S256")
        ∷ ("redirect_uri", callback_url)
        ∷ [] in
      if needs_resource_indicator c.loginstatus
      then opts ++ ("resource", c.loginstatus.resource_indicator) ∷ []
      else opts

  -- The parameters of the URL, without those that the library adds.
  unfoldable pub auth_code_options : LoginParameters → Request → String → Result Pairs
  auth_code_options p r callback_url = do
    opts ←
        replace_error invalid_security_level (with_security_level r (base_options p callback_url))
    replace_error invalid_locale (with_locale r opts)

  unfoldable pub auth_code_url : LoginParameters → Request → String → Result String
  unfolding auth_code_options
  auth_code_url p r callback_url = do
    opts ← auth_code_options p r callback_url
    ok (c.auth_code_url p.state opts)

  abbrev pub cookie : LoginParameters → String → String → LoginCookie
  cookie p referer redirect_uri = record {
    state = p.state;
    nonce = p.nonce;
    code_verifier = p.code_verifier;
    referer = referer;
    redirect_uri = redirect_uri;
  }

  -- From the parameters on.
  login_with : Request → LoginParameters → Result Login
  unfolding auth_code_url
  login_with r p = do
    callback_url ← login_callback_url c.urls r
    url ← auth_code_url p r callback_url
    let referer = canonical_redirect c.urls c.encoding c.raw r
    ok (record {
      auth_code_url = url;
      canonical_redirect = referer;
      cookie = cookie p referer callback_url;
      params = p;
    })

  unfoldable pub new_login : Request → Action W Login
  unfolding new_login_parameters login_with
  new_login r = bind new_login_parameters λ p. lift (login_with r p)

-- ===== src/Loginstatus.antt =====
-- pkg/loginstatus/loginstatus.go: a cookie that says that a user has been logged in before, by a token of
-- another service. The HTTP client and encoding/json are parameters.
pub mod Attributes
use Prim.Native.String.{◌++◌ as append}
use wonderwall.Base.{
  ℕ, String, ◌==◌, Bool, true, false, not, ◌&&◌, [], ◌∷◌, List, Result, ok, err, other, leb, ltb,
  if◌then◌else◌,
}
use wonderwall.Base.Results.{◌>>=◌ as bind}
use wonderwall.Base.Action.{Action, lift, ◌>>=◌}
use wonderwall.Base.Int.{ℤ, pos, scale, wrap64}
use wonderwall.Http.{Pairs, HttpCookie, SameSite, default_mode, none_mode, Request, find_cookie}
use wonderwall.Cookie.{
  Options, make, clear, with_domain, with_same_site, with_path, with_expires_in,
}
use wonderwall.Session.Metadata.{Time, Duration, second}

-- config.Loginstatus
pub record LoginstatusConfig : Type 0 where
  pub enabled : Bool
  pub cookie_domain : String
  pub cookie_name : String
  pub resource_indicator : String
  pub token_url : String

abbrev pub same_site_mode : SameSite
same_site_mode = default_mode

abbrev pub loginservice_cookie_name : String
loginservice_cookie_name = "selvbetjening-idtoken"

pub record TokenResponse : Type 0 where
  pub access_token : String
  pub expires_in : ℤ

pub record ErrorResponse : Type 0 where
  pub error : String
  pub error_description : String

abbrev pub needs_resource_indicator : LoginstatusConfig → Bool
needs_resource_indicator c = c.enabled && not (c.resource_indicator == "")

-- A request without a body, and the answer to it; reading the body may fail.
pub record ClientRequest : Type 0 where
  pub method : String
  pub url : String
  pub headers : Pairs

pub record ClientResponse : Type 0 where
  pub status_code : ℕ
  pub body : Result String

-- `check_url` is what `http.NewRequestWithContext` says of a URL, `send` is `http.Client.Do`.
pub record Client (W : Type 0) : Type 0 where
  pub check_url : String → Result (Unit {0})
  pub send : ClientRequest → Action W ClientResponse
  pub unmarshal_error : String → Result ErrorResponse
  pub unmarshal_token : String → Result TokenResponse

module _ {W : Type 0} (client : Client W) where
  abbrev pub request : String → String → Result ClientRequest
  request url token = bind (client.check_url url) λ _. ok (record {
    method = "GET";
    url = url;
    headers = ("Authorization", append "Bearer " token) ∷ ("Accept", "application/json") ∷ [];
  })

  -- With the body read.
  read_body : ℕ → String → Result TokenResponse
  read_body status_code body =
      if leb 400 status_code && ltb status_code 500
      then (bind (client.unmarshal_error body) λ _. err other)
      else if leb 500 status_code
      then err other
      else client.unmarshal_token body

  unfoldable pub handle_response : ClientResponse → Result TokenResponse
  unfolding read_body
  handle_response resp = bind resp.body (read_body resp.status_code)

  unfoldable pub exchange_token : LoginstatusConfig → String → Action W TokenResponse
  unfolding handle_response
  exchange_token c access_token = do
    req ← lift (request c.token_url access_token)
    resp ← client.send req
    lift (handle_response resp)

module _ (c : LoginstatusConfig) where
  unfoldable pub cookie_options : Options → Options
  cookie_options opts =
      with_path "/" (with_same_site same_site_mode (with_domain c.cookie_domain opts))

  -- The cookie that `SetCookie` sets.
  unfoldable pub set_cookie : (Duration → ℤ) → Time → TokenResponse → Options → HttpCookie
  unfolding cookie_options
  set_cookie whole_seconds now token opts =
      let expires_in = wrap64 (scale token.expires_in second) in
      make whole_seconds now c.cookie_name token.access_token
        (with_expires_in expires_in (cookie_options opts))

  unfoldable pub has_cookie : Request → Bool
  has_cookie r = elim (find_cookie r.cookies c.cookie_name) [ ok _ ↦ true | err _ ↦ false ]

  -- The two cookies that `ClearCookie` sets.
  unfoldable pub clear_cookie : Options → List HttpCookie
  unfolding cookie_options
  clear_cookie opts =
      clear c.cookie_name (cookie_options opts)
      ∷ clear loginservice_cookie_name (with_same_site none_mode (cookie_options opts))
      ∷ []

  unfoldable pub needs_login : Request → Bool
  unfolding has_cookie
  needs_login r = c.enabled && not (has_cookie r)

-- ===== src/Api/Proxy.antt =====
-- pkg/handler/reverseproxy/reverseproxy.go: which requests go on to the application, and with which token.
-- Sending them is net/http/httputil.
pub mod Tokens
use Prim.Native.String.{◌++◌ as append}
use wonderwall.Base.{
  Bool, true, false, not, ◌&&◌, Option, none, some, List, [], ◌∷◌, String, ◌==◌, ℕ, Error,
  context_done, Result, ok, err, if◌then◌else◌,
}
use wonderwall.Base.Action.{Action}
use wonderwall.Http.{Request}
use wonderwall.AutoLogin
use wonderwall.Loginstatus
use wonderwall.Redirect.{login_url}
use wonderwall.Session.Handler.Refresh.{get_access_token}
use wonderwall.Api.{StandardHandler, get_path}

-- What becomes of a request: a redirect with status 307, or it is sent on, with a token in its context
-- or without one.
pub data Proxied : Type 0 where
  to_login : String → Proxied
  sent_on : Option String → Proxied

-- A header by its canonical names; a name without a value is absent.
abbrev pub Header : Type 0
Header = String → List String

-- `Header.Set` and an assignment to an entry.
abbrev pub assign : String → List String → Header → Header
assign name values h other = if name == other then values else h other

pub record Outgoing : Type 0 where
  pub host : String
  pub scheme : String
  pub header : Header

abbrev pub authorization : String
authorization = "Authorization"

abbrev pub with_token : Option String → Header → Header
with_token none h = h
with_token (some token) h = assign authorization (append "Bearer " token ∷ []) h

-- `Director`, with the token of the request's context.
unfoldable pub director : String → Option String → Outgoing → Outgoing
director upstream_host token r = record {
  host = upstream_host;
  scheme = "http";
  header = with_token token (assign "X-Forwarded-For" [] r.header);
}

-- `ErrorHandler`, by whether the error is `context.Canceled`.
abbrev pub error_status : Bool → ℕ
error_status canceled = if canceled then 499 else 502

module _ {W Held Jwks : Type 0} (src : StandardHandler W Held Jwks) where
  -- With the result of `GetAccessToken`: the token, if the request counts as authenticated.
  unfoldable pub token_of : Request → Result String → Option String
  token_of r (err _) = none
  token_of r (ok token) = if Loginstatus.needs_login src.loginstatus r then none else some token

  abbrev pub is_some : Option String → Bool
  is_some none = false
  is_some (some _) = true

  -- `url` is `r.URL.String()`.
  unfoldable pub proxied : Request → String → Option String → Proxied
  proxied r url token =
      if AutoLogin.needs_login src.matches src.auto_login r (is_some token)
      then to_login (login_url src.client.urls src.env.encoding src.client.raw (get_path src r) url)
      else sent_on token

  unfoldable pub proxy : Request → String → W → Proxied × W
  unfolding token_of proxied
  proxy r url w =
      let (result, v) =
        get_access_token src.env src.retrier src.session_config src.session_provider r.cookies w in
      (proxied r url (token_of r result), v)

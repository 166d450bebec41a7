-- ===== src/Tests/Flows.antt =====
-- The theorems on requests, logins and callbacks at concrete inputs.
use wonderwall.Base.{
  String, ◌≡◌, ◌≢◌, ◌↔◌, ◌⊎◌, ◌≤◌, inl, inr, refl, true, false, some, [], ◌∷◌, ok, len, starts_with,
  Has,
}
use wonderwall.Base.Int.{pos}
use wonderwall.Http.{Pairs, Url, UrlLibrary, RawUrlEncoding, Request, get}
use wonderwall.Redirect.{redirect_encoded, login_callback_url}
use wonderwall.Redirect.Target.{IsRawUrlEncoding}
use wonderwall.Ingress.{matching_path}
use wonderwall.Ingress.Matching.{matching_path_longest}
use wonderwall.OpenId.Token.{text}
use wonderwall.OpenId.Config.{OpenId, ProviderMetadata, Provider, new_provider_config}
use wonderwall.OpenId.Client.Login.{
  Setup, Login, LoginCookie, LoginParameters, new_login, auth_code_options, auth_code_url,
  code_challenge, with_security_level, with_locale, with_param_mapping, login_url_parameter,
  new_login_parameters,
}
use wonderwall.OpenId.Client.Login.Requests.{new_login_cookie}
use wonderwall.OpenId.Client.Callback.{LoginCallback, state_mismatch_error, Redeemer}
use wonderwall.OpenId.Client.Callback.Checks.{state_mismatch_error_iff}
use wonderwall.Random.{generate_base64}
use wonderwall.Tests.Codecs.{plain_encoding, plain_encoding-IsEncoding, letters-nonempty}

abbrev pub plain_raw : RawUrlEncoding
plain_raw = record { encode = plain_encoding.base64; decode = plain_encoding.from_base64 }

plain_raw-IsRawUrlEncoding : IsRawUrlEncoding plain_encoding plain_raw
plain_raw-IsRawUrlEncoding = record {
  decodes = plain_encoding-IsEncoding.decodes;
  empty = letters-nonempty;
  no_bytes = refl;
}

abbrev pub url_at : String → String → Url
url_at host path = record {
  scheme = "https";
  host = host;
  path = path;
  raw_query = "";
  others = [];
}

-- A library that reads every text as a path.
abbrev pub plain_urls : UrlLibrary
plain_urls = record {
  parse = λ s. ok (url_at "" s);
  print = λ u. u.path;
  query_unescape = λ s. ok s;
  encode = λ q. "";
  join = λ parts. "/app/oauth2/callback";
}

abbrev pub request : Request
request = record {
  method = "GET";
  host = "app.example";
  forwarded_host = "";
  path = "/app/page";
  query = ("state", "st") ∷ ("redirect", "/app/other") ∷ [];
  cookies = [];
  context_path = some "/app";
  context_ingress = some (url_at "app.example" "/app");
}

abbrev encoded_request : Request
encoded_request = record request {
  query = ("redirect-encoded", redirect_encoded plain_encoding plain_raw "/app/x") ∷ [];
}

encoded_parameter :
    get encoded_request.query "redirect-encoded"
    ≡ redirect_encoded plain_encoding plain_raw "/app/x"
unfolding get
encoded_parameter = refl

matching_path_longest_example :
    let m = matching_path ("/a" ∷ "/app" ∷ []) request in
    ((m ≡ "") ⊎ Has m ("/a" ∷ "/app" ∷ []))
    × (starts_with "/app/page" m ≡ true)
    × (len "/app" ≤ len m)
matching_path_longest_example =
    matching_path_longest ("/a" ∷ "/app" ∷ []) request "/app" (inr (inl refl)) refl

abbrev pub login_cookie : LoginCookie
login_cookie = record {
  state = "st";
  nonce = "n";
  code_verifier = "v";
  referer = "/app";
  redirect_uri = "https://app.example/app/oauth2/callback";
}

abbrev callback : LoginCallback
callback = record { cookie = login_cookie; request_params = ("state", "st") ∷ ("code", "c") ∷ [] }

state_mismatch_error_iff_example :
    (state_mismatch_error callback ≡ ok tt)
    ↔ ((get callback.request_params "state" ≡ "st") × (login_cookie.state ≢ ""))
state_mismatch_error_iff_example = state_mismatch_error_iff callback

abbrev pub any_redeemer : {W : Type 0} → Redeemer W Unit
any_redeemer = record {
  make_assertion = λ w. (ok "assertion", w);
  auth_code_grant = λ code opts w. (
    ok (record {
      access_token = "access-1";
      expiry = pos 20;
      id_token = some "jwt";
      refresh_token = "refresh-1";
      token_type = "Bearer";
    }),
    w,
  );
  get_public_jwk_set = λ w. (ok tt, w);
  refresh_public_jwk_set = λ w. (ok tt, w);
  parse = λ raw jwks. ok (("sid", text "s1") ∷ ("jti", text "j1") ∷ []);
  check = λ opts token. ok tt;
  expected = record { client_id = "app"; acr_values = ""; issuer = "i"; sid_claim_required = true };
}

abbrev redeemer : Redeemer Unit Unit
redeemer = any_redeemer

abbrev pub open_id : OpenId
open_id = record {
  provider = "idporten";
  client_id = "app";
  client_jwk = "jwk";
  post_logout_redirect_uri = "";
  scopes = [];
  well_known_url = "https://id.example/well-known";
  acr_values = "Level4";
  ui_locales = "nb";
}

abbrev pub metadata : ProviderMetadata
metadata = record {
  issuer = "https://id.example";
  authorization_endpoint = "https://id.example/authorize";
  pushed_authorization_request_endpoint = "";
  token_endpoint = "https://id.example/token";
  end_session_endpoint = "/logout";
  revocation_endpoint = "";
  jwks_uri = "https://id.example/jwks";
  response_types_supported = [];
  response_modes_supported = [];
  subject_types_supported = [];
  id_token_signing_alg_values_supported = [];
  code_challenge_methods_supported = [];
  user_info_endpoint = "";
  scopes_supported = [];
  ui_locales_supported = "nn" ∷ "nb" ∷ [];
  acr_values_supported = "Level3" ∷ "Level4" ∷ [];
  frontchannel_logout_supported = true;
  frontchannel_logout_session_supported = true;
  introspection_endpoint = "";
  token_endpoint_auth_methods_supported = [];
  request_parameter_supported = false;
  request_uri_parameter_supported = false;
  request_object_signing_alg_values_supported = [];
  check_session_iframe = "";
}

abbrev pub provider : Provider
provider = record {
  end_session_endpoint_url = url_at "" "/logout";
  metadata = metadata;
  name = "idporten";
}

accepted :
    (new_provider_config plain_urls.parse (λ u w. (ok metadata, w)) open_id tt).0 ≡ ok provider
unfolding new_provider_config
accepted = refl

abbrev pub any_setup : {W : Type 0} → Setup W
any_setup = record {
  open_id = open_id;
  metadata = metadata;
  loginstatus = record {
    enabled = false;
    cookie_domain = "";
    cookie_name = "";
    resource_indicator = "";
    token_url = "";
  };
  auth_code_url = λ state opts. state;
  sha256 = λ b. b;
  random = λ n w. (ok (n ∷ []), w);
  encoding = plain_encoding;
  raw = plain_raw;
  urls = plain_urls;
}

abbrev setup : Setup Unit
setup = any_setup

abbrev parameters : LoginParameters
parameters = record { code_verifier = "v"; code_challenge = "c"; nonce = "n"; state = "st" }

logged_in : (l : Login) × ((new_login setup request tt).0 ≡ ok l)
unfolding new_login new_login_parameters generate_base64 auth_code_url auth_code_options
    with_security_level with_locale with_param_mapping login_url_parameter login_callback_url get
logged_in = (_, refl)

new_login_cookie_example :
    (opts : Pairs) × (logged_in.0.auth_code_url ≡ setup.auth_code_url logged_in.0.cookie.state opts)
    × (get opts "nonce" ≡ logged_in.0.cookie.nonce)
    × (get opts "code_challenge" ≡ code_challenge setup logged_in.0.cookie.code_verifier)
    × (get opts "redirect_uri" ≡ logged_in.0.cookie.redirect_uri)
    × (login_callback_url plain_urls request ≡ ok logged_in.0.cookie.redirect_uri)
new_login_cookie_example = new_login_cookie setup request tt logged_in.0 logged_in.1

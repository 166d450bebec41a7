-- ===== src/Redirect.antt =====
-- pkg/handler/url/url.go: where a login leads back to, and the URLs of the callbacks.
pub mod Target
use wonderwall.Base.{
  String, ◌==◌, Option, none, some, List, [], ◌∷◌, Result, ok, err, other, if◌then◌else◌,
}
use wonderwall.Http.{Bytes, Encoding, Url, UrlLibrary, RawUrlEncoding, Request, get}

abbrev pub redirect_parameter : String
redirect_parameter = "redirect"

abbrev pub redirect_encoded_parameter : String
redirect_encoded_parameter = "redirect-encoded"

-- pkg/router/paths
abbrev pub oauth2 : String
oauth2 = "/oauth2"

abbrev pub login : String
login = "/login"

abbrev pub login_callback : String
login_callback = "/callback"

abbrev pub logout_callback : String
logout_callback = "/logout/callback"

-- The path of the ingress, or "/" where the middleware found none.
abbrev pub ingress_path : Option String → String
ingress_path none = "/"
ingress_path (some p) = if p == "" then "/" else p

module _ (encoding : Encoding) (raw : RawUrlEncoding) where
  unfoldable pub redirect_encoded : String → String
  redirect_encoded s = raw.encode (encoding.to_bytes s)

  unfoldable pub redirect_decoded : Request → String
  redirect_decoded r =
      let param_value = get r.query redirect_encoded_parameter in
      if param_value == ""
      then ""
      else elim (raw.decode param_value) [ ok bytes ↦ encoding.to_string bytes | err _ ↦ "" ]

module _ (urls : UrlLibrary) where
  -- From the parsed redirect on.
  unfoldable pub same_origin : String → Url → String
  same_origin fallback parsed =
      let printed = urls.print (record parsed { scheme = ""; host = "" }) in
      let redirect = if parsed.path == "" then "/" else printed in
      if redirect == "" then fallback else redirect

  parsed_redirect : String → Result Url → String
  unfolding same_origin
  parsed_redirect fallback (ok parsed) = same_origin fallback parsed
  parsed_redirect fallback (err _) = fallback

  unescaped_redirect : String → Result String → String
  unfolding parsed_redirect
  unescaped_redirect fallback (ok redirect) = parsed_redirect fallback (urls.parse redirect)
  unescaped_redirect fallback (err _) = fallback

  unfoldable pub canonical_redirect : Encoding → RawUrlEncoding → Request → String
  unfolding redirect_decoded unescaped_redirect
  canonical_redirect encoding raw r =
      let fallback = ingress_path r.context_path in
      let param = get r.query redirect_parameter in
      let redirect = if param == "" then fallback else param in
      let decoded = redirect_decoded encoding raw r in
      let redirect = if decoded == "" then redirect else decoded in
      unescaped_redirect fallback (urls.query_unescape redirect)

  unfoldable pub login_url : Encoding → RawUrlEncoding → String → String → String
  unfolding redirect_encoded
  login_url encoding raw prefix redirect_target = urls.print (record {
    scheme = "";
    host = "";
    path = urls.join (prefix ∷ oauth2 ∷ login ∷ []);
    raw_query =
        urls.encode
          ((redirect_encoded_parameter, redirect_encoded encoding raw redirect_target) ∷ []);
    others = [];
  })

  unfoldable pub make_callback_url : Request → String → Result String
  make_callback_url r callback_path = elim r.context_ingress [
    | none ↦ err other
    | some ingress ↦ ok (
        urls.print (record {
          scheme = ingress.scheme;
          host = ingress.host;
          path = urls.join (ingress.path ∷ oauth2 ∷ callback_path ∷ []);
          raw_query = "";
          others = [];
        }))
  ]

  unfoldable pub login_callback_url : Request → Result String
  unfolding make_callback_url
  login_callback_url r = make_callback_url r login_callback

  unfoldable pub logout_callback_url : Request → Result String
  unfolding make_callback_url
  logout_callback_url r = make_callback_url r logout_callback

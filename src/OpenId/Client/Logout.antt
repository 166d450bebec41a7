-- ===== src/OpenId/Client/Logout.antt =====
-- pkg/openid/client/logout.go, logout_callback.go and logout_frontchannel.go: the parts of a logout that
-- concern the provider.
use wonderwall.Base.{
  String, ◌==◌, Bool, none, some, [], ◌∷◌, ◌++◌, Result, ok, ◌>>=◌, if◌then◌else◌,
}
use wonderwall.Http.{Pairs, Request, Url, UrlLibrary, get}
use wonderwall.Redirect.{logout_callback_url}

pub record Logout : Type 0 where
  pub logout_callback_url : String

unfoldable pub new_logout : UrlLibrary → Request → Result Logout
new_logout urls r = do url ← logout_callback_url urls r; ok (record { logout_callback_url = url })

-- The parameters that are added to those of the endpoint.
abbrev pub logout_parameters : Logout → String → Pairs
logout_parameters l id_token =
    ("post_logout_redirect_uri", l.logout_callback_url)
    ∷ (if id_token == "" then [] else ("id_token_hint", id_token) ∷ [])

-- `parse_query` is `URL.Query`.
unfoldable pub single_logout_url : UrlLibrary → (String → Pairs) → Url → Logout → String → String
single_logout_url urls parse_query end_session_endpoint l id_token =
    urls.print (record end_session_endpoint {
      raw_query =
          urls.encode (parse_query end_session_endpoint.raw_query ++ logout_parameters l id_token);
    })

-- The redirect of the configuration, the ingress of the request, or "/".
unfoldable pub post_logout_redirect_uri : UrlLibrary → String → Request → String
post_logout_redirect_uri urls configured r =
    if configured == ""
    then elim r.context_ingress [ none ↦ "/" | some ingress ↦ urls.print ingress ]
    else configured

pub record LogoutFrontchannel : Type 0 where
  pub sid : String

abbrev pub new_logout_frontchannel : Request → LogoutFrontchannel
new_logout_frontchannel r = record { sid = get r.query "sid" }

abbrev pub missing_sid_parameter : LogoutFrontchannel → Bool
missing_sid_parameter l = l.sid == ""

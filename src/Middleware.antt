-- ===== src/Middleware.antt =====
-- pkg/middleware: what is known of a request before its handler runs, and what is logged of it.
pub mod Callbacks
pub mod Observers
use Prim.Native.String.{◌++◌ as append}
use wonderwall.Base.{
  ℕ, String, ◌==◌, Bool, true, false, not, ◌&&◌, ◌||◌, Option, none, some, List, [], ◌∷◌, Result,
  ok, err, leb, ltb, if◌then◌else◌,
}
use wonderwall.Http.{Pairs, Request, Url, UrlLibrary}
use wonderwall.Cookie
use wonderwall.Ingress.{Ingresses, matching_path, matching_ingress}

-- context.go: the values in the context of a request are fields of the request.
abbrev pub with_path : String → Request → Request
with_path path r = record r { context_path = some path }

abbrev pub with_ingress : Url → Request → Request
with_ingress ingress r = record r { context_ingress = some ingress }

-- ingress.go. `visited` has the ingresses in the order in which Go visits its map.
unfoldable pub ingress_handler : Ingresses → List Url → Request → Request
ingress_handler ingresses visited r =
    let r' = with_path (matching_path ingresses.paths r) r in
    elim (matching_ingress ingresses.paths visited r) [
      | some ingress ↦ with_ingress ingress r'
      | none ↦ r'
    ]

-- correlationid.go: the ID of the request's header, or a new one.
abbrev pub correlation_id : String → String → String
correlation_id header new_id = if header == "" then new_id else header

-- logentry.go
unfoldable pub status_label : ℕ → String
status_label status =
    if leb 100 status && ltb status 300
    then "OK"
    else if leb 300 status && ltb status 400
    then "Redirect"
    else if leb 400 status && ltb status 500
    then "Client Error"
    else if leb 500 status
    then "Server Error"
    else "Unknown"

unfoldable pub is_relevant_cookie : String → Bool
is_relevant_cookie name =
    name == Cookie.session || name == Cookie.login || name == Cookie.login_legacy

-- The names that are logged.
unfoldable pub relevant_names : Pairs → List String
relevant_names [] = []
relevant_names ((name, value) ∷ rest) =
    if not (is_relevant_cookie name) || value == ""
    then relevant_names rest
    else name ∷ relevant_names rest

-- strings.Join
join_with : String → List String → String
join_with separator [] = ""
join_with separator (a ∷ []) = a
join_with separator (a ∷ b ∷ rest) = append a (append separator (join_with separator (b ∷ rest)))

unfoldable pub non_empty_request_cookies : Request → String
unfolding join_with
non_empty_request_cookies r = join_with ", " (relevant_names r.cookies)

-- The headers of a request, and its protocol, as far as they are logged.
pub record Logged : Type 0 where
  pub protocol : String
  pub referer : String
  pub user_agent : String

-- `fragmentless` sets the field `RawFragment` of an URL, which the code does not otherwise use, to "".
unfoldable pub logged_referer : UrlLibrary → (Url → Url) → String → String
logged_referer urls fragmentless referer = elim (urls.parse referer) [
  | ok u ↦ urls.print (fragmentless (record u { raw_query = "" }))
  | err _ ↦ referer
]

unfoldable pub with_request_log_fields : UrlLibrary → (Url → Url) → Request → Logged → Pairs
unfolding non_empty_request_cookies logged_referer
with_request_log_fields urls fragmentless r l =
    ("request_cookies", non_empty_request_cookies r)
    ∷ ("request_host", r.host)
    ∷ ("request_method", r.method)
    ∷ ("request_path", r.path)
    ∷ ("request_protocol", l.protocol)
    ∷ ("request_referer", logged_referer urls fragmentless l.referer)
    ∷ ("request_user_agent", l.user_agent)
    ∷ []

unfoldable pub new_log_entry : String → String → Request → Logged → Pairs
new_log_entry provider id r l =
    ("correlation_id", id)
    ∷ ("provider", provider)
    ∷ ("request_host", r.host)
    ∷ ("request_method", r.method)
    ∷ ("request_path", r.path)
    ∷ ("request_user_agent", l.user_agent)
    ∷ []

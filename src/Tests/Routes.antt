-- ===== src/Tests/Routes.antt =====
-- A request to the router, at a concrete configuration.
use Prim.Native.String.{◌++◌ as append}
use wonderwall.Base.{
  String, ◌==◌, ◌≡◌, refl, subst, [], ◌∷◌, none, ok, true, ◌&&◌, contains, All, List, if◌then◌else◌,
  eq_iff, arith, sym,
}
use wonderwall.Base.Int.{pos}
use wonderwall.Http.{Request, Url}
use wonderwall.Ingress.{
  parse_ingresses, parse_ingress, map_ingresses, matching_path, matching_ingress,
}
use wonderwall.Middleware.{ingress_handler}
use wonderwall.Redirect.{login_callback_url, oauth2}
use wonderwall.Slashes.{trim_right}
use wonderwall.Session.Store.Memory.{Memory, new_memory}
use wonderwall.Api.{StandardHandler}
use wonderwall.Api.LoginCallback
use wonderwall.Router.{Chi, Found, Route, mounts, routes, endpoint, catch_all, answer, serve}
use wonderwall.Router.Callbacks.{IsChi, get_of, login_callback_url-serve}
use wonderwall.Tests.Flows.{request, url_at}
use wonderwall.Tests.Handlers.{site_at}
use wonderwall.Tests.Starts.{start_urls}

abbrev find_route : String → List Route → String → String → Found → Found
find_route base [] method path other = other
find_route base (r ∷ rest) method path other =
    let found = find_route base rest method path other in
    if append base r.pattern == path && r.method == method then endpoint r.endpoint else found

-- The first route of the method and the path.
abbrev first_route : Chi
first_route [] method path = catch_all
first_route (m ∷ rest) method path =
    find_route m.pattern m.routes method path (first_route rest method path)

only_app : (p : String) → contains ("/app" ∷ []) p ≡ true → p ≡ "/app"
only_app p h = sym ((eq_iff "/app" p).0 (ground arith))

RoutesAt : String → Type 0
RoutesAt prefix =
    All
      (λ (r : Route).
        first_route (mounts ("/app" ∷ [])) r.method (append (append prefix oauth2) r.pattern)
        ≡ endpoint r.endpoint)
      routes

app_routes : RoutesAt "/app"
unfolding RoutesAt mounts
app_routes = (refl, (refl, (refl, (refl, (refl, (refl, (refl, (refl, (refl, tt)))))))))

first_route-IsChi : IsChi first_route ("/app" ∷ [])
unfolding RoutesAt
first_route-IsChi = record { routed = λ _ p at. subst RoutesAt (sym (only_app p at)) app_routes }

abbrev routed_site : StandardHandler Memory Unit Unit
routed_site = record (site_at (pos 5)) {
  ingresses = record {
    ingress_map = ("/app", url_at "app.example" "/app") ∷ [];
    hosts = "app.example" ∷ [];
    paths = "/app" ∷ [];
    urls = "/app" ∷ [];
  };
  client = record (site_at (pos 5)).client { urls = start_urls };
}

accepted_ingresses :
    parse_ingresses start_urls (λ m. m) ("/app/" ∷ "/app" ∷ []) ≡ ok routed_site.ingresses
unfolding parse_ingresses parse_ingress map_ingresses trim_right
accepted_ingresses = refl

abbrev arrival : Request
arrival = record request { context_path = none; context_ingress = none }

abbrev app_url : Url
app_url = url_at "app.example" "/app"

arrival_url :
    login_callback_url start_urls (ingress_handler routed_site.ingresses (app_url ∷ []) arrival)
    ≡ ok "/app/oauth2/callback"
unfolding login_callback_url ingress_handler matching_path matching_ingress
arrival_url = refl

login_callback_url-serve_example :
    (u : Url) × ("/app/oauth2/callback" ≡ start_urls.print u)
    × (serve routed_site first_route (app_url ∷ []) (get_of routed_site u arrival) "/" new_memory
        ≡ answer routed_site
            (LoginCallback.login_callback routed_site
              (ingress_handler routed_site.ingresses (app_url ∷ []) (get_of routed_site u arrival)))
            new_memory)
login_callback_url-serve_example =
    login_callback_url-serve routed_site first_route (λ m. m) ("/app/" ∷ "/app" ∷ []) (app_url ∷ [])
      arrival arrival "/app/oauth2/callback" "/" new_memory accepted_ingresses (λ i at. at)
      first_route-IsChi (refl, tt) refl arrival_url

-- ===== src/Ingress.antt =====
-- pkg/ingress/ingress.go: the ingresses of the application, and which one a request came through.
-- Go visits the entries of a map in any order: a function that does so takes the entries in the order
-- of the visit.
pub mod Matching
pub mod Parsing
pub mod Paths
use wonderwall.Base.{
  String, ◌==◌, len, starts_with, ltb, Bool, true, false, ◌&&◌, ◌||◌, Option, none, some, List, [],
  ◌∷◌, ◌++◌, map, Result, ok, err, other, contains, if◌then◌else◌, ◌>>=◌,
}
use wonderwall.Http.{Url, UrlLibrary, Request}
use wonderwall.Slashes.{trim_right}

must_scheme : Url → Bool
must_scheme u = u.scheme == "http" || u.scheme == "https"

-- From the parsed URL on.
unfoldable pub checked_ingress : Url → Result Url
unfolding must_scheme
checked_ingress u =
    if u.host == ""
    then err other
    else if must_scheme u
    then ok (record u { path = trim_right u.path })
    else err other

unfoldable pub parse_ingress : UrlLibrary → String → Result Url
unfolding checked_ingress
parse_ingress urls ingress =
    if ingress == "" then err other else (urls.parse ingress >>= checked_ingress)

-- The entries of `map[string]Ingress` in the order of their insertion.
abbrev pub IngressMap : Type 0
IngressMap = List (String × Url)

has_key : String → IngressMap → Bool
has_key k [] = false
has_key k ((j, _) ∷ rest) = j == k || has_key k rest

insert_new : String → Url → IngressMap → IngressMap
unfolding has_key
insert_new k u seen = if has_key k seen then seen else seen ++ (k, u) ∷ []

-- The loop of `ParseIngresses`.
parse_into : UrlLibrary → List String → IngressMap → Result IngressMap
unfolding insert_new
parse_into urls [] seen = ok seen
parse_into urls (raw ∷ rest) seen = do
  ingress ← parse_ingress urls raw
  parse_into urls rest (insert_new (urls.print ingress) ingress seen)

-- The loop of `mapIngresses`: each value once, in the order of the visit.
map_into : (Url → String) → List Url → List String → List String
map_into f [] result = result
map_into f (ingress ∷ rest) result =
    map_into f rest (if contains result (f ingress) then result else result ++ f ingress ∷ [])

unfoldable pub map_ingresses : List Url → (Url → String) → List String
unfolding map_into
map_ingresses visited f = map_into f visited []

pub record Ingresses : Type 0 where
  pub ingress_map : IngressMap
  pub hosts : List String
  pub paths : List String
  pub urls : List String

abbrev pub ingresses_of : IngressMap → List Url
ingresses_of m = map (λ e. e.1) m

-- `visit` is the order in which a map's entries are visited.
unfoldable pub parse_ingresses :
    UrlLibrary → (IngressMap → IngressMap) → List String → Result Ingresses
unfolding parse_into
parse_ingresses urls visit [] = err other
parse_ingresses urls visit (first ∷ rest) = do
  seen ← parse_into urls (first ∷ rest) []
  let visited = ingresses_of (visit seen)
  ok (record {
    ingress_map = seen;
    hosts = map_ingresses visited (λ i. i.host);
    paths = map_ingresses visited (λ i. i.path);
    urls = map_ingresses visited urls.print;
  })

-- One turn of the loop of `MatchingPath`.
longer : String → String → String → String
longer req_path result p =
    if p == ""
    then result
    else if starts_with req_path p && ltb (len result) (len p)
    then p
    else result

unfoldable pub matching_path_from : String → String → List String → String
unfolding longer
matching_path_from req_path result [] = result
matching_path_from req_path result (p ∷ ps) =
    matching_path_from req_path (longer req_path result p) ps

unfoldable pub matching_path : List String → Request → String
unfolding matching_path_from
matching_path paths r = matching_path_from r.path "" paths

-- The first entry that is visited and matches.
unfoldable pub matching_ingress : List String → List Url → Request → Option Url
matching_ingress paths [] r = none
matching_ingress paths (ingress ∷ rest) r =
    if (ingress.host == r.host || ingress.host == r.forwarded_host)
      && ingress.path == matching_path paths r
    then some ingress
    else matching_ingress paths rest r

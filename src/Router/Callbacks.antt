-- ===== src/Router/Callbacks.antt =====
-- The route that a callback URL leads to (pkg/router/router.go).
use Prim.Native.String.{◌++◌ as append}
use text.Mathlib.TextLemmas.{append_cancel_right}
use wonderwall.Base.{
  String, ◌==◌, ◌≡◌, inl, inr, refl, sym, ap, ◌∙◌, true, none, List, [], ◌∷◌, map, ok, arith, All,
  Bool-cases, eq_iff, eq_refl, contains,
}
use wonderwall.Http.{Request, Url, UrlLibrary}
use wonderwall.Ingress.{IngressMap, ingresses_of, parse_ingresses}
use wonderwall.Ingress.Paths.{Distinct, In, first, later, parse_ingresses_paths}
use wonderwall.Middleware.{ingress_handler}
use wonderwall.Middleware.Callbacks.{Serves, here, there, login_callback_url-Serves}
use wonderwall.Redirect.{login_callback_url, oauth2, login_callback}
use wonderwall.Api.{StandardHandler}
use wonderwall.Api.LoginCallback
use wonderwall.Router.{
  Chi, Route, Mount, mounts, routes, endpoint, to_login_callback, answer, dispatch, handler, serve,
}

abbrev pub patterns : List Mount → List String
patterns ms = map (λ m. m.pattern) ms

same_suffix : (p q : String) → (append p oauth2 == append q oauth2) ≡ (p == q)
same_suffix p q = elim (Bool-cases (p == q)) [
  | inl e ↦
      ap (λ t. append t oauth2 == append q oauth2) ((eq_iff p q).0 e)
      ∙ eq_refl (append q oauth2)
      ∙ sym e
  | inr e ↦ elim (Bool-cases (append p oauth2 == append q oauth2)) [
    | inr n ↦ n ∙ sym e
    | inl n ↦
        let same = append_cancel_right p q oauth2 ((eq_iff _ _).0 n) in
        absurd (ground (arith, eq_refl q, ap (λ t. t == q) same))
  ]
]

contains-mounts :
    (prefixes : List String) (p : String)
    → contains (patterns (mounts prefixes)) (append p oauth2) ≡ contains prefixes p
unfolding mounts
contains-mounts [] p = refl
contains-mounts (q ∷ rest) p = ground (arith, same_suffix q p, contains-mounts rest p)

-- No pattern is mounted twice, where the prefixes are distinct.
mounts-Distinct :
    (prefixes : List String) → Distinct prefixes → Distinct (patterns (mounts prefixes))
unfolding mounts
mounts-Distinct [] h = tt
mounts-Distinct (p ∷ rest) h = (contains-mounts rest p ∙ h.0, mounts-Distinct rest h.1)

-- What chi documents of prefixes without wildcards: where no pattern is mounted twice, each of the routes
-- is found, below each of the prefixes.
pub record IsChi (chi : Chi) (prefixes : List String) : Type 0 where
  pub routed :
      Distinct (patterns (mounts prefixes))
      → (prefix : String) → contains prefixes prefix ≡ true
      → All
          (λ (r : Route).
            chi (mounts prefixes) r.method (append (append prefix oauth2) r.pattern)
            ≡ endpoint r.endpoint)
          routes

Serves-In :
    (paths : List String) (r : Request) (i : Url) (visited : List Url)
    → Serves paths r i visited
    → In i visited
Serves-In paths r i [] s = elim s [ ]
Serves-In paths r _ (i ∷ rest) (here host path) = first
Serves-In paths r i (j ∷ rest) (there s) = later (Serves-In paths r i rest s)

-- The path of the ingress is clean, without a doubled slash or a dot segment: path.Join, which cleans its
-- result, makes the concatenation of the path and the callback. Ingresses with other paths are accepted, and
-- for them the callback URL does not have the prefix of the routes.
abbrev pub IsClean : UrlLibrary → Url → Type 0
IsClean urls i =
    urls.join (i.path ∷ oauth2 ∷ login_callback ∷ []) ≡ append (append i.path oauth2) login_callback

All-In : (P : Url → Type 0) (urls : List Url) (u : Url) → All P urls → In u urls → P u
All-In P [] u h i = elim i [ ]
All-In P (u ∷ rest) _ h first = h.0
All-In P (v ∷ rest) u h (later i) = All-In P rest u h.1 i

module _ {W Held Jwks : Type 0} (src : StandardHandler W Held Jwks) where
  -- The request that a browser makes for a URL.
  abbrev pub get_of : Url → Request → Request
  get_of u q = record q { method = "GET"; path = u.path }

  found-serve :
      (chi : Chi) (visited : List Url) (u : Url) (q : Request) (s : String) (w : W)
      → chi (mounts src.ingresses.paths) "GET" u.path ≡ endpoint to_login_callback
      → serve src chi visited (get_of u q) s w
        ≡ answer src
            (LoginCallback.login_callback src (ingress_handler src.ingresses visited (get_of u q)))
            w
  unfolding serve handler
  found-serve chi visited u q s w h =
      ap (λ f. dispatch src f (ingress_handler src.ingresses visited (get_of u q)) s w) h

  abbrev callback_at : Url → Url
  callback_at i = record {
    scheme = i.scheme;
    host = i.host;
    path = src.client.urls.join (i.path ∷ oauth2 ∷ login_callback ∷ []);
    raw_query = "";
    others = [];
  }

  -- The callback URL of a login leads back: where the ingresses were accepted, their paths are clean and
  -- chi keeps to what it documents, a GET request for the path of the URL that a login gives the provider is answered by the
  -- handler of login callbacks, whatever else the request has.
  pub login_callback_url-serve :
      (chi : Chi) (visit : IngressMap → IngressMap) (raws : List String) (visited : List Url)
      (r q : Request) (url s : String) (w : W)
      → parse_ingresses src.client.urls visit raws ≡ ok src.ingresses
      → ((i : Url) → In i visited → In i (ingresses_of (visit src.ingresses.ingress_map)))
      → IsChi chi src.ingresses.paths
      → All (IsClean src.client.urls) visited
      → r.context_ingress ≡ none
      → login_callback_url src.client.urls (ingress_handler src.ingresses visited r) ≡ ok url
      → (u : Url) × (url ≡ src.client.urls.print u)
        × (serve src chi visited (get_of u q) s w
            ≡ answer src
                (LoginCallback.login_callback src
                  (ingress_handler src.ingresses visited (get_of u q)))
                w)
  login_callback_url-serve chi visit raws visited r q url s w accepted same is_chi clean fresh h =
      let (i, serves, is_url) =
        login_callback_url-Serves src.client.urls src.ingresses visited r url fresh h in
      let at = Serves-In src.ingresses.paths r i visited serves in
      let (distinct, has) =
        parse_ingresses_paths src.client.urls visit raws src.ingresses accepted in
      let routed =
        is_chi.routed (mounts-Distinct src.ingresses.paths distinct) i.path (has i (same i at)) in
      let joined = All-In (IsClean src.client.urls) visited i clean at in
      let found = ap (λ path. chi (mounts src.ingresses.paths) "GET" path) joined ∙ routed.1.0 in
      (callback_at i, is_url, found-serve chi visited (callback_at i) q s w found)

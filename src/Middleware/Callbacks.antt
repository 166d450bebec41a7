-- ===== src/Middleware/Callbacks.antt =====
-- Where the callback URLs of a request lead that came through the middleware (pkg/middleware/ingress.go,
-- pkg/handler/url/url.go).
use wonderwall.Base.{
  String, ◌==◌, ◌≡◌, refl, subst, sym, ap, ◌∙◌, ◌⊎◌, inl, inr, true, ◌&&◌, ◌||◌, Option, none, some,
  List, [], ◌∷◌, ok, arith, Bool-cases, eq_iff,
}
use wonderwall.Http.{Request, Url, UrlLibrary}
use wonderwall.Ingress.{Ingresses, matching_path, matching_ingress}
use wonderwall.Redirect.{login_callback_url, oauth2, login_callback}
use wonderwall.Middleware.{ingress_handler}

Option-cases : {A : Type 0} (o : Option A) → ((a : A) × (o ≡ some a)) ⊎ (o ≡ none)
Option-cases none = inr refl
Option-cases (some a) = inl (a, refl)

-- The ingress is one of the list, of a host that the request names, and its path is the longest that the
-- request matches.
pub data Serves (paths : List String) (r : Request) (i : Url) : List Url → Type 0 where
  here :
      {rest : List Url}
      → (i.host ≡ r.host) ⊎ (i.host ≡ r.forwarded_host)
      → i.path ≡ matching_path paths r
      → Serves paths r i (i ∷ rest)
  there : {j : Url} {rest : List Url} → Serves paths r i rest → Serves paths r i (j ∷ rest)

same_text : (s t : String) → (s == t) ≡ true → s ≡ t
same_text s t = (eq_iff s t).0

either_host :
    (i : Url) (r : Request)
    → (i.host == r.host || i.host == r.forwarded_host) ≡ true
    → (i.host ≡ r.host) ⊎ (i.host ≡ r.forwarded_host)
either_host i r h = elim (Bool-cases (i.host == r.host)) [
  | inl e ↦ inl (same_text i.host r.host e)
  | inr n ↦ inr (same_text i.host r.forwarded_host (ground arith))
]

pub matching_ingress-Serves :
    (paths : List String) (visited : List Url) (r : Request) (i : Url)
    → matching_ingress paths visited r ≡ some i
    → Serves paths r i visited
unfolding matching_ingress
matching_ingress-Serves paths [] r i h = cc
matching_ingress-Serves paths (j ∷ rest) r i h =
    let at_host = j.host == r.host || j.host == r.forwarded_host in
    let at_path = j.path == matching_path paths r in
    elim (Bool-cases (at_host && at_path)) [
      | inr off ↦ there (matching_ingress-Serves paths rest r i (ground arith))
      | inl on ↦
          let same : j ≡ i = ground arith in
          subst (λ k. Serves paths r i (k ∷ rest)) (sym same)
            (here
              (either_host i r (
                ap (λ k. k.host == r.host || k.host == r.forwarded_host) (sym same) ∙ ground arith))
              (same_text i.path (matching_path paths r)
                (ap (λ k. k.path == matching_path paths r) (sym same) ∙ ground arith)))
    ]

-- The callback URL of a login, of a request that has come through the middleware, is that of an ingress of
-- the application: whatever hosts the request names, the URL is made of the scheme, the host and the path
-- of a configured ingress, which has one of these hosts and the longest path that the request matches.
pub login_callback_url-Serves :
    (urls : UrlLibrary) (ingresses : Ingresses) (visited : List Url) (r : Request) (url : String)
    → r.context_ingress ≡ none
    → login_callback_url urls (ingress_handler ingresses visited r) ≡ ok url
    → (i : Url) × Serves ingresses.paths r i visited
      × (url
          ≡ urls.print (record {
            scheme = i.scheme;
            host = i.host;
            path = urls.join (i.path ∷ oauth2 ∷ login_callback ∷ []);
            raw_query = "";
            others = [];
          }))
unfolding login_callback_url ingress_handler
login_callback_url-Serves urls ingresses visited r url fresh h =
    let found = matching_ingress ingresses.paths visited r in
    elim (Option-cases found) [
      | inl (i, e) ↦ (i, matching_ingress-Serves ingresses.paths visited r i e, ground arith)
      | inr e ↦ absurd (ground arith)
    ]

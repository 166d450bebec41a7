-- ===== src/Tests/Logins.antt =====
-- The login handler, the middleware before it and the keys of the provider at concrete inputs.
use wonderwall.Base.{
  List, ◌++◌, String, ◌≡◌, arith, refl, none, [], ◌∷◌, ok, err, Result, ap, sym, ◌∙◌,
}
use wonderwall.Base.Int.{pos, ◌-ℤ◌, saturate64}
use wonderwall.Http.{Bytes, Request, Url}
use wonderwall.Redirect.{login_callback_url}
use wonderwall.Ingress.{Ingresses, matching_path, matching_ingress}
use wonderwall.Middleware.{ingress_handler}
use wonderwall.OpenId.Keys.{JwksProvider, get_public_jwk_set, JwksCache, refresh_public_jwk_set}
use wonderwall.OpenId.Keys.Intervals.{
  IsWatched, Spaced, Calls, finished, elapse, called, Calls-Spaced,
}
use wonderwall.OpenId.Client.Login.{
  LoginCookie, new_login, new_login_parameters, auth_code_url, auth_code_options,
  with_security_level, with_locale, with_param_mapping, login_url_parameter,
}
use wonderwall.OpenId.Client.Login
use wonderwall.Random.{generate_base64}
use wonderwall.Session.Metadata.{Time, sub}
use wonderwall.Session.Store.Memory.{Memory, new_memory}
use wonderwall.Api.{StandardHandler}
use wonderwall.Api.Answers.{begin, redirect}
use wonderwall.Api.Login.{login, set_login_cookies}
use wonderwall.Api.Login.Cookies.{IsRemembered, login-IsRemembered}
use wonderwall.Tests.Codecs.{
  plain_encoding, plain_encoding-IsEncoding, put_text, get_text, get_text-put_text,
}
use wonderwall.Tests.World.{open_crypter-IsCrypter}
use wonderwall.Tests.Flows.{request, plain_urls, url_at}
use wonderwall.Tests.Handlers.{handling, site_at}

abbrev put_cookie : LoginCookie → Bytes
put_cookie c =
    put_text c.state (
      put_text c.nonce (put_text c.code_verifier (put_text c.referer (put_text c.redirect_uri []))))

abbrev get_cookie : Bytes → LoginCookie
get_cookie b₀ =
    let (state, b₁) = get_text b₀ in
    let (nonce, b₂) = get_text b₁ in
    let (code_verifier, b₃) = get_text b₂ in
    let (referer, b₄) = get_text b₃ in
    let (redirect_uri, b₅) = get_text b₄ in
    record {
      state = state;
      nonce = nonce;
      code_verifier = code_verifier;
      referer = referer;
      redirect_uri = redirect_uri;
    }

get_cookie-put_cookie : (c : LoginCookie) → get_cookie (put_cookie c) ≡ c
get_cookie-put_cookie c = simp get_text-put_text

abbrev read_cookie : Result Bytes → Result LoginCookie
read_cookie (ok b) = ok (get_cookie b)
read_cookie (err e) = err e

abbrev site : StandardHandler Memory Unit Unit
site = record (site_at (pos 5)) {
  marshal = λ c. ok (plain_encoding.base64 (put_cookie c));
  unmarshal = λ s. read_cookie (plain_encoding.from_base64 s);
}

site_decodes :
    (c : LoginCookie) (json : String) → site.marshal c ≡ ok json → site.unmarshal json ≡ ok c
site_decodes c json e =
    let same : plain_encoding.base64 (put_cookie c) ≡ json = cc in
    ap (λ s. site.unmarshal s) (sym same)
    ∙ ap read_cookie (plain_encoding-IsEncoding.decodes (put_cookie c))
    ∙ ap ok (get_cookie-put_cookie c)

redirected : (url : String) × ((login site request (begin new_memory)).0 ≡ redirect url)
unfolding handling login set_login_cookies new_login new_login_parameters auth_code_url
    auth_code_options with_security_level with_locale with_param_mapping login_url_parameter
    generate_base64 login_callback_url
redirected = (_, refl)

login-IsRemembered_example :
    (l : Login.Login) × ((new_login site.client request new_memory).0 ≡ ok l)
    × (redirected.0 ≡ l.auth_code_url)
    × IsRemembered site l.cookie [] (login site request (begin new_memory))
login-IsRemembered_example =
    login-IsRemembered site plain_encoding-IsEncoding open_crypter-IsCrypter request new_memory
      redirected.0 [] site_decodes redirected.1

abbrev app : Url
app = url_at "app.example" "/app"

abbrev app_ingresses : Ingresses
app_ingresses = record {
  ingress_map = [];
  hosts = "app.example" ∷ [];
  paths = "/app" ∷ [];
  urls = "/app" ∷ [];
}

abbrev arriving : Request
arriving = record request { context_path = none; context_ingress = none }

callback_url :
    login_callback_url plain_urls (ingress_handler app_ingresses (app ∷ []) arriving)
    ≡ ok "/app/oauth2/callback"
unfolding login_callback_url ingress_handler matching_path matching_ingress
callback_url = refl

-- The clock, and the instants of the fetches; reading the clock takes no time.
record Watched : Type 0 where
  clock : Time
  fetches : List Time

abbrev cache : JwksCache Watched Unit
cache = record {
  now = λ w. (w.clock, w);
  register = λ uri w. (ok tt, w);
  cached = λ uri w. (ok tt, w);
  fetch = λ uri w. (ok tt, record w { fetches = w.fetches ++ w.clock ∷ [] });
}

cache-IsWatched : IsWatched cache "jwks" (λ w. w.clock) (λ w. w.fetches)
cache-IsWatched = record {
  reading = λ w. refl;
  forward = λ w. omega arith;
  now_keeps = λ w. refl;
  cached_keeps = λ w. refl;
  fetch_adds = λ w. refl;
}

abbrev at_six : JwksProvider Watched
at_six = record { last_refresh = pos 0; world = record { clock = pos 6000000000; fetches = [] } }

abbrev at_twelve : JwksProvider Watched
at_twelve = record {
  last_refresh = pos 12000000000;
  world = record { clock = pos 12000000000; fetches = pos 6000000000 ∷ pos 12000000000 ∷ [] };
}

-- Calls after six, seven and twelve seconds; the second is too early.
calls : Calls cache "jwks" (λ w. w.clock) (λ w. w.fetches) cache-IsWatched at_six at_twelve
unfolding refresh_public_jwk_set get_public_jwk_set sub saturate64 ◌-ℤ◌
calls = called (
    elapse (record { clock = pos 7000000000; fetches = pos 6000000000 ∷ [] }) refl
      (called (
        elapse (record { clock = pos 12000000000; fetches = pos 6000000000 ∷ [] }) refl
          (called finished))))

Calls-Spaced_example :
    (ts : List Time) × ((pos 6000000000 ∷ pos 12000000000 ∷ []) ≡ ts) × Spaced (pos 0) ts
Calls-Spaced_example =
    Calls-Spaced cache "jwks" (λ w. w.clock) (λ w. w.fetches) cache-IsWatched calls

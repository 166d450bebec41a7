-- ===== src/Tests/Endpoints.antt =====
-- The endpoints for the session and the reverse proxy at concrete requests.
use Prim.Native.String.{◌++◌ as append}
use wonderwall.AutoLogin.{normalized}
use wonderwall.Base.{
  All, Bool, arith, ap, ◌≢◌, Option, String, ◌==◌, ◌≡◌, ◌⊎◌, ◌↔◌, refl, some, none, true, false, [],
  ◌∷◌, ok, err, cookie_not_found, key_not_found, session_inactive, Error,
}
use wonderwall.Base.Int.{pos}
use wonderwall.AutoLogin
use wonderwall.Loginstatus
use wonderwall.Redirect.{login_url}
use wonderwall.Session.Metadata.{is_expired}
use wonderwall.Session.Metadata.Report
use wonderwall.Session.Data.{Data}
use wonderwall.Session.Handler
use wonderwall.Session.Handler.{create, get_key, get_for_key}
use wonderwall.Session.Handler.Refresh.{get_access_token, get_or_refresh, refresh}
use wonderwall.OpenId.Client.Logout.{new_logout_frontchannel}
use wonderwall.Session.Id.{key}
use wonderwall.Http.{get, Request}
use wonderwall.Session.Store.Memory.{new_memory}
use wonderwall.Api.{get_path}
use wonderwall.Api.Answers.{begin, status, verbose_with_refresh}
use wonderwall.Api.Sessions.{session, session_refresh}
use wonderwall.Api.Sessions.Statuses.{session_unauthorized_iff, session_refresh_reports}
use wonderwall.Api.Proxy.{proxy, sent_on, to_login, director, authorization, Outgoing}
use wonderwall.Api.Proxy.Tokens.{MissesCookie, proxy_to_login_iff, proxy-authorization}
use wonderwall.Tests.Codecs.{plain_encoding}
use wonderwall.Tests.World.{trier, test_provider, test_config, world_at}
use wonderwall.Tests.Flows.{request}
use wonderwall.Tests.Sessions.{evaluation, fresh_data, created, cookies}
use wonderwall.Tests.Handlers.{handling, site_at, member}

session_unauthorized_iff_example :
    let got =
      (Handler.get (world_at (pos 6)) trier test_config test_provider cookies new_memory).0 in
    ((session (site_at (pos 6)) member (begin new_memory)).0 ≡ status 401)
    ↔ ((got ≡ err cookie_not_found) ⊎ (got ≡ err key_not_found))
session_unauthorized_iff_example = session_unauthorized_iff (site_at (pos 6)) member new_memory

key_of_member :
    get_key (world_at (pos 50)) trier test_config test_provider cookies ≡ ok "openid:app:s1"
unfolding evaluation
key_of_member = refl

data_of_member :
    (get_for_key (world_at (pos 50)) trier test_config test_provider "openid:app:s1" created.1).0
    ≡ ok fresh_data
unfolding evaluation
data_of_member = refl

inactive_member :
    (refresh
      (world_at (pos 50))
      trier
      test_config
      test_provider
      "openid:app:s1"
      fresh_data
      (get_for_key
        (world_at (pos 50))
        trier
        test_config
        test_provider
        "openid:app:s1"
        created.1).1).0
    ≡ err session_inactive
unfolding evaluation
inactive_member = refl

proxied_with_token :
    (proxy (site_at (pos 11)) member "/app/page" created.1).0 ≡ sent_on (some "access-1")
unfolding evaluation proxy AutoLogin.needs_login Loginstatus.needs_login
proxied_with_token = refl

abbrev some_token : Option String
some_token = some "access-1"

abbrev outgoing : Outgoing
outgoing = record { host = ""; scheme = ""; header = λ name. "other" ∷ [] }

proxy-authorization_example :
    let got =
      get_or_refresh (world_at (pos 11)) trier test_config test_provider cookies created.1 in
    ((d : Data) × (got.0 ≡ ok d)
      × ((director "app:8080" (some "access-1") outgoing).header authorization
          ≡ append "Bearer " d.access_token ∷ [])
      × ((d.access_token == "") ≡ false)
      × (is_expired (pos 11) d.metadata ≡ false))
    ⊎ ((some_token ≡ none)
        × ((director "app:8080" (some "access-1") outgoing).header authorization ≡ "other" ∷ []))
proxy-authorization_example =
    proxy-authorization (site_at (pos 11)) member "/app/page" created.1 "app:8080" outgoing
      (some "access-1") proxied_with_token

proxy_to_login_iff_example :
    let got =
      (get_access_token (world_at (pos 6)) trier test_config test_provider [] new_memory).0 in
    ((proxy (site_at (pos 6)) request "/app/page" new_memory).0
      ≡ to_login (
          login_url
            (site_at (pos 6)).client.urls
            plain_encoding
            (site_at (pos 6)).client.raw
            (get_path (site_at (pos 6)) request)
            "/app/page"))
    ↔ (((site_at (pos 6)).auto_login.enabled ≡ true)
        × (request.method ≡ "GET")
        × All
            (λ g. (g == normalized request.path) ≡ false)
            (site_at (pos 6)).auto_login.ignore_patterns
        × (((e : Error) × (got ≡ err e)) ⊎ MissesCookie (site_at (pos 6)) request))
proxy_to_login_iff_example = proxy_to_login_iff (site_at (pos 6)) request "/app/page" new_memory

reported :
    (m : Report.MetadataVerboseWithRefresh) × ((session_refresh
        (site_at (pos 14))
        member
        (begin created.1)).0
      ≡ verbose_with_refresh m)
unfolding handling session_refresh Handler.get
reported = (_, refl)

session_refresh_reports_example :
    (true ≡ true)
    × (k : String) × (d : Data) × (d' : Data) × (get_key
          (world_at (pos 14))
          trier
          test_config
          test_provider
          cookies
        ≡ ok k)
    × ((get_for_key (world_at (pos 14)) trier test_config test_provider k created.1).0 ≡ ok d)
    × ((refresh
          (world_at (pos 14))
          trier
          test_config
          test_provider
          k
          d
          (get_for_key (world_at (pos 14)) trier test_config test_provider k created.1).1).0
        ≡ ok d')
    × (reported.0.session.session ≡ d'.metadata.session)
    × (reported.0.tokens.verbose.tokens ≡ d'.metadata.tokens)
session_refresh_reports_example =
    session_refresh_reports (site_at (pos 14)) member created.1 reported.0 reported.1

pub not_other : get_key (world_at (pos 14)) trier test_config test_provider cookies ≢ ok "other"
unfolding evaluation
not_other e =
    let same : Path String "openid:app:s1" "other" = cc in
    let differ : Path Bool ("openid:app:s1" == "other") ("other" == "other") =
      ap (λ s. s == "other") same in
    absurd (ground arith)

abbrev pub dismissal_of_s1 : Request
dismissal_of_s1 = record member { query = ("sid", "s1") ∷ [] }

pub not_other_key : key test_provider (new_logout_frontchannel dismissal_of_s1).sid ≢ "other"
unfolding evaluation get
not_other_key e =
    let same : Path String "openid:app:s1" "other" = cc in
    let differ : Path Bool ("openid:app:s1" == "other") ("other" == "other") =
      ap (λ s. s == "other") same in
    absurd (ground arith)

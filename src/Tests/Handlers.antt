-- ===== src/Tests/Handlers.antt =====
-- The handlers of the routes at concrete requests.
use wonderwall.Base.{◌==◌, ◌≡◌, refl, some, true, false, [], ◌∷◌, ok}
use wonderwall.Base.Int.{pos}
use wonderwall.Http.{Request, get}
use wonderwall.Cookie
use wonderwall.Cookie.{default_options, get_decrypted, decrypt, encrypt_and_set, clear}
use wonderwall.OpenId.Client.Callback.{
  get_login_cookie, new_login_callback, identity_provider_error, state_mismatch_error,
  redeem_tokens, accept_tokens,
}
use wonderwall.OpenId.Token.{new_tokens, validate}
use wonderwall.Session.Metadata.{Time}
use wonderwall.Session.Data
use wonderwall.Session.Data.{Data, EncryptedData, new_data}
use wonderwall.Session.Handler
use wonderwall.Session.Handler.{create, get_key, get_for_key}
use wonderwall.Session.Handler.Lifecycle.{IsFresh, IsSessionOf}
use wonderwall.Session.Store.Memory.{Memory, new_memory, memory_store-IsStore}
use wonderwall.Api.{
  StandardHandler, get_cookie_opts_path_aware, get_path, respond, get_error_handler,
}
use wonderwall.Api.Answers.{begin, sets, ends, then_set, then_set_all, on_result, on_error, status}
use wonderwall.Api.Answers.Extension.{Includes}
use wonderwall.Api.LoginCallback.{login_callback}
use wonderwall.Api.LoginCallback.Checks.{IsLoggedIn}
use wonderwall.Api.LoginCallback.NextRequest.{login_callback_session}
use wonderwall.Api.Logout.{logout, logout_front_channel}
use wonderwall.Api.Logout.Endings.{LogoutEnds, logout-LogoutEnds, cleared_session}
use wonderwall.Api.Logout.FrontChannel.{Dismissed, logout_front_channel_answers}
use wonderwall.Tests.Codecs.{plain_encoding, plain_encoding-IsEncoding, plain_json-IsJson}
use wonderwall.Tests.World.{trier, open_crypter-IsCrypter, test_provider, test_config, world_at}
use wonderwall.Tests.Flows.{request, login_cookie, any_redeemer, any_setup, provider}
use wonderwall.Tests.Sessions.{evaluation, fresh_data, created, cookies}

-- A site whose clock stands at the instant given.
abbrev pub site_at : Time → StandardHandler Memory Unit Unit
site_at t = record {
  auto_login = record { enabled = true; ignore_patterns = [] };
  cookie_options = default_options;
  error_path = "";
  ingresses = record { ingress_map = []; hosts = []; paths = []; urls = [] };
  loginstatus = record {
    enabled = false;
    cookie_domain = "";
    cookie_name = "status";
    resource_indicator = "";
    token_url = "";
  };
  loginstatus_client = record {
    check_url = λ url. ok tt;
    send = λ req w. (ok (record { status_code = 200; body = ok "" }), w);
    unmarshal_error = λ body. ok (record { error = ""; error_description = "" });
    unmarshal_token = λ body. ok (record { access_token = "status-1"; expires_in = pos 1 });
  };
  open_id = provider;
  post_logout_redirect_uri = "";
  client = any_setup;
  redeemer = any_redeemer;
  env = world_at t;
  retrier = trier;
  session_config = test_config;
  session_provider = test_provider;
  marshal = λ cookie. ok cookie.state;
  unmarshal = λ json. ok (record login_cookie { state = json });
  correlation_id = λ r. "";
  parse_query = λ raw_query. [];
  atoi = λ text. ok (pos 1);
  itoa = λ number. "1";
  whole_seconds = λ d. d;
  matches = ◌==◌;
}

abbrev pub returned : Request
returned = record request {
  query = ("state", "st") ∷ ("code", "c") ∷ [];
  cookies = (Cookie.login, plain_encoding.base64 (plain_encoding.to_bytes "st")) ∷ [];
}

unfoldable pub handling : Unit {0}
unfolding evaluation get_login_cookie new_login_callback identity_provider_error
    state_mismatch_error redeem_tokens accept_tokens new_tokens validate get_cookie_opts_path_aware
    get_path respond get_error_handler ends then_set then_set_all on_result on_error login_callback
    encrypt_and_set clear get
handling = tt

session_set :
    sets Cookie.session (login_callback (site_at (pos 5)) returned (begin new_memory)).1.cookies
    ≡ true
unfolding handling
session_set = refl

login_callback_session_example :
    let after = (login_callback (site_at (pos 5)) returned (begin new_memory)).1.cookies in
    (l : IsLoggedIn (site_at (pos 5)) returned after) × (get_key
        (world_at (pos 5))
        trier
        test_config
        test_provider
        ((l.session_cookie.name, l.session_cookie.value) ∷ [])
      ≡ ok l.key)
    × (d : Data.Data) × (e : EncryptedData) × IsFresh test_config (pos 100) d.metadata
    × IsSessionOf l.tokens d
    × (Data.decrypt plain_encoding (world_at (pos 5)).json (world_at (pos 5)).crypter e ≡ ok d)
    × ((create
            (world_at (pos 5))
            trier
            test_config
            test_provider
            returned.query
            l.tokens
            (pos 100)
            l.before).1.sessions
          l.key
        ≡ some e)
login_callback_session_example =
    login_callback_session (site_at (pos 5)) (λ m. m.sessions) memory_store-IsStore
      plain_encoding-IsEncoding plain_json-IsJson open_crypter-IsCrypter returned new_memory []
      session_set

abbrev pub member : Request
member = record request { cookies = cookies }

got_member :
    (Handler.get (world_at (pos 6)) trier test_config test_provider cookies created.1).0
    ≡ ok fresh_data
unfolding evaluation Handler.get
got_member = refl

logout-LogoutEnds_example :
    LogoutEnds
      (site_at (pos 6))
      (λ m. m.sessions)
      true
      member
      fresh_data
      (Handler.get (world_at (pos 6)) trier test_config test_provider cookies created.1).1
      (logout (site_at (pos 6)) true member (begin created.1))
logout-LogoutEnds_example =
    logout-LogoutEnds (site_at (pos 6)) (λ m. m.sessions) memory_store-IsStore true member created.1
      fresh_data got_member

abbrev dismissal : Request
dismissal = record request { query = ("sid", "s1") ∷ [] }

dismissed : (logout_front_channel (site_at (pos 6)) dismissal (begin created.1)).0 ≡ status 200
unfolding handling logout_front_channel
dismissed = refl

logout_front_channel_answers_example :
    let result = logout_front_channel (site_at (pos 6)) dismissal (begin created.1) in
    Includes (cleared_session (site_at (pos 6)) dismissal) result.1.cookies
    × Dismissed (site_at (pos 6)) (λ m. m.sessions) "s1" result
unfolding get
logout_front_channel_answers_example =
    logout_front_channel_answers (site_at (pos 6)) (λ m. m.sessions) memory_store-IsStore dismissal
      created.1

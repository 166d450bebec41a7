-- ===== src/Tests/Servers.antt =====
-- A server that answers a login callback and then a logout.
use wonderwall.Base.{String, ◌≡◌, ◌≢◌, refl, subst, none, [], ok}
use wonderwall.Base.Int.{pos}
use wonderwall.Middleware.{ingress_handler}
use wonderwall.Ingress.{matching_path, matching_ingress}
use wonderwall.Session.Id.{key}
use wonderwall.Session.Store.{Entries}
use wonderwall.Session.Store.Memory.{
  Memory, new_memory, memory_store-IsStore, memory_store-IsCareful,
}
use wonderwall.Session.Handler.{get_for_key, get_key}
use wonderwall.Session.Handler.Ownership.{WellKeyed, IsOwned, Surroundings}
use wonderwall.Api.{StandardHandler}
use wonderwall.Api.Ownership.{IsOutside}
use wonderwall.Router.{Chi, Found, endpoint, to_login_callback, to_logout, handler, serve}
use wonderwall.Router.Histories.{History, started, served, History-WellKeyed, History-found}
use wonderwall.Router.Isolation.{serve_keeps}
use wonderwall.Tests.Codecs.{plain_encoding-IsEncoding, plain_json-IsJson}
use wonderwall.Tests.World.{trier, open_crypter-IsCrypter, test_provider, test_config, world_at}
use wonderwall.Tests.Sessions.{fresh_data}
use wonderwall.Tests.Endpoints.{dismissal_of_s1, not_other, not_other_key}
use wonderwall.Tests.Handlers.{site_at, handling, returned}

abbrev site : StandardHandler Memory Unit Unit
site = site_at (pos 5)

around :
    (Mine : String → Type 0) (old : Entries)
    → Surroundings (world_at (pos 5)) trier test_provider (λ m. m.sessions) Mine old
around Mine old = record {
  store = memory_store-IsStore;
  careful = memory_store-IsCareful;
  apart = λ j. record {
    now = λ w. refl;
    random = λ n w. refl;
    encrypt = λ b w. refl;
    refresh_grant = λ t w. refl;
    schedule = λ w. refl;
  };
  encoding = plain_encoding-IsEncoding;
  json = plain_json-IsJson;
  crypter = open_crypter-IsCrypter;
  waits = λ w v same p.
      subst (λ (m : Memory). IsOwned (world_at (pos 5)) test_provider Mine old m.sessions) same p;
}

libraries-IsOutside : IsOutside site (λ m. m.sessions)
libraries-IsOutside = record {
  random = λ n j w. refl;
  send = λ r j w. refl;
  make_assertion = λ j w. refl;
  auth_code_grant = λ code options j w. refl;
  get_public_jwk_set = λ j w. refl;
  refresh_public_jwk_set = λ j w. refl;
}

-- Each request is a login callback.
abbrev to_callback : Chi
to_callback ms method path = endpoint to_login_callback

abbrev logged_in : Memory
logged_in = (serve site to_callback [] returned "/" new_memory).1

history : History site to_callback new_memory logged_in
history = served [] returned "/" started refl

found_session :
    (get_for_key (world_at (pos 5)) trier test_config test_provider "openid:app:s1" logged_in).0
    ≡ ok fresh_data
unfolding handling serve ingress_handler matching_path matching_ingress handler
found_session = refl

History-found_example : key test_provider fresh_data.external_session_id ≡ "openid:app:s1"
History-found_example =
    History-found site to_callback (λ m. m.sessions) (around (λ k. Unit) (λ k. none))
      libraries-IsOutside (λ k. refl) history "openid:app:s1" fresh_data found_session

-- Each request is a logout.
abbrev all_logouts : Chi
all_logouts ms method path = endpoint to_logout

keyed : WellKeyed (world_at (pos 5)) test_provider logged_in.sessions
keyed =
    History-WellKeyed site to_callback (λ m. m.sessions) (around (λ k. Unit) (λ k. none))
      libraries-IsOutside (λ k e there d h. cc) history

no_callback : Path Found (endpoint to_logout) (endpoint to_login_callback) → ⊥
no_callback e = cc

-- The member of another session logs out.
serve_keeps_example :
    (serve site all_logouts [] dismissal_of_s1 "/" logged_in).1.sessions "other"
    ≡ logged_in.sessions "other"
unfolding get_key
serve_keeps_example =
    serve_keeps site all_logouts (λ m. m.sessions) "other" logged_in
      (around (λ k. k ≢ "other") logged_in.sessions) libraries-IsOutside [] dismissal_of_s1 "/"
      keyed no_callback not_other not_other_key

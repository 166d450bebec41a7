-- ===== src/Tests/Starts.antt =====
-- A start-up at a concrete configuration.
use wonderwall.Base.{
  String, Result, err, ◌==◌, if◌then◌else◌, eq_refl, arith, ap, sym, ◌≡◌, refl, [], ◌∷◌, none, ok,
  true, false,
}
use wonderwall.Base.Int.{pos}
use wonderwall.Http.{UrlLibrary}
use wonderwall.AutoLogin
use wonderwall.Crypto.Crypter.{encryption_key_or_generate}
use wonderwall.Ingress.{parse_ingresses, parse_ingress, map_ingresses}
use wonderwall.Slashes.{trim_right}
use wonderwall.OpenId.Config.{idporten, new_client_config, new_provider_config}
use wonderwall.OpenId.Keys.{new_jwks_provider}
use wonderwall.Session.Metadata.{zero_time}
use wonderwall.Logging.{setup}
use wonderwall.Config.{Config, Default, text, texts, switch, duration, open_id_provider, validate}
use wonderwall.Config.Initialize.{Libraries, not_found, returned, initialize, parsed}
use wonderwall.Config.Configured.{IsLibraries, IsConfigured}
use wonderwall.Startup.{StartEnv, Started, in_memory, new_store, new_config, new_parts, run}
use wonderwall.Startup.Guarantees.{IsStarted, run-IsStarted}
use wonderwall.Tests.Flows.{open_id, metadata, provider, plain_urls, url_at}

-- A library that reads every text as a path at one host.
abbrev pub start_urls : UrlLibrary
start_urls = record plain_urls { parse = λ s. ok (url_at "app.example" s) }

abbrev start_config : Config
start_config = record {
  bind_address = "127.0.0.1:3000";
  log_format = "json";
  log_level = "info";
  metrics_bind_address = "127.0.0.1:3001";
  error_path = "";
  upstream_host = "127.0.0.1:8080";
  auto_login = true;
  auto_login_ignore_paths = [];
  encryption_key = "";
  ingresses = "/app/" ∷ "/app" ∷ [];
  session = record {
    inactivity = true;
    inactivity_timeout = pos 1;
    max_lifetime = pos 2;
    refresh = true;
  };
  open_id = open_id;
  redis = record { address = ""; username = ""; password = ""; tls = true };
  loginstatus = record {
    enabled = false;
    cookie_domain = "";
    cookie_name = "";
    resource_indicator = "";
    token_url = "";
  };
}

abbrev start_env : StartEnv Unit Unit Unit
start_env = record {
  decode_key = λ s. ([], none);
  random_key = ok (7 ∷ []);
  parse_key = λ s. ok tt;
  fetch = λ uri w. (ok metadata, w);
  urls = start_urls;
  cache = record {
    now = λ w. (zero_time, w);
    register = λ uri w. (ok tt, w);
    cached = λ uri w. (ok tt, w);
    fetch = λ uri w. (ok tt, w);
  };
  ping = λ w. (ok tt, w);
  visit = λ m. m;
}

abbrev started : Started Unit Unit
started = record {
  key = 7 ∷ [];
  client = record { open_id = open_id; client_jwk = tt; flavour = idporten };
  provider = record provider { end_session_endpoint_url = url_at "app.example" "/logout" };
  jwks = record { last_refresh = zero_time; world = tt };
  auto_login = AutoLogin.new true [];
  backing = in_memory;
  ingresses = record {
    ingress_map = ("/app", url_at "app.example" "/app") ∷ [];
    hosts = "app.example" ∷ [];
    paths = "/app" ∷ [];
    urls = "/app" ∷ [];
  };
}

abbrev provider_of : Result Config → String
provider_of (ok c) = c.open_id.provider
provider_of (err e) = ""

-- Libraries whose state is a map from keys to texts, with the argument "idporten" for the provider.
abbrev put : String → String → (String → String) → String → String
put k x v j = if k == j then x else v j

abbrev put_default : String → Default → (String → String) → String → String
put_default k (text x) v = put k x v
put_default k (switch x) v = v
put_default k (texts x) v = v
put_default k (duration x) v = v

abbrev maps : Libraries (String → String) Unit
maps = record {
  initialize = λ name v. v;
  define = put_default;
  parse = put open_id_provider "idporten";
  read_in_config = λ v. (not_found, v);
  bind_flags = λ v. ok v;
  get_string = λ v k. v k;
  set = put;
  set_default = λ k x v. v;
  bind_env = λ k e v. v;
  load =
      λ v. ok (record start_config { open_id = record open_id { provider = v open_id_provider } });
  parse_level = λ level. ok tt;
}

maps-IsLibraries : IsLibraries maps
maps-IsLibraries = record {
  set_value = λ k x v. ground (arith, eq_refl k);
  bind_keeps = λ k e j v n. refl;
  default_keeps = λ k x j v n. refl;
  loaded_provider = λ v c e. ap (λ r. provider_of r) (sym e);
}

abbrev nothing : String → String
nothing k = ""

starts : run start_env maps nothing tt ≡ returned (ok started)
unfolding initialize run validate setup new_store new_config new_parts encryption_key_or_generate
    parse_ingresses new_client_config new_provider_config new_jwks_provider parse_ingress
    map_ingresses trim_right
starts = refl

run-IsStarted_example :
    (c : Config) × (initialize maps nothing ≡ returned (ok c))
    × ((b : String → String) × (Path (Result (String → String)) (ok (parsed maps nothing)) (ok b))
        × IsConfigured maps b c)
    × IsStarted c started
run-IsStarted_example = run-IsStarted start_env maps maps-IsLibraries nothing tt started starts

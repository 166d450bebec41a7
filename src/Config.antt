-- ===== src/Config.antt =====
-- The configuration (pkg/config): its fields, its flags with their defaults, and its validation.
pub mod Initialize
pub mod Configured
use wonderwall.Base.{
  ℕ, String, Bool, true, false, not, ◌&&◌, List, [], ◌∷◌, Option, none, some, Result, ok, err,
  other, ◌++◌, if◌then◌else◌,
}
use wonderwall.Base.Int.{pos}
use wonderwall.Loginstatus.{LoginstatusConfig}
use wonderwall.OpenId.Config.{OpenId}
use wonderwall.Session.Metadata.{Duration}
use wonderwall.Session.Handler.{SessionConfig}

pub record Redis : Type 0 where
  pub address : String
  pub username : String
  pub password : String
  pub tls : Bool

pub record Config : Type 0 where
  pub bind_address : String
  pub log_format : String
  pub log_level : String
  pub metrics_bind_address : String
  pub auto_login : Bool
  pub auto_login_ignore_paths : List String
  pub encryption_key : String
  pub error_path : String
  pub ingresses : List String
  pub session : SessionConfig
  pub upstream_host : String
  pub open_id : OpenId
  pub redis : Redis
  pub loginstatus : LoginstatusConfig

-- The options of the client of Redis; `tls_config` is none where no TLS is used.
pub record RedisOptions : Type 0 where
  pub network : String
  pub addr : String
  pub username : String
  pub password : String
  pub min_idle_conns : ℕ
  pub tls_config : Option (Unit {0})

unfoldable pub redis_options : Redis → RedisOptions
redis_options r = record {
  network = "tcp";
  addr = r.address;
  username = r.username;
  password = r.password;
  min_idle_conns = 1;
  tls_config = if r.tls then some tt else none;
}

-- The default of a flag, of the type of the flag.
pub data Default : Type 0 where
  text : String → Default
  switch : Bool → Default
  texts : List String → Default
  duration : Duration → Default

abbrev pub Flags : Type 0
Flags = List (String × Default)

abbrev pub open_id_provider : String
open_id_provider = "openid.provider"

abbrev pub redis_flags : Flags
redis_flags =
    ("redis.address", text "")
    ∷ ("redis.password", text "")
    ∷ ("redis.tls", switch true)
    ∷ ("redis.username", text "")
    ∷ []

abbrev pub open_id_flags : Flags
open_id_flags =
    ("openid.client-id", text "")
    ∷ ("openid.client-jwk", text "")
    ∷ ("openid.post-logout-redirect-uri", text "")
    ∷ ("openid.scopes", texts [])
    ∷ ("openid.well-known-url", text "")
    ∷ ("openid.acr-values", text "")
    ∷ ("openid.ui-locales", text "")
    ∷ []

-- 30 minutes and an hour, in nanoseconds
abbrev pub main_flags : Flags
main_flags =
    ("bind-address", text "127.0.0.1:3000")
    ∷ ("log-format", text "json")
    ∷ ("log-level", text "info")
    ∷ ("metrics-bind-address", text "127.0.0.1:3001")
    ∷ ("auto-login", switch false)
    ∷ ("auto-login-ignore-paths", texts [])
    ∷ ("encryption-key", text "")
    ∷ ("error-path", text "")
    ∷ ("ingress", texts [])
    ∷ ("upstream-host", text "127.0.0.1:8080")
    ∷ ("session.inactivity", switch false)
    ∷ ("session.inactivity-timeout", duration (pos 1800000000000))
    ∷ ("session.max-lifetime", duration (pos 3600000000000))
    ∷ ("session.refresh", switch false)
    ∷ ("loginstatus.enabled", switch false)
    ∷ ("loginstatus.cookie-domain", text "")
    ∷ ("loginstatus.cookie-name", text "")
    ∷ ("loginstatus.resource-indicator", text "")
    ∷ ("loginstatus.token-url", text "")
    ∷ []

-- In the order of their definition.
abbrev pub flags : Flags
flags = main_flags ++ redis_flags ++ open_id_flags ++ (open_id_provider, text "openid") ∷ []

unfoldable pub validate : Config → Result (Unit {0})
validate c = if c.session.inactivity && not c.session.refresh then err other else ok tt

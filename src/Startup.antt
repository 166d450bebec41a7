-- ===== src/Startup.antt =====
-- What is done before the first request: the parts that `run` of cmd/wonderwall/main.go makes of the
-- configuration, with pkg/openid/config/config.go, NewStore of pkg/session/store.go and NewHandler of
-- pkg/handler/handler.go.
pub mod Guarantees
use wonderwall.Base.{
  String, ◌==◌, Bool, not, ◌&&◌, Option, List, Result, ok, err, Error, other, if◌then◌else◌,
}
use wonderwall.Base.Action.{Action, lift, always, pure, ◌>>=◌, ◌>>◌}
use wonderwall.Http.{Bytes, UrlLibrary}
use wonderwall.AutoLogin
use wonderwall.AutoLogin.{AutoLogin}
use wonderwall.Crypto.Crypter.{encryption_key_or_generate}
use wonderwall.Ingress.{Ingresses, IngressMap, parse_ingresses}
use wonderwall.Loginstatus.{LoginstatusConfig}
use wonderwall.OpenId.Config
use wonderwall.OpenId.Config.{OpenId, ProviderMetadata, new_client_config, new_provider_config}
use wonderwall.OpenId.Keys.{JwksCache, JwksProvider, new_jwks_provider}
use wonderwall.Config.{Config}
use wonderwall.Config.Initialize.{Libraries, Outcome, returned, panicked, initialize}

-- Which implementation of the store is used.
pub data Backing : Type 0 where
  in_memory in_redis : Backing

-- The libraries: decoding keys, the key that is generated, parsing the client's key, fetching the provider's document,
-- the cache of keys, the ping of Redis, and the order in which a map is visited.
pub record StartEnv (W Jwk Jwks : Type 0) : Type 0 where
  pub decode_key : String → Bytes × Option Error
  pub random_key : Result Bytes
  pub parse_key : String → Result Jwk
  pub fetch : String → Action W ProviderMetadata
  pub urls : UrlLibrary
  pub cache : JwksCache W Jwks
  pub ping : Action W (Unit {0})
  pub visit : IngressMap → IngressMap

-- What start-up makes of the configuration; the clients and handlers that only hold these and the
-- configuration are left out.
pub record Started (W Jwk : Type 0) : Type 0 where
  pub key : Bytes
  pub client : Config.Client Jwk
  pub provider : Config.Provider
  pub jwks : JwksProvider W
  pub auto_login : AutoLogin
  pub backing : Backing
  pub ingresses : Ingresses

module _ {W Jwk Jwks : Type 0} (env : StartEnv W Jwk Jwks) where
  unfoldable pub new_store : String → Action W Backing
  new_store redis_address =
      if redis_address == "" then pure in_memory else (do env.ping; pure in_redis)

  unfoldable pub new_config : OpenId → Action W (Config.Client Jwk × Config.Provider)
  new_config cfg = do
    client ← lift (new_client_config env.parse_key cfg)
    provider ← new_provider_config env.urls.parse env.fetch cfg
    pure (client, provider)

  -- The parts of the handler that are made here: `new_parts` stands for NewHandler.
  unfoldable pub new_parts : Config → Action W (AutoLogin × Backing × Ingresses)
  unfolding new_store
  new_parts c = do
    backing ← new_store c.redis.address
    ingresses ← lift (parse_ingresses env.urls env.visit c.ingresses)
    pure (AutoLogin.new c.auto_login c.auto_login_ignore_paths, backing, ingresses)

  -- `run`, with the configuration that `Initialize` returned.
  unfoldable pub run_configured : Config → Action W (Started W Jwk)
  unfolding new_config new_parts
  run_configured c = do
    key ← lift (
        encryption_key_or_generate c.encryption_key (env.decode_key c.encryption_key)
          env.random_key)
    config ← new_config c.open_id
    jwks ← new_jwks_provider env.cache config.1.metadata.jwks_uri
    parts ← new_parts c
    pure (record {
      key = key;
      client = config.0;
      provider = config.1;
      jwks = jwks;
      auto_login = parts.0;
      backing = parts.1;
      ingresses = parts.2;
    })

  unfoldable pub run_after : Outcome Config → W → Outcome (Started W Jwk)
  unfolding run_configured
  run_after panicked w = panicked
  run_after (returned (err e)) w = returned (err e)
  run_after (returned (ok c)) w = returned (run_configured c w).0

  -- Up to the start of the servers.
  unfoldable pub run : {V Level : Type 0} → Libraries V Level → V → W → Outcome (Started W Jwk)
  unfolding run_after
  run lib v w = run_after (initialize lib v) w

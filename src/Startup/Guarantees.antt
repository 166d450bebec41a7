-- ===== src/Startup/Guarantees.antt =====
-- What a configuration that start-up accepts has (cmd/wonderwall/main.go: run).
use wonderwall.Base.{
  refl, err, String, ◌==◌, ◌≡◌, ◌≢◌, ◌⊎◌, inl, inr, sym, ap, subst, ok, arith, Bool-cases,
  Result-cases, eq_refl, eq_iff,
}
use wonderwall.Base.Action.{Action, ◌>>=◌}
use wonderwall.AutoLogin
use wonderwall.AutoLogin.{AutoLogin}
use wonderwall.Crypto.Crypter.{encryption_key_or_generate}
use wonderwall.OpenId.Keys.{new_jwks_provider}
use wonderwall.Ingress.{Ingresses, parse_ingresses}
use wonderwall.Ingress.Parsing.{AllIngress, parse_ingresses-AllIngress}
use wonderwall.OpenId.Config.{OpenId, Provider, Client, new_client_config, new_provider_config}
use wonderwall.OpenId.Config.Accepted.{Accepted, new_provider_config-Accepted}
use wonderwall.Config.{Config}
use wonderwall.Config.Initialize.{Libraries, Outcome, returned, panicked, initialize, parsed}
use wonderwall.Config.Configured.{IsLibraries, IsConfigured, initialize-IsConfigured}
use wonderwall.Startup.{
  run_configured, run_after, Config, StartEnv, Started, Backing, in_memory, in_redis, new_store,
  new_config, new_parts, run,
}

-- Both steps of an action that gives a result gave one.
bind-ok :
    {W A B : Type 0} (m : Action W A) (f : A → Action W B) (w : W) (b : B)
    → ((m >>= f) w).0 ≡ ok b
    → (a : A) × ((m w).0 ≡ ok a) × ((f a (m w).1).0 ≡ ok b)
bind-ok m f w b h = elim (Result-cases (m w).0) [
  | inr (x, e) ↦ absurd (ground arith)
  | inl (a, e) ↦ (a, e, ground arith)
]

-- Sessions are in Redis exactly if it has an address.
abbrev pub Chosen : String → Backing → Type 0
Chosen address b = ((address ≡ "") × (b ≡ in_memory)) ⊎ ((address ≢ "") × (b ≡ in_redis))

-- The parts of a start-up, and what the configuration has that led to them.
pub record IsStarted {W Jwk : Type 0} (c : Config) (s : Started W Jwk) : Type 0 where
  pub security_level : Accepted c.open_id.acr_values s.provider.metadata.acr_values_supported
  pub locale : Accepted c.open_id.ui_locales s.provider.metadata.ui_locales_supported
  pub store : Chosen c.redis.address s.backing
  pub ingresses : AllIngress s.ingresses.ingress_map

module _ {W Jwk Jwks : Type 0} (env : StartEnv W Jwk Jwks) where
  new_store-Chosen :
      (address : String) (w : W) (b : Backing)
      → (new_store env address w).0 ≡ ok b
      → Chosen address b
  unfolding new_store
  new_store-Chosen address w b h = elim (Bool-cases (address == "")) [
    | inl e ↦ inl ((eq_iff address "").0 e, ground arith)
    | inr e ↦ elim (Result-cases (env.ping w).0) [
      | inr (x, p) ↦ absurd (ground arith)
      | inl (u, p) ↦
          inr ((λ empty. ground (arith, eq_refl "", ap (λ t. t == "") empty)), ground arith)
    ]
  ]

  new_config-provider :
      (cfg : OpenId) (w : W) (client : Client Jwk) (p : Provider)
      → (new_config env cfg w).0 ≡ ok (client, p)
      → Accepted cfg.acr_values p.metadata.acr_values_supported
        × Accepted cfg.ui_locales p.metadata.ui_locales_supported
  unfolding new_config
  new_config-provider cfg w client p h =
      let (k, _, h') = bind-ok (λ v. (new_client_config env.parse_key cfg, v)) _ w (client, p) h in
      let (q, e, h'') =
        bind-ok (new_provider_config env.urls.parse env.fetch cfg)
          (λ provider v. (ok (k, provider), v)) w (client, p) h' in
      let accepted = new_provider_config-Accepted env.urls.parse env.fetch cfg w q e in
      let same : q ≡ p = ground arith in rw (sym same) (accepted.0, accepted.1)

  new_parts-parts :
      (c : Config) (w : W) (a : AutoLogin) (b : Backing) (i : Ingresses)
      → (new_parts env c w).0 ≡ ok (a, b, i)
      → Chosen c.redis.address b × AllIngress i.ingress_map
  unfolding new_parts
  new_parts-parts c w a b i h =
      let (b', e, h') = bind-ok (new_store env c.redis.address) _ w (a, b, i) h in
      let v = (new_store env c.redis.address w).1 in
      let (i', e', h'') =
        bind-ok (λ u. (parse_ingresses env.urls env.visit c.ingresses, u))
          (λ found u. (ok (AutoLogin.new c.auto_login c.auto_login_ignore_paths, b', found), u)) v
          (a, b, i) h' in
      let same_store : b' ≡ b = ground arith in
      let same_ingresses : i' ≡ i = ground arith in
      let chosen = new_store-Chosen c.redis.address w b' e in
      let parsed = parse_ingresses-AllIngress env.urls env.visit c.ingresses i' e' in
      (
        subst (Chosen c.redis.address) same_store chosen,
        subst (λ (t : Ingresses). AllIngress t.ingress_map) same_ingresses parsed,
      )

  run_after-configured :
      (o : Outcome Config) (w : W) (s : Started W Jwk)
      → run_after env o w ≡ returned (ok s)
      → (c : Config) × (o ≡ returned (ok c)) × ((run_configured env c w).0 ≡ ok s)
  unfolding run_after
  run_after-configured panicked w s h = cc
  run_after-configured (returned (err e)) w s h = cc
  run_after-configured (returned (ok c)) w s h = (c, refl, ground arith)

  run_configured-IsStarted :
      (c : Config) (w : W) (s : Started W Jwk) → (run_configured env c w).0 ≡ ok s → IsStarted c s
  unfolding run_configured
  run_configured-IsStarted c w s h =
      let key_of =
        encryption_key_or_generate c.encryption_key (env.decode_key c.encryption_key)
          env.random_key in
      let (key, _, h₂) = bind-ok (λ u. (key_of, u)) _ w s h in
      let ((client, provider), configured, h₃) = bind-ok (new_config env c.open_id) _ w s h₂ in
      let v₁ = (new_config env c.open_id w).1 in
      let cached = new_jwks_provider env.cache provider.metadata.jwks_uri in
      let (jwks, _, h₄) = bind-ok cached _ v₁ s h₃ in
      let ((a, b, i), made, h₅) = bind-ok (new_parts env c) _ (cached v₁).1 s h₄ in
      let accepted = new_config-provider c.open_id w client provider configured in
      let parts = new_parts-parts c (cached v₁).1 a b i made in
      let same_provider : provider ≡ s.provider = ground arith in
      let same_store : b ≡ s.backing = ground arith in
      let same_ingresses : i ≡ s.ingresses = ground arith in
      record {
        security_level = rw (sym same_provider) accepted.0;
        locale = rw (sym same_provider) accepted.1;
        store = subst (Chosen c.redis.address) same_store parts.0;
        ingresses = subst (λ (t : Ingresses). AllIngress t.ingress_map) same_ingresses parts.1;
      }

  -- If start-up succeeds, then `Initialize` returned a configuration whose provider is the one asked for,
  -- "openid" where that has no configuration of its own, with a log format that exists, and without an
  -- inactivity timeout where sessions are not refreshed. The provider of the start-up lists the configured
  -- security level and locale, every ingress is an absolute URL for HTTP with a host, and sessions are kept in
  -- Redis exactly if its address is configured.
  pub run-IsStarted :
      {V Level : Type 0} (lib : Libraries V Level)
      → IsLibraries lib
      → (v : V) (w : W) (s : Started W Jwk) → run env lib v w ≡ returned (ok s)
      → (c : Config) × (initialize lib v ≡ returned (ok c))
        × ((b : V) × (lib.bind_flags (lib.read_in_config (parsed lib v)).1 ≡ ok b)
            × IsConfigured lib b c)
        × IsStarted c s
  unfolding run
  run-IsStarted lib laws v w s h =
      let (c, initialized, started) = run_after-configured (initialize lib v) w s h in
      let (_, configured) = initialize-IsConfigured lib laws v c initialized in
      (c, initialized, configured, run_configured-IsStarted c w s started)

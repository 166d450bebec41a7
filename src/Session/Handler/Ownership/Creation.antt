-- ===== src/Session/Handler/Ownership/Creation.antt =====
-- A new session is stored under its own key (pkg/session/handler.go: Create).
use wonderwall.Base.{ℕ, String}
use wonderwall.Base.Action.{always}
use wonderwall.Base.Ensures.{Anything, Preserves, pure-Ensures, if-Ensures, bind-Ensures, then_pure}
use wonderwall.Base.Retry.{Retrier}
use wonderwall.Http.{Pairs}
use wonderwall.OpenId.Token.{Tokens}
use wonderwall.Session.Metadata.{Duration, Metadata, new_metadata, sub, with_timeout}
use wonderwall.Session.Data.{new_data}
use wonderwall.Session.Id.{Provider, key, new_session_id-Preserves}
use wonderwall.Session.Store.{Entries}
use wonderwall.Session.Handler.{SessionConfig, Env, store_new, create, timeout_if_enabled}
use wonderwall.Session.Handler.Ownership.{
  Surroundings, BelongsTo, Owned, now-Owned, random-Owned, encrypt-Owned, write_retried-Owned,
}

module _ {W Held : Type 0} (env : Env W Held) (retrier : Retrier W) (cfg : SessionConfig)
    (provider : Provider) (entries : W → Entries) (Mine : String → Type 0) (old : Entries)
    (rely : Surroundings env retrier provider entries Mine old) where
  abbrev P : W → Type 0
  P = Owned env retrier cfg provider entries Mine old rely

  now-P : Preserves P (always env.now)
  now-P = now-Owned env retrier cfg provider entries Mine old rely

  random-P : (n : ℕ) → Preserves P (env.random n)
  random-P = random-Owned env retrier cfg provider entries Mine old rely

  timeout-P : (m : Metadata) → Preserves P (timeout_if_enabled env retrier cfg provider m)
  unfolding timeout_if_enabled
  timeout-P m =
      if-Ensures P Anything cfg.inactivity _ _
        (then_pure P (always env.now) (λ t. with_timeout t cfg.inactivity_timeout m) now-P)
        (pure-Ensures P Anything m tt)

  store_new-P :
      (id : String) (tokens : Tokens) (lifetime : Duration) (m : Metadata)
      → Mine (key provider id)
      → Preserves P (store_new env retrier cfg provider id tokens lifetime m)
  unfolding store_new new_data
  store_new-P id tokens lifetime m mine =
      bind-Ensures P (BelongsTo env provider (key provider id)) Anything _ _
        (encrypt-Owned env retrier cfg provider entries Mine old rely (new_data id tokens m))
        λ e belongs.
          bind-Ensures P Anything Anything _ _
            (write_retried-Owned env retrier cfg provider entries Mine old rely (key provider id) e
              lifetime mine belongs)
            λ _ _. pure-Ensures P Anything (key provider id) tt

  pub create-Owned :
      ((id : String) → Mine (key provider id))
      → (query : Pairs) (tokens : Tokens) (lifetime : Duration)
      → Preserves P (create env retrier cfg provider query tokens lifetime)
  unfolding create
  create-Owned mine query tokens lifetime =
      bind-Ensures P Anything Anything _ _
        (new_session_id-Preserves env.random env.raw_url P random-P provider tokens.id_token query)
        λ id _. bind-Ensures P Anything Anything _ _ now-P λ t₁ _.
          bind-Ensures P Anything Anything _ _ now-P λ t₂ _.
            bind-Ensures P Anything Anything _ _
              (timeout-P (new_metadata t₂ (sub tokens.expiry t₁) lifetime))
              λ m _. store_new-P id tokens lifetime m (mine id)

-- ===== src/Session/Handler.antt =====
-- The session handler (pkg/session/handler.go). Its store, crypter, clock, random bytes and the
-- OpenID client's refresh grant are the fields of an environment; `retry.Do` is a retrier. Logging
-- is left out.
pub mod Refresh
pub mod Storage
pub mod Lifecycle
pub mod Keeping
pub mod Isolation
pub mod Preservation
pub mod Ownership
pub mod Interleavings
use wonderwall.Base.{
  ℕ, String, Bool, false, not, ◌&&◌, [], ◌∷◌, Result, ok, err, key_not_found, cookie_not_found,
  acquire_lock, context_done, openid_server, other, replace_error, if◌then◌else◌,
}
use wonderwall.Base.Action.{Action, pure, raise, lift, always, ◌>>=◌, ◌>>◌}
use wonderwall.Base.Retry.{Attempt, done, refused, retryable, retry_all, Retrier}
use wonderwall.Base.Int.{pos}
use wonderwall.Http.{Bytes, Pairs, Encoding}
use wonderwall.Cookie
use wonderwall.Cookie.{Crypter, get_decrypted}
use wonderwall.OpenId.Token.{Tokens, TokenResponse}
use wonderwall.Session.Metadata.{
  is_zero, Time, Duration, Metadata, sub, new_metadata, with_timeout, is_timed_out,
  is_refresh_on_cooldown, should_refresh,
}
use wonderwall.Session.Data
use wonderwall.Session.Data.{
  Data, EncryptedData, Json, new_data, has_access_token, has_refresh_token,
}
use wonderwall.Session.Store.{Store}
use wonderwall.Session.Id.{Provider, new_session_id, key}

-- config.Session
pub record SessionConfig : Type 0 where
  pub inactivity : Bool
  pub inactivity_timeout : Duration
  pub max_lifetime : Duration
  pub refresh : Bool

-- What the `select` of the acquisition loop meets, up to the first event that ends the loop by
-- itself: the timer of 15 seconds fires, so there is one.
pub data Schedule : Type 0 where
  context_ends timed_out : Schedule
  tick : Schedule → Schedule

pub record Env (W Held : Type 0) : Type 0 where
  pub now : W → Time × W
  pub random : ℕ → Action W Bytes
  pub raw_url : Bytes → String
  pub store : Store W Held
  pub crypter : Crypter W
  pub encoding : Encoding
  pub json : Json
  pub refresh_grant : String → Action W TokenResponse
  pub schedule : W → Schedule × W

-- 10 seconds
abbrev pub refresh_lock_duration : Duration
refresh_lock_duration = pos 10000000000

-- An error of the store: a missing key is final, anything else may be retried.
abbrev pub unless_missing : {A : Type 0} → Result A → Attempt A
unless_missing (ok a) = done a
unless_missing (err key_not_found) = refused key_not_found
unless_missing (err e) = retryable e

-- An error of the refresh grant: a server error may be retried, anything else is final.
abbrev pub retry_server_errors : {A : Type 0} → Result A → Attempt A
retry_server_errors (ok a) = done a
retry_server_errors (err openid_server) = retryable openid_server
retry_server_errors (err e) = refused e

abbrev pub attempt : {W A B : Type 0} → (A → Attempt B) → (W → A × W) → W → Attempt B × W
attempt f m w = let (r, w') = m w in (f r, w')

module _ {W Held : Type 0} (env : Env W Held) (retrier : Retrier W) (cfg : SessionConfig)
    (provider : Provider) where
  -- The timeout of a new session, if timeouts are enabled.
  unfoldable pub timeout_if_enabled : Metadata → Action W Metadata
  timeout_if_enabled m =
      if cfg.inactivity
      then (do t ← always env.now; pure (with_timeout t cfg.inactivity_timeout m))
      else pure m

  -- From the encryption on.
  unfoldable pub store_new : String → Tokens → Duration → Metadata → Action W String
  store_new external_session_id tokens session_lifetime metadata = do
    encrypted ←
        Data.encrypt env.encoding env.json env.crypter
          (new_data external_session_id tokens metadata)
    retrier.run Unit (
        attempt retry_all
          (env.store.write (key provider external_session_id) encrypted session_lifetime))
    pure (key provider external_session_id)

  unfoldable pub create : Pairs → Tokens → Duration → Action W String
  unfolding timeout_if_enabled store_new
  create query tokens session_lifetime = do
    external_session_id ← new_session_id env.random env.raw_url provider tokens.id_token query
    t₁ ← always env.now
    t₂ ← always env.now
    metadata ← timeout_if_enabled (new_metadata t₂ (sub tokens.expiry t₁) session_lifetime)
    store_new external_session_id tokens session_lifetime metadata

  unfoldable pub destroy_for_key : String → Action W (Unit {0})
  destroy_for_key k = retrier.run Unit (attempt unless_missing (env.store.delete (k ∷ [])))

  unfoldable pub destroy_for_id : String → Action W (Unit {0})
  unfolding destroy_for_key
  destroy_for_id id = destroy_for_key (key provider id)

  unfoldable pub get_for_key : String → Action W Data
  get_for_key k = do
    encrypted ← retrier.run EncryptedData (attempt unless_missing (env.store.read k))
    lift (Data.decrypt env.encoding env.json env.crypter encrypted)

  unfoldable pub get_for_id : String → Action W Data
  unfolding get_for_key
  get_for_id id = get_for_key (key provider id)

  unfoldable pub get_key : Pairs → Result String
  get_key cookies =
      replace_error cookie_not_found (get_decrypted env.encoding env.crypter cookies Cookie.session)

  unfoldable pub get : Pairs → Action W Data
  unfolding get_key get_for_key
  get cookies = do k ← lift (get_key cookies); get_for_key k

  unfoldable pub update : String → Data → Action W (Unit {0})
  update k d = do
    encrypted ← Data.encrypt env.encoding env.json env.crypter d
    retrier.run Unit (attempt unless_missing (env.store.update k encrypted))

  -- `h.cfg.Refresh && data.HasRefreshToken() && …`: the last test reads the clock, if it is made.
  unfoldable pub can_refresh : Data → Action W Bool
  can_refresh d =
      if cfg.refresh && has_refresh_token d
      then (do t ← always env.now; pure (not (is_refresh_on_cooldown t d.metadata)))
      else pure false

  after_cooldown_test : Time → Metadata → Action W Bool
  after_cooldown_test t₁ m =
      if is_refresh_on_cooldown t₁ m
      then pure false
      else (do t₂ ← always env.now; t₃ ← always env.now; pure (should_refresh t₁ t₂ t₃ m))

  -- The test on the cooldown reads the clock; if it passes, the comparison and `NextRefresh` do.
  unfoldable pub should_refresh_now : Data → Action W Bool
  unfolding after_cooldown_test
  should_refresh_now d =
      if cfg.refresh && has_refresh_token d
      then (do t ← always env.now; after_cooldown_test t d.metadata)
      else pure false

  -- A session without a timeout is not compared with the clock.
  unfoldable pub is_timed_out_now : Data → Action W Bool
  is_timed_out_now d =
      if cfg.inactivity && not (is_zero d.metadata.session.timeout_at)
      then (do t ← always env.now; pure (is_timed_out t d.metadata))
      else pure false

  -- The loop that acquires the lock. Only a lock that others hold is waited for.
  unfoldable pub acquire_loop : String → Schedule → Action W Held
  acquire_loop k context_ends w = (err context_done, w)
  acquire_loop k timed_out w = (err other, w)
  acquire_loop k (tick rest) w =
      let (r, w') = env.store.acquire k refresh_lock_duration w in
      let again = acquire_loop k rest w' in
      elim r [ ok held ↦ (ok held, w') | err acquire_lock ↦ again | err _ ↦ (err other, w') ]

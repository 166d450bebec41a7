-- ===== src/Session/Handler/Refresh.antt =====
-- Refreshing a session and handing out its access token (pkg/session/handler.go: Refresh,
-- GetOrRefresh, GetAccessToken).
pub mod AccessToken
pub mod Locking
pub mod Renewal
use wonderwall.Base.{
  ℕ, String, ◌==◌, Bool, true, false, not, ◌&&◌, Result, ok, err, Error, invalid_state,
  session_inactive, no_access_token, expired_access_token, openid_client, if◌then◌else◌,
}
use wonderwall.Base.Action.{Action, pure, raise, lift, catch, always, ◌>>=◌, ◌>>◌}
use wonderwall.Base.Retry.{Retrier}
use wonderwall.Http.{Pairs}
use wonderwall.OpenId.Token.{TokenResponse}
use wonderwall.Session.Metadata
use wonderwall.Session.Metadata.{Metadata, extend_timeout, is_expired}
use wonderwall.Session.Data.{Data, has_access_token}
use wonderwall.Session.Id.{Provider}
use wonderwall.Session.Handler.{
  SessionConfig, Env, attempt, retry_server_errors, get_for_key, get_key, update, can_refresh,
  should_refresh_now, is_timed_out_now, acquire_loop,
}

-- A client error of the grant means that the authorization is no longer valid.
abbrev pub grant_error : {A : Type 0} → Result A → Result A
grant_error (ok a) = ok a
grant_error (err openid_client) = err invalid_state
grant_error (err e) = err e

module _ {W Held : Type 0} (env : Env W Held) (retrier : Retrier W) (cfg : SessionConfig)
    (provider : Provider) where
  unfoldable pub grant : String → Action W TokenResponse
  grant refresh_token w =
      let (r, w') =
        retrier.run TokenResponse (attempt retry_server_errors (env.refresh_grant refresh_token))
          w in
      (grant_error r, w')

  unfoldable pub extended : Metadata → Action W Metadata
  extended m =
      if cfg.inactivity
      then (do t ← always env.now; pure (extend_timeout t cfg.inactivity_timeout m))
      else pure m

  -- The data with the tokens of the response.
  unfoldable pub renewed : Data → TokenResponse → Action W Data
  unfolding extended
  renewed d resp = do
    t ← always env.now
    m ← extended (Metadata.refresh t resp.expires_in d.metadata)
    pure (record d {
      access_token = resp.access_token;
      refresh_token = resp.refresh_token;
      metadata = m;
    })

  unfoldable pub perform : String → Data → Action W Data
  unfolding grant renewed
  perform k d = do
    resp ← grant d.refresh_token
    d' ← renewed d resp
    update env retrier cfg provider k d'
    pure d'

  unfoldable pub unless_timed_out : String → Data → Action W Data
  unless_timed_out k d = do
    inactive ← is_timed_out_now env retrier cfg provider d
    if inactive then raise session_inactive else perform k d

  -- What `Refresh` does while it holds the lock.
  unfoldable pub refresh_locked : String → Action W Data
  unfolding unless_timed_out
  refresh_locked k = do
    d ← get_for_key env retrier cfg provider k
    can ← can_refresh env retrier cfg provider d
    if can then unless_timed_out k d else pure d

  -- From the acquisition on; the deferred release only logs its error.
  unfoldable pub with_lock : String → Action W Data
  with_lock k = do
    s ← always env.schedule
    held ← acquire_loop env retrier cfg provider k s
    result ← catch (refresh_locked k)
    catch (env.store.release held)
    lift result

  unfoldable pub refresh : String → Data → Action W Data
  unfolding with_lock
  refresh k d = do can ← can_refresh env retrier cfg provider d; if can then with_lock k else pure d

  unfoldable pub or_existing : Data → Result Data → Action W Data
  or_existing d (ok d') = pure d'
  or_existing d (err invalid_state) = raise invalid_state
  or_existing d (err session_inactive) = raise session_inactive
  or_existing d (err _) = pure d

  unfoldable pub refreshed_if_due : String → Data → Action W Data
  unfolding or_existing
  refreshed_if_due k d = do
    due ← should_refresh_now env retrier cfg provider d
    if due then (do r ← catch (refresh k d); or_existing d r) else pure d

  unfoldable pub get_or_refresh : Pairs → Action W Data
  unfolding refreshed_if_due
  get_or_refresh cookies = do
    k ← lift (get_key env retrier cfg provider cookies)
    d ← get_for_key env retrier cfg provider k
    inactive ← is_timed_out_now env retrier cfg provider d
    if inactive then raise session_inactive else refreshed_if_due k d

  unfoldable pub unexpired : Data → Action W String
  unexpired d = do
    t ← always env.now
    if is_expired t d.metadata then raise expired_access_token else pure d.access_token

  -- The handler's data is never nil where its error is.
  unfoldable pub get_access_token : Pairs → Action W String
  unfolding unexpired
  get_access_token cookies = do
    d ← get_or_refresh cookies
    if has_access_token d then unexpired d else raise no_access_token

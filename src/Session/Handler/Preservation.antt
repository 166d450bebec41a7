-- ===== src/Session/Handler/Preservation.antt =====
-- The tests and calls of the session handler that do not use the store (pkg/session/handler.go): they keep
-- what the clock, the refresh grant and the waits keep.
use wonderwall.Base.{String, not, ◌&&◌, false, expired_access_token}
use wonderwall.Base.Action.{always}
use wonderwall.Base.Ensures.{
  Anything, Preserves, preserves, pure-Ensures, raise-Ensures, if-Ensures, bind-Ensures,
  run-Preserves, then_pure,
}
use wonderwall.Base.Retry.{Retrier}
use wonderwall.Session.Metadata.{
  Metadata, extend_timeout, is_timed_out, is_zero, is_expired, is_refresh_on_cooldown,
  should_refresh,
}
use wonderwall.Session.Data.{Data, has_refresh_token}
use wonderwall.Session.Id.{Provider}
use wonderwall.Session.Handler.{
  SessionConfig, Env, retry_server_errors, can_refresh, should_refresh_now, is_timed_out_now,
}
use wonderwall.Session.Handler.Refresh.{grant, extended, unexpired}

-- What the clock, a grant and a wait leave as it is.
pub record IsQuietFor {W Held : Type 0} (env : Env W Held) (retrier : Retrier W) (P : W → Type 0)
    : Type 0 where
  pub now : (w : W) → P w → P (env.now w).1
  pub refresh_grant : (t : String) (w : W) → P w → P (env.refresh_grant t w).1
  pub waits : (w v : W) → retrier.Elapse w v → P w → P v

module _ {W Held : Type 0} (env : Env W Held) (retrier : Retrier W) (cfg : SessionConfig)
    (provider : Provider) (P : W → Type 0) (quiet : IsQuietFor env retrier P) where
  now-P : Preserves P (always env.now)
  now-P = preserves P (always env.now) quiet.now

  pub can_refresh-Preserves : (d : Data) → Preserves P (can_refresh env retrier cfg provider d)
  unfolding can_refresh
  can_refresh-Preserves d =
      if-Ensures P Anything (cfg.refresh && has_refresh_token d) _ _
        (then_pure P (always env.now) (λ t. not (is_refresh_on_cooldown t d.metadata)) now-P)
        (pure-Ensures P Anything false tt)

  pub is_timed_out-Preserves :
      (d : Data) → Preserves P (is_timed_out_now env retrier cfg provider d)
  unfolding is_timed_out_now
  is_timed_out-Preserves d =
      if-Ensures P Anything (cfg.inactivity && not (is_zero d.metadata.session.timeout_at)) _ _
        (then_pure P (always env.now) (λ t. is_timed_out t d.metadata) now-P)
        (pure-Ensures P Anything false tt)

  pub should_refresh-Preserves :
      (d : Data) → Preserves P (should_refresh_now env retrier cfg provider d)
  unfolding should_refresh_now
  should_refresh-Preserves d =
      if-Ensures P Anything (cfg.refresh && has_refresh_token d) _ _
        (bind-Ensures P Anything Anything _ _ now-P λ t₁ _.
          if-Ensures P Anything (is_refresh_on_cooldown t₁ d.metadata) _ _
            (pure-Ensures P Anything false tt)
            (bind-Ensures P Anything Anything _ _ now-P λ t₂ _.
              then_pure P (always env.now) (λ t₃. should_refresh t₁ t₂ t₃ d.metadata) now-P))
        (pure-Ensures P Anything false tt)

  pub grant-Preserves : (t : String) → Preserves P (grant env retrier cfg provider t)
  unfolding grant
  grant-Preserves t =
      let run =
        run-Preserves P retrier retry_server_errors (env.refresh_grant t) quiet.waits
          (preserves P (env.refresh_grant t) (quiet.refresh_grant t)) in
      preserves P (grant env retrier cfg provider t) λ w p. (run.at w p).0

  pub extended-Preserves : (m : Metadata) → Preserves P (extended env retrier cfg provider m)
  unfolding extended
  extended-Preserves m =
      if-Ensures P Anything cfg.inactivity _ _
        (then_pure P (always env.now) (λ t. extend_timeout t cfg.inactivity_timeout m) now-P)
        (pure-Ensures P Anything m tt)

  pub unexpired-Preserves : (d : Data) → Preserves P (unexpired env retrier cfg provider d)
  unfolding unexpired
  unexpired-Preserves d = bind-Ensures P Anything Anything _ _ now-P λ t _.
      if-Ensures P Anything (is_expired t d.metadata) _ _
        (raise-Ensures P Anything expired_access_token) (pure-Ensures P Anything d.access_token tt)

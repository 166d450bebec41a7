-- ===== src/Session/Handler/Refresh/Locking.antt =====
-- The lock around a refresh (pkg/session/handler.go: Refresh).
use wonderwall.Base.{ℕ, zero, suc, err, acquire_lock, String, ◌≡◌, refl, false, ok, arith}
use wonderwall.Base.Retry.{Retrier}
use wonderwall.Session.Data.{Data}
use wonderwall.Session.Store.{Entries, IsStore}
use wonderwall.Session.Id.{Provider}
use wonderwall.Session.Handler.{
  SessionConfig, Env, Schedule, context_ends, timed_out, tick, refresh_lock_duration, can_refresh,
  acquire_loop,
}
use wonderwall.Session.Handler.Refresh.{refresh}

module _ {W Held : Type 0} (env : Env W Held) (retrier : Retrier W) (cfg : SessionConfig)
    (provider : Provider) where
  -- Waiting for the lock changes no session.
  pub acquire_loop_keeps :
      (entries : W → Entries)
      → IsStore env.store entries
      → (k j : String) (s : Schedule) (w : W)
      → entries (acquire_loop env retrier cfg provider k s w).1 j ≡ entries w j
  unfolding acquire_loop
  acquire_loop_keeps entries laws k j context_ends w = refl
  acquire_loop_keeps entries laws k j timed_out w = refl
  acquire_loop_keeps entries laws k j (tick s) w =
      let r = env.store.acquire k refresh_lock_duration w in
      ground (
        arith,
        acquire_loop_keeps entries laws k j s r.1,
        laws.acquire_keeps k j refresh_lock_duration w,
      )

  -- A refresh that is not possible, by configuration, for want of a refresh token or during the
  -- cooldown, takes no lock: it returns the data it was given, after at most a reading of the clock.
  pub refresh_impossible :
      (k : String) (d : Data) (w : W)
      → (can_refresh env retrier cfg provider d w).0 ≡ ok false
      → refresh env retrier cfg provider k d w
        ≡ (ok d, (can_refresh env retrier cfg provider d w).1)
  unfolding refresh
  refresh_impossible k d w h = ground arith

  -- Attempts to get the lock that others hold, one after another.
  pub data Refused (k : String) : ℕ → W → W → Type 0 where
    untried : {w : W} → Refused k 0 w w
    tried :
        {n : ℕ} {w v : W}
        → (env.store.acquire k refresh_lock_duration w).0 ≡ err acquire_lock
        → Refused k n (env.store.acquire k refresh_lock_duration w).1 v
        → Refused k (suc n) w v

  -- After that many ticks.
  abbrev pub ticks : ℕ → Schedule → Schedule
  ticks zero s = s
  ticks (suc n) s = tick (ticks n s)

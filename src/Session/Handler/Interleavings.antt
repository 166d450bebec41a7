-- ===== src/Session/Handler/Interleavings.antt =====
-- Refreshes of one session by any number of requests at once (pkg/session/handler.go: Refresh, from the
-- acquisition of the lock to its release). A step is a call that `Refresh` makes, of one of the requests.
pub mod Locks
pub mod Safety
pub mod Exclusion
pub mod InRedis
pub mod Steps
pub mod Simulation
use wonderwall.Base.{
  ℕ, String, ◌≡◌, Bool, true, false, ◌&&◌, leb, Error, Result, ok, err, if◌then◌else◌,
}
use wonderwall.Base.Action.{Action, ◌>>=◌}
use wonderwall.Base.Retry.{Retrier}
use wonderwall.OpenId.Token.{TokenResponse}
use wonderwall.Session.Data.{Data}
use wonderwall.Session.Id.{Provider}
use wonderwall.Session.Handler
use wonderwall.Session.Handler.{
  SessionConfig, Env, refresh_lock_duration, get_for_key, can_refresh, is_timed_out_now,
}
use wonderwall.Session.Handler.Refresh.{grant, renewed}

-- How far a request has come: it has no lock, it has got the lock, read the session, found that it may be
-- refreshed, been answered by the provider, or has only to release the lock.
pub data Phase (Held : Type 0) : Type 0 where
  outside : Phase Held
  holding : Held → Phase Held
  found : Held → Data → Phase Held
  ready : Held → Data → Phase Held
  answered : Held → Data → TokenResponse → Phase Held
  leaving : Held → Phase Held

-- Between the acquisition and the release.
abbrev pub has_lock : {Held : Type 0} → Phase Held → Bool
has_lock outside = false
has_lock (holding h) = true
has_lock (found h d) = true
has_lock (ready h d) = true
has_lock (answered h d resp) = true
has_lock (leaving h) = true

-- The requests are numbered.
pub record System (W Held : Type 0) : Type 0 where
  pub world : W
  pub phases : ℕ → Phase Held

abbrev pub same : ℕ → ℕ → Bool
same i j = leb i j && leb j i

abbrev pub set : {Held : Type 0} → ℕ → Phase Held → (ℕ → Phase Held) → ℕ → Phase Held
set i p phases j = if same i j then p else phases j

abbrev pub moves : {W Held : Type 0} → System W Held → ℕ → W → Phase Held → System W Held
moves s i w p = record { world = w; phases = set i p s.phases }

module _ {W Held : Type 0} (env : Env W Held) (retrier : Retrier W) (cfg : SessionConfig)
    (provider : Provider) (k : String) where
  -- The renewed session is stored.
  unfoldable pub store_renewed : Data → TokenResponse → Action W (Unit {0})
  store_renewed d resp = do
    d' ← renewed env retrier cfg provider d resp
    Handler.update env retrier cfg provider k d'

  pub data Step (Others : W → W → Type 0) (s t : System W Held) : Type 0 where
    acquires :
        (i : ℕ) (h : Held) (w : W)
        → s.phases i ≡ outside
        → env.store.acquire k refresh_lock_duration s.world ≡ (ok h, w)
        → t ≡ moves s i w (holding h)
        → Step Others s t
    is_refused :
        (i : ℕ) (e : Error) (w : W)
        → s.phases i ≡ outside
        → env.store.acquire k refresh_lock_duration s.world ≡ (err e, w)
        → t ≡ record s { world = w }
        → Step Others s t
    finds :
        (i : ℕ) (h : Held) (d : Data) (w : W)
        → s.phases i ≡ holding h
        → get_for_key env retrier cfg provider k s.world ≡ (ok d, w)
        → t ≡ moves s i w (found h d)
        → Step Others s t
    finds_nothing :
        (i : ℕ) (h : Held) (e : Error) (w : W)
        → s.phases i ≡ holding h
        → get_for_key env retrier cfg provider k s.world ≡ (err e, w)
        → t ≡ moves s i w (leaving h)
        → Step Others s t
    may_not :
        (i : ℕ) (h : Held) (d : Data) (w : W)
        → s.phases i ≡ found h d
        → can_refresh env retrier cfg provider d s.world ≡ (ok false, w)
        → t ≡ moves s i w (leaving h)
        → Step Others s t
    is_inactive :
        (i : ℕ) (h : Held) (d : Data) (v w : W)
        → s.phases i ≡ found h d
        → can_refresh env retrier cfg provider d s.world ≡ (ok true, v)
        → is_timed_out_now env retrier cfg provider d v ≡ (ok true, w)
        → t ≡ moves s i w (leaving h)
        → Step Others s t
    may :
        (i : ℕ) (h : Held) (d : Data) (v w : W)
        → s.phases i ≡ found h d
        → can_refresh env retrier cfg provider d s.world ≡ (ok true, v)
        → is_timed_out_now env retrier cfg provider d v ≡ (ok false, w)
        → t ≡ moves s i w (ready h d)
        → Step Others s t
    is_granted :
        (i : ℕ) (h : Held) (d : Data) (resp : TokenResponse) (w : W)
        → s.phases i ≡ ready h d
        → grant env retrier cfg provider d.refresh_token s.world ≡ (ok resp, w)
        → t ≡ moves s i w (answered h d resp)
        → Step Others s t
    is_denied :
        (i : ℕ) (h : Held) (d : Data) (e : Error) (w : W)
        → s.phases i ≡ ready h d
        → grant env retrier cfg provider d.refresh_token s.world ≡ (err e, w)
        → t ≡ moves s i w (leaving h)
        → Step Others s t
    stores :
        (i : ℕ) (h : Held) (d : Data) (resp : TokenResponse) (r : Result (Unit {0})) (w : W)
        → s.phases i ≡ answered h d resp
        → store_renewed d resp s.world ≡ (r, w)
        → t ≡ moves s i w (leaving h)
        → Step Others s t
    releases :
        (i : ℕ) (h : Held) (r : Result (Unit {0})) (w : W)
        → s.phases i ≡ leaving h
        → env.store.release h s.world ≡ (r, w)
        → t ≡ moves s i w outside
        → Step Others s t
    others : (w : W) → Others s.world w → t ≡ record s { world = w } → Step Others s t

  pub data Reach (Others : W → W → Type 0) (s : System W Held) : System W Held → Type 0 where
    begun : Reach Others s s
    next : {t u : System W Held} → Reach Others s t → Step Others t u → Reach Others s u

-- ===== src/Base/Retry.antt =====
-- The library call `retry.Do(ctx, retrypkg.DefaultBackoff, f)` of github.com/sethvargo/go-retry,
-- as a parameter with its documented behaviour.
use mathlib.Core.Path.{◌≡◌, subst}
use wonderwall.Base.Results.{Error, context_done, Result, ok, err}
use wonderwall.Base.Action.{Action}

-- What the retried function returns: nil, an error, or `retry.RetryableError(err)`.
pub data Attempt (A : Type 0) : Type 0 where
  done : A → Attempt A
  refused : Error → Attempt A
  retryable : Error → Attempt A

-- `return retry.RetryableError(err)`, which is nil for a nil error.
abbrev pub retry_all : {A : Type 0} → Result A → Attempt A
retry_all (ok a) = done a
retry_all (err e) = retryable e

-- The runs that the documentation of `retry.Do` allows: attempts until one succeeds, one fails
-- with an error that is not retryable, the backoff gives up, or the context is done. Between
-- two attempts time passes, and other processes may change the world.
pub data Runs {W A : Type 0} (Elapse : W → W → Type 0) (f : W → Attempt A × W)
    : W → Result A → W → Type 0 where
  succeeded : {w v : W} (a : A) → f w ≡ (done a, v) → Runs Elapse f w (ok a) v
  failed : {w v : W} (e : Error) → f w ≡ (refused e, v) → Runs Elapse f w (err e) v
  gave_up : {w v : W} (e : Error) → f w ≡ (retryable e, v) → Runs Elapse f w (err e) v
  cancelled : {w : W} → Runs Elapse f w (err context_done) w
  again :
      {w v u x : W} {r : Result A} (e : Error)
      → f w ≡ (retryable e, v)
      → Elapse v u
      → Runs Elapse f u r x
      → Runs Elapse f w r x

pub record Retrier (W : Type 0) : Type 1 where
  pub Elapse : W → W → Type 0
  pub run : (A : Type 0) → (W → Attempt A × W) → Action W A
  pub runs :
      (A : Type 0) (f : W → Attempt A × W) (w : W) → Runs Elapse f w (run A f w).0 (run A f w).1

-- What holds after each attempt that ends the run, and is kept by the others and by the waits.
module _ {W A : Type 0} {Elapse : W → W → Type 0} {f : W → Attempt A × W} where
  pub Runs-keeps :
      (P : W → Type 0)
      → ((w v : W) → Elapse w v → P w → P v)
      → ((w : W) → P w → P (f w).1)
      → {w v : W} {r : Result A} → Runs Elapse f w r v
      → P w
      → P v
  Runs-keeps P wait step (succeeded {w} a e) h = subst (λ p. P p.1) e (step w h)
  Runs-keeps P wait step (failed {w} x e) h = subst (λ p. P p.1) e (step w h)
  Runs-keeps P wait step (gave_up {w} x e) h = subst (λ p. P p.1) e (step w h)
  Runs-keeps P wait step cancelled h = h
  Runs-keeps P wait step (again {w} {v} {u} x e t rest) h =
      Runs-keeps P wait step rest (wait v u t (subst (λ p. P p.1) e (step w h)))

  -- A run that succeeds ends with a successful attempt, from a state that satisfies the invariant.
  pub Runs-done :
      (P : W → Type 0)
      → ((w v : W) → Elapse w v → P w → P v)
      → ((w : W) → P w → P (f w).1)
      → {w v : W} {r : Result A} {a : A} → Runs Elapse f w r v
      → r ≡ ok a
      → P w
      → (u : W) × P u × (f u ≡ (done a, v))
  Runs-done P wait step (succeeded {w} b e) q h = (w, h, cc)
  Runs-done P wait step (failed x e) q h = cc
  Runs-done P wait step (gave_up x e) q h = cc
  Runs-done P wait step cancelled q h = cc
  Runs-done P wait step (again {w} {v} {u} x e t rest) q h =
      Runs-done P wait step rest q (wait v u t (subst (λ p. P p.1) e (step w h)))

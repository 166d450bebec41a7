-- ===== src/Retry.antt =====
-- pkg/retry/retry.go: how the backoff of the retries is made. The backoffs of the library go-retry are a
-- parameter.
use wonderwall.Base.Int.{pos}
use wonderwall.Session.Metadata.{Duration}

pub record Backoffs (B : Type 0) : Type 0 where
  pub new_fibonacci : Duration → B
  pub with_max_duration : Duration → B → B

pub record FibonacciBackoff (B : Type 0) : Type 0 where
  pub base : Duration
  pub max : Duration
  pub backoff : B

-- 50 milliseconds and a second
abbrev pub default_base_duration : Duration
default_base_duration = pos 50000000

abbrev pub default_max_duration : Duration
default_max_duration = pos 1000000000

module _ {B : Type 0} (lib : Backoffs B) where
  unfoldable pub fibonacci_backoff : Duration → Duration → B
  fibonacci_backoff base max = lib.with_max_duration max (lib.new_fibonacci base)

  unfoldable pub fibonacci : FibonacciBackoff B
  unfolding fibonacci_backoff
  fibonacci = record {
    base = default_base_duration;
    max = default_max_duration;
    backoff = fibonacci_backoff default_base_duration default_max_duration;
  }

  unfoldable pub base_duration : Duration → FibonacciBackoff B → FibonacciBackoff B
  unfolding fibonacci_backoff
  base_duration base b = record b { base = base; backoff = fibonacci_backoff base b.max }

  unfoldable pub max_duration : Duration → FibonacciBackoff B → FibonacciBackoff B
  unfolding fibonacci_backoff
  max_duration max b = record b { max = max; backoff = fibonacci_backoff b.base max }

  -- The backoff of all calls.
  unfoldable pub default_backoff : B
  unfolding fibonacci
  default_backoff = fibonacci.backoff

-- ===== src/Middleware/Observers.antt =====
-- The handlers of pkg/middleware that log and count requests (logentry.go, prometheus.go). What the wrapped
-- writer reports, `strconv`, the number of milliseconds and the clock are parameters.
use Prim.Native.String.{◌++◌ as append}
use wonderwall.Base.{ℕ, String, leb, List, [], ◌∷◌, ◌++◌, if◌then◌else◌}
use wonderwall.Http.{Pairs, Request, Url, UrlLibrary}
use wonderwall.Session.Metadata.{Time, Duration, sub}
use wonderwall.Metrics.{Vector, incremented, observed, logged, Watched, emit}
use wonderwall.Middleware.{Logged, new_log_entry, with_request_log_fields, status_label}

-- The status and the number of bytes that the wrapped writer reports when the handler is done, or panics.
pub data Served (A : Type 0) : Type 0 where
  finished : ℕ → ℕ → A → Served A
  panicked : ℕ → ℕ → Served A

pub record PrometheusMiddleware : Type 0 where
  pub reqs : Vector
  pub latency : Vector

abbrev request_labels : List String
request_labels = "code" ∷ "method" ∷ "path" ∷ "host" ∷ []

unfoldable pub prometheus : String → PrometheusMiddleware
prometheus provider =
    let const_labels = ("service", "wonderwall") ∷ ("provider", provider) ∷ [] in
    record {
      reqs = record {
        namespace = "";
        name = "requests_total";
        const_labels = const_labels;
        labels = request_labels;
      };
      latency = record {
        namespace = "";
        name = "request_duration_seconds";
        const_labels = const_labels;
        labels = request_labels;
      };
    }

pub record ObserverEnv (W : Type 0) : Type 0 where
  pub now : W → Time × W
  pub itoa : ℕ → String
  pub milliseconds : Duration → String
  pub urls : UrlLibrary
  pub fragmentless : Url → Url

abbrev pub Handler : (W A : Type 0) → Type 0
Handler W A = Request → Watched W → Served A × Watched W

abbrev response_level : ℕ → String
response_level status = if leb 400 status then "info" else "debug"

module _ {W : Type 0} (env : ObserverEnv W) where
  abbrev label_values : ℕ → Request → Pairs
  label_values status r =
      ("code", env.itoa status) ∷ ("method", r.method) ∷ ("path", r.path) ∷ ("host", r.host) ∷ []

  abbrev pub read_clock : Watched W → Time × Watched W
  read_clock x = let (t, w) = env.now x.world in (t, record x { world = w })

  unfoldable pub write : Pairs → ℕ → ℕ → Duration → Watched W → Watched W
  write entry status bytes elapsed x =
      emit
        (logged (response_level status)
          (append "response: HTTP "
            (append (env.itoa status) (append " (" (append (status_label status) ")"))))
          (entry
            ++ ("response_status", env.itoa status)
              ∷ ("response_bytes", env.itoa bytes)
              ∷ ("response_elapsed_ms", env.milliseconds elapsed)
              ∷ []))
        x

module _ {W A : Type 0} (env : ObserverEnv W) where
  -- A panic goes past the counters.
  unfoldable pub count :
      PrometheusMiddleware → Request → Time → Served A × Watched W → Served A × Watched W
  count m r start (finished status bytes a, x) =
      let (t, x') = read_clock env x in
      (
        finished status bytes a,
        emit (observed m.latency (label_values env status r) (sub t start))
            (emit (incremented m.reqs (label_values env status r)) x'),
      )
  count m r start (panicked status bytes, x) = (panicked status bytes, x)

  unfoldable pub prometheus_handler : PrometheusMiddleware → Handler W A → Handler W A
  unfolding count
  prometheus_handler m next r x = let (start, x') = read_clock env x in count m r start (next r x')

  -- The deferred call runs after a panic too.
  unfoldable pub write_deferred : Pairs → Time → Served A × Watched W → Served A × Watched W
  unfolding write
  write_deferred entry start (finished status bytes a, x) =
      let (t, x') = read_clock env x in
      (finished status bytes a, write env entry status bytes (sub t start) x')
  write_deferred entry start (panicked status bytes, x) =
      let (t, x') = read_clock env x in
      (panicked status bytes, write env entry status bytes (sub t start) x')

  unfoldable pub log_entry_handler : String → String → Logged → Handler W A → Handler W A
  unfolding write_deferred
  log_entry_handler provider id l next r x =
      let entry = new_log_entry provider id r l in
      let arrived =
        emit
          (logged "info" (append r.method (append " - " r.path))
            (entry ++ with_request_log_fields env.urls env.fragmentless r l))
          x in
      let (start, x') = read_clock env arrived in write_deferred entry start (next r x')

-- ===== src/Metrics.antt =====
-- pkg/metrics/metrics.go: what is counted and timed. A call of the library that counts, times or logs is an
-- event; `events` has the newest first. Help texts, buckets and the server of the metrics are left out.
use wonderwall.Base.{String, Option, none, some, List, [], ◌∷◌}
use wonderwall.Base.Action.{Action}
use wonderwall.Http.{Pairs}
use wonderwall.Session.Metadata.{Time, Duration, sub}

-- A counter or a histogram, with its constant labels and the names of the others.
pub record Vector : Type 0 where
  pub namespace : String
  pub name : String
  pub const_labels : Pairs
  pub labels : List String

-- The values of the labels follow the vector. `logged` is a call of the logger at a level, which writes no line
-- if its own level, by default info, is higher.
pub data Event : Type 0 where
  touched incremented : Vector → Pairs → Event
  observed : Vector → Pairs → Duration → Event
  logged : String → String → Pairs → Event

-- The variables of the package.
pub record Metrics : Type 0 where
  pub redis_latency : Vector
  pub logins : Vector
  pub logouts : Vector

-- `constLabels[0]`, where it is given.
abbrev or_labels : Pairs → Option Pairs → Pairs
or_labels standard none = standard
or_labels standard (some labels) = labels

abbrev hpa_rate : Pairs
hpa_rate = ("hpa", "rate") ∷ []

abbrev pub new_redis_latency : Option Pairs → Vector
new_redis_latency labels = record {
  namespace = "wonderwall";
  name = "redis_latency";
  const_labels = or_labels [] labels;
  labels = "operation" ∷ [];
}

abbrev pub new_logins : Option Pairs → Vector
new_logins labels = record {
  namespace = "wonderwall";
  name = "logins";
  const_labels = or_labels hpa_rate labels;
  labels = [];
}

abbrev pub new_logouts : Option Pairs → Vector
new_logouts labels = record {
  namespace = "wonderwall";
  name = "logouts";
  const_labels = or_labels hpa_rate labels;
  labels = "operation" ∷ [];
}

-- Before `WithProvider`.
abbrev pub initial_metrics : Metrics
initial_metrics = record {
  redis_latency = new_redis_latency none;
  logins = new_logins none;
  logouts = new_logouts none;
}

abbrev pub with_provider : String → Metrics
with_provider provider = record {
  redis_latency = new_redis_latency (some (("provider", provider) ∷ []));
  logins = new_logins (some (("hpa", "rate") ∷ ("provider", provider) ∷ []));
  logouts = new_logouts (some (("hpa", "rate") ∷ ("provider", provider) ∷ []));
}

-- The operations of a logout.
pub data LogoutOperation : Type 0 where
  front_channel local self_initiated : LogoutOperation

abbrev pub operation_text : LogoutOperation → String
operation_text front_channel = "front_channel"
operation_text local = "local"
operation_text self_initiated = "self_initiated"

abbrev pub operation_label : LogoutOperation → Pairs
operation_label operation = ("operation", operation_text operation) ∷ []

-- A world with the variables of the package and what has been observed.
pub record Watched (W : Type 0) : Type 0 where
  pub world : W
  pub metrics : Metrics
  pub events : List Event

abbrev pub emit : {W : Type 0} → Event → Watched W → Watched W
emit e x = record x { events = e ∷ x.events }

unfoldable pub init_labels : {W : Type 0} → Watched W → Watched W
init_labels x =
    emit (touched x.metrics.logouts (operation_label front_channel))
      (emit (touched x.metrics.logouts (operation_label self_initiated)) x)

unfoldable pub observe_login : {W : Type 0} → Watched W → Watched W
observe_login x = emit (incremented x.metrics.logins []) x

unfoldable pub observe_logout : {W : Type 0} → LogoutOperation → Watched W → Watched W
observe_logout operation x = emit (incremented x.metrics.logouts (operation_label operation)) x

-- The error of the call is passed on, and the call is timed whether or not it fails.
unfoldable pub observe_redis_latency :
    {W A : Type 0} → (W → Time × W) → String → Action W A → Action (Watched W) A
observe_redis_latency now operation fun x =
    let (start, w₁) = now x.world in
    let (r, w₂) = fun w₁ in
    let (end, w₃) = now w₂ in
    (
      r,
      emit (observed x.metrics.redis_latency (("operation", operation) ∷ []) (sub end start))
          (record x { world = w₃ }),
    )

-- `Handle`, up to the server: the variables are replaced by those of the provider.
unfoldable pub handle : {W : Type 0} → String → Watched W → Watched W
unfolding init_labels
handle provider x = init_labels (record x { metrics = with_provider provider })

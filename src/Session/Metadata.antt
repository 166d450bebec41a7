-- ===== src/Session/Metadata.antt =====
-- The lifetimes of a session and of its tokens (pkg/session/data.go, from `Metadata` on).
-- An instant is the number of nanoseconds since Go's zero time, a duration a number of nanoseconds.
-- `time.Now()` is the environment's: each call of it is an argument, in the order of the calls.
pub mod Refresh
pub mod Lifetimes
pub mod Report
use wonderwall.Base.{ℕ, ◌*◌, ◌^◌, Bool, true, false, not, if◌then◌else◌}
use wonderwall.Base.Int.{
  ℤ, pos, negsuc, ◌+ℤ◌, ◌-ℤ◌, quot_ℤ, scale, ltb_ℤ, leb_ℤ, wrap64, saturate64,
}

abbrev pub Time : Type 0
Time = ℤ

abbrev pub Duration : Type 0
Duration = ℤ

abbrev pub second : ℕ
second = 1000000000

abbrev pub refresh_min_interval : Duration
refresh_min_interval = pos 60000000000

-- `-RefreshLeeway` is added, so the leeway is given by its size.
abbrev pub refresh_leeway : Duration
refresh_leeway = pos 300000000000

pub record MetadataSession : Type 0 where
  pub created_at : Time
  pub ends_at : Time
  pub timeout_at : Time

pub record MetadataTokens : Type 0 where
  pub expire_at : Time
  pub refreshed_at : Time

pub record Metadata : Type 0 where
  pub session : MetadataSession
  pub tokens : MetadataTokens

-- The zero value of `time.Time`.
abbrev pub zero_time : Time
zero_time = pos 0

-- `time.Time.IsZero`
abbrev pub is_zero : Time → Bool
is_zero (pos n) = elim n [ ℕ.zero ↦ true | ℕ.suc _ ↦ false ]
is_zero (negsuc n) = false

-- `t.Sub(u)`
unfoldable pub sub : Time → Time → Duration
unfolding saturate64
sub t u = saturate64 (t -ℤ u)

unfoldable pub new_metadata : Time → Duration → Duration → Metadata
new_metadata now expires_in ends_in = record {
  session = record { created_at = now; ends_at = now +ℤ ends_in; timeout_at = zero_time };
  tokens = record { expire_at = now +ℤ expires_in; refreshed_at = now };
}

unfoldable pub is_expired : Time → Metadata → Bool
is_expired now m = ltb_ℤ m.tokens.expire_at now

unfoldable pub token_lifetime : Metadata → Duration
token_lifetime m = sub m.tokens.expire_at m.tokens.refreshed_at

unfoldable pub refresh_cooldown : Metadata → Time
refresh_cooldown m =
    let lifetime = token_lifetime m in
    if leb_ℤ lifetime (scale refresh_min_interval 2)
    then m.tokens.refreshed_at +ℤ quot_ℤ lifetime 2
    else m.tokens.refreshed_at +ℤ refresh_min_interval

unfoldable pub is_refresh_on_cooldown : Time → Metadata → Bool
is_refresh_on_cooldown now m = ltb_ℤ now (refresh_cooldown m)

unfoldable pub next_refresh : Time → Metadata → Time
next_refresh now m =
    let next = m.tokens.expire_at -ℤ refresh_leeway in
    if ltb_ℤ next now then refresh_cooldown m else next

-- The readings of the cooldown test, of the comparison, and of `NextRefresh`.
unfoldable pub should_refresh : Time → Time → Time → Metadata → Bool
should_refresh now₁ now₂ now₃ m =
    if is_refresh_on_cooldown now₁ m then false else ltb_ℤ (next_refresh now₃ m) now₂

-- `time.Duration(nextExpirySeconds) * time.Second` is a product of 64-bit integers.
unfoldable pub refresh : Time → ℤ → Metadata → Metadata
refresh now next_expiry_seconds m = record m {
  tokens = record {
    expire_at = now +ℤ wrap64 (scale next_expiry_seconds second);
    refreshed_at = now;
  };
}

unfoldable pub extend_timeout : Time → Duration → Metadata → Metadata
extend_timeout now duration m = record m {
  session = record m.session { timeout_at = now +ℤ duration };
}

unfoldable pub with_timeout : Time → Duration → Metadata → Metadata
with_timeout now timeout_in m = record m {
  session = record m.session { timeout_at = now +ℤ timeout_in };
}

unfoldable pub is_timed_out : Time → Metadata → Bool
is_timed_out now m = if is_zero m.session.timeout_at then false else ltb_ℤ m.session.timeout_at now

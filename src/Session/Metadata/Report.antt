-- ===== src/Session/Metadata/Report.antt =====
-- The metadata as the session endpoints report it (pkg/session/data.go: Verbose,
-- VerboseWithRefresh, toSeconds). The embedded Go structs are fields `session` and `tokens`.
use wonderwall.Base.{◌≡◌, ◌↔◌, Bool, true, not, arith, if◌then◌else◌}
use wonderwall.Base.Int.{ℤ, pos, negsuc, ◌≤ℤ◌, leb_ℤ}
use wonderwall.Session.Metadata.{
  Time, Duration, MetadataSession, MetadataTokens, Metadata, is_zero, sub, is_timed_out,
  next_refresh, is_refresh_on_cooldown, refresh_cooldown,
}

pub record MetadataSessionVerbose : Type 0 where
  pub session : MetadataSession
  pub ends_in_seconds : ℤ
  pub active : Bool
  pub timeout_in_seconds : ℤ

pub record MetadataTokensVerbose : Type 0 where
  pub tokens : MetadataTokens
  pub expire_in_seconds : ℤ

pub record MetadataVerbose : Type 0 where
  pub session : MetadataSessionVerbose
  pub tokens : MetadataTokensVerbose

pub record MetadataTokensVerboseWithRefresh : Type 0 where
  pub verbose : MetadataTokensVerbose
  pub next_auto_refresh_in_seconds : ℤ
  pub refresh_cooldown : Bool
  pub refresh_cooldown_seconds : ℤ

pub record MetadataVerboseWithRefresh : Type 0 where
  pub session : MetadataSessionVerbose
  pub tokens : MetadataTokensVerboseWithRefresh

-- `whole_seconds d` is `int64(d.Seconds())`: `Seconds` is a floating-point number of package time.
module _ (whole_seconds : Duration → ℤ) where
  unfoldable pub to_seconds : Duration → ℤ
  to_seconds d = let i = whole_seconds d in if leb_ℤ i (pos 0) then pos 0 else i

  -- The readings of `Verbose` and of `IsTimedOut`.
  unfoldable pub verbose : Time → Time → Metadata → MetadataVerbose
  verbose now₁ now₂ m = record {
    session = record {
      session = m.session;
      ends_in_seconds = to_seconds (sub m.session.ends_at now₁);
      active = not (is_timed_out now₂ m);
      timeout_in_seconds =
          if is_zero m.session.timeout_at
          then negsuc 0
          else to_seconds (sub m.session.timeout_at now₁);
    };
    tokens = record {
      tokens = m.tokens;
      expire_in_seconds = to_seconds (sub m.tokens.expire_at now₁);
    };
  }

  -- Its own reading, the two of `Verbose`, and those of `NextRefresh` and `IsRefreshOnCooldown`.
  unfoldable pub verbose_with_refresh :
      Time → Time → Time → Time → Time → Metadata → MetadataVerboseWithRefresh
  unfolding verbose
  verbose_with_refresh now₁ now₂ now₃ now₄ now₅ m =
      let v = verbose now₂ now₃ m in
      record {
        session = v.session;
        tokens = record {
          verbose = v.tokens;
          next_auto_refresh_in_seconds = to_seconds (sub (next_refresh now₄ m) now₁);
          refresh_cooldown = is_refresh_on_cooldown now₅ m;
          refresh_cooldown_seconds = to_seconds (sub (refresh_cooldown m) now₁);
        };
      }

  to_seconds_nonneg : (d : Duration) → pos 0 ≤ℤ to_seconds d
  unfolding to_seconds
  to_seconds_nonneg d = ground arith

  -- No reported number of seconds is negative, but for the timeout, which is -1 exactly when the
  -- session has no timeout.
  pub verbose_with_refresh_signs :
      (now₁ now₂ now₃ now₄ now₅ : Time) (m : Metadata)
      → let v = verbose_with_refresh now₁ now₂ now₃ now₄ now₅ m in
        (pos 0 ≤ℤ v.session.ends_in_seconds)
        × (pos 0 ≤ℤ v.tokens.verbose.expire_in_seconds)
        × (pos 0 ≤ℤ v.tokens.next_auto_refresh_in_seconds)
        × (pos 0 ≤ℤ v.tokens.refresh_cooldown_seconds)
        × ((v.session.timeout_in_seconds ≡ negsuc 0) ↔ (is_zero m.session.timeout_at ≡ true))
  unfolding verbose_with_refresh
  verbose_with_refresh_signs now₁ now₂ now₃ now₄ now₅ m = (
    to_seconds_nonneg _,
    to_seconds_nonneg _,
    to_seconds_nonneg _,
    to_seconds_nonneg _,
    (ground (arith, to_seconds_nonneg (sub m.session.timeout_at now₂)), ground arith),
  )

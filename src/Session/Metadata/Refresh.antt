-- ===== src/Session/Metadata/Refresh.antt =====
-- When the tokens of a session are refreshed (pkg/session/data.go: NextRefresh, RefreshCooldown,
-- ShouldRefresh, Refresh).
use Prim.Native.Nat.{min}
use wonderwall.Base.{lt→ltb, ℕ, ◌*◌, ◌/◌, ◌≤◌, ◌≡◌, refl, ◌↔◌, true, false, arith}
use wonderwall.Base.Int.{
  pos, ◌+ℤ◌, ◌-ℤ◌, ◌≤ℤ◌, ◌<ℤ◌, quot_ℤ, scale, saturate64, max_int64, int_laws, wrap64_of_fits,
  +ℤ_parts, -ℤ_parts,
}
use wonderwall.Session.Metadata.{
  Time, Metadata, second, refresh_leeway, token_lifetime, refresh_cooldown, sub,
  is_refresh_on_cooldown, next_refresh, should_refresh, refresh,
}

-- The lifetime of tokens that expire `n` nanoseconds after they were refreshed.
pub token_lifetime_of :
    (m : Metadata) (n : ℕ)
    → m.tokens.expire_at ≡ m.tokens.refreshed_at +ℤ pos n
    → n ≤ max_int64
    → token_lifetime m ≡ pos n
unfolding token_lifetime sub saturate64
token_lifetime_of m n e h =
    let exact : m.tokens.expire_at -ℤ m.tokens.refreshed_at ≡ pos n = rw e (omega int_laws) in
    rw exact (ground arith)

-- Tokens that live for `n` nanoseconds, up to 292 years, are on cooldown for one minute or for half
-- their lifetime, whichever is shorter.
pub refresh_cooldown-eq_min :
    (m : Metadata) (n : ℕ)
    → m.tokens.expire_at ≡ m.tokens.refreshed_at +ℤ pos n
    → n ≤ max_int64
    → refresh_cooldown m ≡ m.tokens.refreshed_at +ℤ pos (min (n / 2) 60000000000)
unfolding refresh_cooldown scale quot_ℤ
refresh_cooldown-eq_min m n e h = rw (token_lifetime_of m n e h) (ground arith)

-- For readings of a clock that does not run backwards, a refresh is due exactly when the cooldown
-- has passed at the first two readings and the tokens are within five minutes of expiry at the third.
pub should_refresh_iff :
    (m : Metadata) (now₁ now₂ now₃ : Time)
    → now₂ ≤ℤ now₃
    → (should_refresh now₁ now₂ now₃ m ≡ true) ↔ (
        (refresh_cooldown m ≤ℤ now₁)
        × (refresh_cooldown m <ℤ now₂)
        × (m.tokens.expire_at <ℤ now₃ +ℤ refresh_leeway))
unfolding should_refresh next_refresh is_refresh_on_cooldown
should_refresh_iff m now₁ now₂ now₃ h = (
  λ p. ground (arith, -ℤ_parts m.tokens.expire_at refresh_leeway, +ℤ_parts now₃ refresh_leeway),
  λ q. ground (arith, -ℤ_parts m.tokens.expire_at refresh_leeway, +ℤ_parts now₃ refresh_leeway),
)

-- A refresh at `now` that grants `secs` seconds, at most 292 years, leaves the session unchanged;
-- the tokens expire `secs` seconds later.
pub refresh_fields :
    (m : Metadata) (now : Time) (secs : ℕ)
    → secs * second ≤ max_int64
    → ((refresh now (pos secs) m).session ≡ m.session)
      × ((refresh now (pos secs) m).tokens.refreshed_at ≡ now)
      × ((refresh now (pos secs) m).tokens.expire_at ≡ now +ℤ pos (secs * second))
unfolding refresh scale
refresh_fields m now secs h = (refl, refl, rw (wrap64_of_fits (secs * second) h))

-- After a refresh at `now` that grants `secs` seconds no further refresh is due at a reading less
-- than half that lifetime, or than one minute, later, whichever is shorter.
pub refresh-cools_down :
    (m : Metadata) (now now₁ now₂ now₃ : Time) (secs : ℕ)
    → secs * second ≤ max_int64
    → now₁ <ℤ now +ℤ pos (min (secs * second / 2) 60000000000)
    → should_refresh now₁ now₂ now₃ (refresh now (pos secs) m) ≡ false
unfolding should_refresh is_refresh_on_cooldown refresh scale
refresh-cools_down m now now₁ now₂ now₃ secs h k =
    let cool =
      refresh_cooldown-eq_min (refresh now (pos secs) m) (secs * second)
        (rw (wrap64_of_fits (secs * second) h)) h in
    rw cool (rw (lt→ltb _ _ k))

-- ===== src/OpenId/Keys.antt =====
-- pkg/openid/provider/provider.go: the keys of the provider, and how often they may be fetched again. The
-- cache is jwk.Cache of jwx.
pub mod Intervals
use wonderwall.Base.{String, Bool, true, false, Option, none, some, Result, ok, err, if◌then◌else◌}
use wonderwall.Base.Action.{Action, ◌>>◌}
use wonderwall.Base.Int.{pos, ltb_ℤ}
use wonderwall.Session.Metadata.{Time, Duration, zero_time, sub}

-- 5 seconds
abbrev pub jwk_minimum_refresh_interval : Duration
jwk_minimum_refresh_interval = pos 5000000000

pub record JwksCache (W Jwks : Type 0) : Type 0 where
  pub now : W → Time × W
  pub register : String → Action W (Unit {0})
  pub cached : String → Action W Jwks
  pub fetch : String → Action W Jwks

-- The instant of the last refresh, which the lock guards, and the rest of the world.
pub record JwksProvider (W : Type 0) : Type 0 where
  pub last_refresh : Time
  pub world : W

module _ {W Jwks : Type 0} (cache : JwksCache W Jwks) (uri : String) where
  abbrev with_cache : Action W Jwks → Action (JwksProvider W) Jwks
  with_cache m p = let (r, v) = m p.world in (r, record p { world = v })

  unfoldable pub get_public_jwk_set : Action (JwksProvider W) Jwks
  get_public_jwk_set = with_cache (cache.cached uri)

  -- The test reads the clock; if the interval has passed, the clock is read again.
  abbrev pub recently_refreshed : JwksProvider W → Bool
  recently_refreshed p =
      ltb_ℤ (sub (cache.now p.world).0 p.last_refresh) jwk_minimum_refresh_interval

  abbrev pub fetch_again : Action (JwksProvider W) Jwks
  fetch_again p =
      let (t, v) = cache.now p.world in
      with_cache (cache.fetch uri) (record { last_refresh = t; world = v })

  unfoldable pub refresh_public_jwk_set : Action (JwksProvider W) Jwks
  unfolding get_public_jwk_set
  refresh_public_jwk_set p =
      let read : JwksProvider W = record p { world = (cache.now p.world).1 } in
      let cached = get_public_jwk_set read in
      let fetched = fetch_again read in if recently_refreshed p then cached else fetched

  -- The first fetch leaves the instant of the last refresh at its zero value.
  unfoldable pub new_jwks_provider : Action W (JwksProvider W)
  new_jwks_provider w =
      let (r, v) = (cache.register uri >> cache.fetch uri) w in
      (elim r [ ok _ ↦ ok (record { last_refresh = zero_time; world = v }) | err e ↦ err e ], v)

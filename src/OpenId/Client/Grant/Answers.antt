-- ===== src/OpenId/Client/Grant/Answers.antt =====
-- How the answers of the provider to a refresh grant are taken (pkg/openid/client/client.go), and how
-- the session handler takes the errors (pkg/session/handler.go); the times of a client assertion.
use wonderwall.Base.{ℕ, ◌*◌, ◌/◌, ◌≤◌, ◌≡◌, refl, String, arith}
use wonderwall.Base.Int.{pos, negsuc, ◌+ℤ◌, ◌-ℤ◌, ◌≤ℤ◌}
use wonderwall.OpenId.Config.{OpenId, ProviderMetadata}
use wonderwall.OpenId.Client.Grant.{truncate, assertion_claims}
use wonderwall.Session.Metadata.{Time, Duration}

down : (n : ℕ) → n / 1000000000 * 1000000000 ≤ n
down n = omega arith

truncate_down : (t : Time) → truncate t ≤ℤ t
unfolding truncate
truncate_down (pos n) = omega (arith, down n)
truncate_down (negsuc n) = omega arith

-- A client assertion is dated at least five seconds before the call, and it expires its lifetime after
-- that date.
pub assertion_claims_times :
    (client : OpenId) (provider : ProviderMetadata) (now : Time) (lifetime : Duration)
    (jwt_id : String)
    → let claims = assertion_claims client provider now lifetime jwt_id in
      (claims.issued_at ≤ℤ now -ℤ pos 5000000000)
      × (claims.expiration ≡ claims.issued_at +ℤ lifetime)
unfolding assertion_claims
assertion_claims_times client provider now lifetime jwt_id =
    (truncate_down (now -ℤ pos 5000000000), refl)

-- ===== src/OpenId/Client/Grant.antt =====
-- pkg/openid/client/client.go: the client assertion and the refresh grant. The clock, UUIDs, the
-- signature (with setting the claims of a token of jwx) and sending a request are parameters.
pub mod Answers
use wonderwall.Base.{
  ℕ, suc, ◌+◌, ◌-◌, ◌*◌, ◌/◌, ◌%◌, String, ◌&&◌, [], ◌∷◌, Result, ok, err, other, openid_client,
  openid_server, leb, ltb, if◌then◌else◌, replace_error,
}
use wonderwall.Base.Action.{Action, lift, always, ◌>>=◌}
use wonderwall.Base.Int.{ℤ, pos, negsuc, ◌+ℤ◌, ◌-ℤ◌}
use wonderwall.Http.{Pairs}
use wonderwall.OpenId.Token.{TokenResponse}
use wonderwall.OpenId.Config.{OpenId, ProviderMetadata}
use wonderwall.Session.Metadata.{Time, Duration, second}

-- 30 seconds
abbrev pub default_client_assertion_lifetime : Duration
default_client_assertion_lifetime = pos 30000000000

abbrev pub assertion_type : String
assertion_type = "urn:ietf:params:oauth:client-assertion-type:jwt-bearer"

-- `t.Truncate(time.Second)`: down to a multiple of a second since Go's zero time.
unfoldable pub truncate : Time → Time
truncate (pos n) = pos (n / second * second)
truncate (negsuc n) = negsuc ((n / second + 1) * second - 1)

pub record AssertionClaims : Type 0 where
  pub issuer : String
  pub subject : String
  pub audience : String
  pub issued_at : Time
  pub expiration : Time
  pub jwt_id : String

-- An answer of the provider, its body read.
pub record Response : Type 0 where
  pub status : ℕ
  pub body : String

pub record Net (W : Type 0) : Type 0 where
  pub now : W → Time × W
  pub uuid : W → String × W
  pub sign : AssertionClaims → Result String
  pub post_form : String → Pairs → Action W Response
  pub unmarshal_tokens : String → Result TokenResponse

unfoldable pub assertion_claims :
    OpenId → ProviderMetadata → Time → Duration → String → AssertionClaims
unfolding truncate
assertion_claims client provider now expiration jwt_id =
    let iat = truncate (now -ℤ pos 5000000000) in
    record {
      issuer = client.client_id;
      subject = client.client_id;
      audience = provider.issuer;
      issued_at = iat;
      expiration = iat +ℤ expiration;
      jwt_id = jwt_id;
    }

-- The sentinel of the answer's error, or the tokens.
unfoldable pub read_response : (String → Result TokenResponse) → Response → Result TokenResponse
read_response unmarshal resp =
    if leb 400 resp.status && ltb resp.status 500
    then err openid_client
    else if leb 500 resp.status
    then err openid_server
    else replace_error other (unmarshal resp.body)

module _ {W : Type 0} (net : Net W) (client : OpenId) (provider : ProviderMetadata) where
  unfoldable pub make_assertion : Duration → Action W String
  unfolding assertion_claims
  make_assertion expiration = do
    t ← always net.now
    jwt_id ← always net.uuid
    lift (net.sign (assertion_claims client provider t expiration jwt_id))

  unfoldable pub refresh_grant : String → Action W TokenResponse
  unfolding make_assertion read_response
  refresh_grant refresh_token = do
    assertion ← make_assertion default_client_assertion_lifetime
    resp ← net.post_form provider.token_endpoint (
        ("grant_type", "refresh_token")
        ∷ ("refresh_token", refresh_token)
        ∷ ("client_id", client.client_id)
        ∷ ("client_assertion", assertion)
        ∷ ("client_assertion_type", assertion_type)
        ∷ [])
    lift (read_response net.unmarshal_tokens resp)

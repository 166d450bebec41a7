-- ===== src/OpenId/Config.antt =====
-- pkg/config/openid.go (OpenID), pkg/openid/config (client.go, provider.go) and pkg/openid/scopes.
-- Fetching and decoding the well-known document, parsing keys and URLs are parameters; printing the
-- configuration is left out.
pub mod Accepted
use Prim.Native.String.{◌++◌ as append}
use wonderwall.Base.{
  String, ◌==◌, Bool, not, ◌&&◌, List, [], ◌∷◌, ◌++◌, Result, ok, err, other, contains,
  if◌then◌else◌, ◌>>=◌, ◌≡◌, ◌⊎◌, inl, inr, Result-cases, Bool-cases, arith, eq_iff, true, false,
  refl,
}
use wonderwall.Base.Action.{Action, lift, ◌>>=◌ as bind, ◌>>◌ as andThen}
use wonderwall.Http.{Url}

pub record OpenId : Type 0 where
  pub provider : String
  pub client_id : String
  pub client_jwk : String
  pub post_logout_redirect_uri : String
  pub scopes : List String
  pub well_known_url : String
  pub acr_values : String
  pub ui_locales : String

abbrev pub Scopes : Type 0
Scopes = List String

abbrev pub default_scopes : Scopes
default_scopes = "openid" ∷ []

abbrev pub with_additional : Scopes → List String → Scopes
with_additional s scopes = s ++ scopes

abbrev pub with_azure_scope : Scopes → String → Scopes
with_azure_scope s client_id = s ++ append "api://" (append client_id "/.default") ∷ []

abbrev pub with_offline_access : Scopes → Scopes
with_offline_access s = s ++ "offline_access" ∷ []

-- Which of the types `client`, `azure` and `idporten` implements the interface.
pub data Flavour : Type 0 where
  plain azure idporten : Flavour

pub record Client (Jwk : Type 0) : Type 0 where
  pub open_id : OpenId
  pub client_jwk : Jwk
  pub flavour : Flavour

-- The methods `Scopes` of `client` and of `azure`.
abbrev scopes_of : Flavour → OpenId → Scopes
scopes_of azure cfg =
    with_additional (with_offline_access (with_azure_scope default_scopes cfg.client_id)) cfg.scopes
scopes_of plain cfg = with_additional default_scopes cfg.scopes
scopes_of idporten cfg = with_additional default_scopes cfg.scopes

unfoldable pub scopes : {Jwk : Type 0} → Client Jwk → Scopes
scopes c = scopes_of c.flavour c.open_id

flavour_of : String → Result Flavour
flavour_of provider =
    if provider == "idporten"
    then ok idporten
    else if provider == "azure"
    then ok azure
    else if provider == ""
    then err other
    else ok plain

-- The checks at the end of `NewClientConfig`.
complete : {Jwk : Type 0} → Client Jwk → Result (Client Jwk)
complete c =
    if c.open_id.client_id == ""
    then err other
    else if c.open_id.well_known_url == ""
    then err other
    else ok c

unfoldable pub new_client_config :
    {Jwk : Type 0} → (String → Result Jwk) → OpenId → Result (Client Jwk)
unfolding flavour_of complete
new_client_config parse_key cfg = if cfg.client_jwk == "" then err other else do
  key ← parse_key cfg.client_jwk
  flavour ← flavour_of cfg.provider
  complete (record { open_id = cfg; client_jwk = key; flavour = flavour })

pub record ProviderMetadata : Type 0 where
  pub issuer : String
  pub authorization_endpoint : String
  pub pushed_authorization_request_endpoint : String
  pub token_endpoint : String
  pub end_session_endpoint : String
  pub revocation_endpoint : String
  pub jwks_uri : String
  pub response_types_supported : List String
  pub response_modes_supported : List String
  pub subject_types_supported : List String
  pub id_token_signing_alg_values_supported : List String
  pub code_challenge_methods_supported : List String
  pub user_info_endpoint : String
  pub scopes_supported : List String
  pub ui_locales_supported : List String
  pub acr_values_supported : List String
  pub frontchannel_logout_supported : Bool
  pub frontchannel_logout_session_supported : Bool
  pub introspection_endpoint : String
  pub token_endpoint_auth_methods_supported : List String
  pub request_parameter_supported : Bool
  pub request_uri_parameter_supported : Bool
  pub request_object_signing_alg_values_supported : List String
  pub check_session_iframe : String

pub record Provider : Type 0 where
  pub end_session_endpoint_url : Url
  pub metadata : ProviderMetadata
  pub name : String

abbrev pub session_state_required : Provider → Bool
session_state_required p = not (p.metadata.check_session_iframe == "")

abbrev pub sid_claim_required : Provider → Bool
sid_claim_required p =
    p.metadata.frontchannel_logout_supported && p.metadata.frontchannel_logout_session_supported

-- A configured value that the provider does not list is refused.
refuse_unsupported : String → List String → Result (Unit {0})
refuse_unsupported value supported =
    if not (value == "") && not (contains supported value) then err other else ok tt

module _ (parse_url : String → Result Url) where
  checked_provider : OpenId → ProviderMetadata → Result Provider
  unfolding refuse_unsupported
  checked_provider cfg metadata = do
    _ ← refuse_unsupported cfg.acr_values metadata.acr_values_supported
    _ ← refuse_unsupported cfg.ui_locales metadata.ui_locales_supported
    url ← parse_url metadata.end_session_endpoint
    ok (record { end_session_endpoint_url = url; metadata = metadata; name = cfg.provider })

  unfoldable pub new_provider_config :
      {W : Type 0} → (String → Action W ProviderMetadata) → OpenId → Action W Provider
  unfolding checked_provider
  new_provider_config fetch cfg =
      bind (fetch cfg.well_known_url) λ metadata. lift (checked_provider cfg metadata)

-- ===== src/OpenId/Token.antt =====
-- pkg/jwt/jwt.go, pkg/openid/tokens.go and response.go. A parsed token is its claims; parsing and
-- validating are the library's (github.com/lestrrat-go/jwx).
use wonderwall.Base.{
  ◌>>=◌, String, ◌==◌, Bool, Option, none, some, List, [], ◌∷◌, ◌++◌, Result, ok, err, other,
  if◌then◌else◌,
}
use wonderwall.Base.Int.{ℤ, pos}
use wonderwall.Session.Metadata.{Time, Duration}

-- A claim's value, which may be of another type than a text.
pub data Claim : Type 0 where
  text : String → Claim
  not_text : Claim

abbrev pub Claims : Type 0
Claims = List (String × Claim)

-- `token` is nil in Go where it is `none` here.
pub record IdToken : Type 0 where
  pub serialized : String
  pub token : Option Claims

pub record Tokens : Type 0 where
  pub access_token : String
  pub expiry : Time
  pub id_token : IdToken
  pub refresh_token : String
  pub token_type : String

pub record TokenResponse : Type 0 where
  pub access_token : String
  pub expires_in : ℤ
  pub refresh_token : String
  pub token_type : String

find_claim : Claims → String → Option Claim
find_claim [] claim = none
find_claim ((k, v) ∷ rest) claim = if k == claim then some v else find_claim rest claim

text_of : Option Claim → Result String
text_of none = err other
text_of (some not_text) = err other
text_of (some (text s)) = ok s

unfoldable pub get_string_claim : IdToken → String → Result String
unfolding find_claim text_of
get_string_claim t claim = elim t.token [
  | none ↦ err other
  | some claims ↦ text_of (find_claim claims claim)
]

unfoldable pub get_string_claim_or_empty : IdToken → String → String
unfolding get_string_claim
get_string_claim_or_empty t claim = elim (get_string_claim t claim) [ ok s ↦ s | err _ ↦ "" ]

-- The standard claim `jti`, or else `uti`, the one of Azure AD.
unfoldable pub get_jwt_id : IdToken → String
unfolding get_string_claim_or_empty
get_jwt_id t =
    let jti = get_string_claim_or_empty t "jti" in
    let uti = get_string_claim_or_empty t "uti" in if jti == "" then uti else jti

abbrev pub get_sid_claim : IdToken → Result String
get_sid_claim t = get_string_claim t "sid"

-- The options that `IDToken.Validate` hands to the library.
pub data ValidateOption : Type 0 where
  with_audience : String → ValidateOption
  with_claim_value : String → String → ValidateOption
  with_issuer : String → ValidateOption
  with_acceptable_skew : Duration → ValidateOption
  with_required_claim : String → ValidateOption

abbrev pub acceptable_clock_skew : Duration
acceptable_clock_skew = pos 5000000000

-- What `Validate` reads of the configuration of the client and the provider.
pub record Expected : Type 0 where
  pub client_id : String
  pub acr_values : String
  pub issuer : String
  pub sid_claim_required : Bool

unfoldable pub validate_options : Expected → String → List ValidateOption
validate_options cfg nonce =
    let opts =
      with_audience cfg.client_id
      ∷ with_claim_value "nonce" nonce
      ∷ with_issuer cfg.issuer
      ∷ with_acceptable_skew acceptable_clock_skew
      ∷ [] in
    let opts = if cfg.sid_claim_required then opts ++ with_required_claim "sid" ∷ [] else opts in
    if cfg.acr_values == "" then opts else opts ++ with_required_claim "acr" ∷ []

-- `jwtlib.Validate` is a parameter.
unfoldable pub validate :
    (List ValidateOption → Option Claims → Result (Unit {0}))
    → Expected
    → String
    → IdToken
    → Result (Unit {0})
unfolding validate_options
validate check cfg nonce t = check (validate_options cfg nonce) t.token

-- `oauth2.Token`; `id_token` is the extra field of that name, where it is a text.
pub record OauthToken : Type 0 where
  pub access_token : String
  pub expiry : Time
  pub id_token : Option String
  pub refresh_token : String
  pub token_type : String

-- `parse` is `jwt.Parse`, which checks the signature.
module _ {Jwks : Type 0} (parse : String → Jwks → Result Claims) where
  parse_id_token : String → Jwks → Result IdToken
  parse_id_token raw jwks = do
    claims ← parse raw jwks
    ok (record { serialized = raw; token = some claims })

  parse_id_token_from : OauthToken → Jwks → Result IdToken
  unfolding parse_id_token
  parse_id_token_from tokens jwks = elim tokens.id_token [
    | none ↦ err other
    | some raw ↦ parse_id_token raw jwks
  ]

  unfoldable pub new_tokens : OauthToken → Jwks → Result Tokens
  unfolding parse_id_token_from
  new_tokens src jwks = do
    id_token ← parse_id_token_from src jwks
    ok (record {
      access_token = src.access_token;
      expiry = src.expiry;
      id_token = id_token;
      refresh_token = src.refresh_token;
      token_type = src.token_type;
    })

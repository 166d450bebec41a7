-- ===== src/Loginstatus/Attributes.antt =====
-- The cookie of the login status (pkg/loginstatus/loginstatus.go).
use wonderwall.Base.{String, ◌≡◌, refl, ◌<◌, ok, arith, Result-cases, inl, inr, ◌∷◌, []}
use wonderwall.Base.Int.{ℤ}
use wonderwall.Http.{HttpCookie}
use wonderwall.Cookie.{Options, make, clear}
use wonderwall.Session.Metadata.{Time, Duration}
use wonderwall.Loginstatus.{
  LoginstatusConfig, Client, ClientRequest, ClientResponse, TokenResponse, request, exchange_token,
  handle_response, set_cookie, clear_cookie,
}

-- A cookie of the same name, domain and path, which is what a browser tells cookies apart by.
pub record SameCookie (a b : HttpCookie) : Type 0 where
  pub name : a.name ≡ b.name
  pub domain : a.domain ≡ b.domain
  pub path : a.path ≡ b.path

-- The first cookie that `ClearCookie` sets is that of `SetCookie`: for any two options, such as those
-- of a login and of a logout, they have the same name, domain and path.
pub clear_cookie-SameCookie :
    (c : LoginstatusConfig) (whole_seconds : Duration → ℤ) (now : Time) (token : TokenResponse)
    (opts opts' : Options)
    → (cleared : HttpCookie) × (old : HttpCookie) × (clear_cookie c opts' ≡ cleared ∷ old ∷ [])
      × SameCookie cleared (set_cookie c whole_seconds now token opts)
unfolding set_cookie clear_cookie make clear
clear_cookie-SameCookie c whole_seconds now token opts opts' =
    (_, _, refl, record { name = refl; domain = refl; path = refl })

module _ {W : Type 0} (client : Client W) where
  handle_response_accepted :
      (resp : ClientResponse) (token : TokenResponse)
      → handle_response client resp ≡ ok token
      → (body : String) × (resp.body ≡ ok body)
        × (resp.status_code < 400)
        × (client.unmarshal_token body ≡ ok token)
  unfolding handle_response
  handle_response_accepted resp token h = elim (Result-cases resp.body) [
    | inr (x, e) ↦ absurd (ground arith)
    | inl (body, e) ↦ (body, e, ground arith, ground arith)
  ]

  -- A token of the other service is accepted only if the request was sent to the configured address with
  -- the access token, and the answer has a status below 400 and a body that is read as the token.
  pub exchange_token_accepted :
      (c : LoginstatusConfig) (access_token : String) (w : W) (token : TokenResponse)
      → (exchange_token client c access_token w).0 ≡ ok token
      → (req : ClientRequest) × (resp : ClientResponse) × (body : String) × (request client
            c.token_url access_token
          ≡ ok req)
        × ((client.send req w).0 ≡ ok resp)
        × (resp.status_code < 400)
        × (resp.body ≡ ok body)
        × (client.unmarshal_token body ≡ ok token)
  unfolding exchange_token
  exchange_token_accepted c access_token w token h =
      elim (Result-cases (request client c.token_url access_token)) [
        | inr (x, e) ↦ absurd (ground arith)
        | inl (req, e) ↦ elim (Result-cases (client.send req w).0) [
          | inr (x, s) ↦ absurd (ground arith)
          | inl (resp, s) ↦
              let (body, read, low, parsed) = handle_response_accepted resp token (ground arith) in
              (req, resp, body, e, s, low, read, parsed)
        ]
      ]

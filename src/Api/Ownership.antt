-- ===== src/Api/Ownership.antt =====
-- Which entries of the store the handlers of the routes change (pkg/handler/api): those of the session
-- that the request is about, and each entry remains data of the session of its key.
pub mod Logins
pub mod Sessions
use wonderwall.Base.{ℕ, String, ◌≡◌, refl, ◌∷◌, [], Error, Result, ok, err}
use wonderwall.Base.Action.{Action, always, ◌>>=◌}
use wonderwall.Base.Ensures.{Anything, Preserves, preserves, bind-Ensures, then_pure}
use wonderwall.Base.Int.{ℤ}
use wonderwall.Http.{Bytes, Pairs, Request, HttpCookie}
use wonderwall.Cookie
use wonderwall.Cookie.{Options, encrypt_and_set, make}
use wonderwall.Loginstatus.{ClientRequest}
use wonderwall.Session.Metadata.{Duration}
use wonderwall.Session.Store.{Entries}
use wonderwall.Session.Handler.Ownership.{
  Surroundings, Owned, apart-Preserves, now-Owned, seal-Owned,
}
use wonderwall.Api.Answers.{Reply, then_set}
use wonderwall.Api.Answers.Preservation.{Safely}
use wonderwall.Api.{StandardHandler, respond}

-- The libraries that only the handlers call do not change the store.
pub record IsOutside {W Held Jwks : Type 0} (src : StandardHandler W Held Jwks)
    (entries : W → Entries) : Type 0 where
  pub random : (n : ℕ) (j : String) (w : W) → entries (src.client.random n w).1 j ≡ entries w j
  pub send :
      (r : ClientRequest) (j : String) (w : W)
      → entries (src.loginstatus_client.send r w).1 j ≡ entries w j
  pub make_assertion :
      (j : String) (w : W) → entries (src.redeemer.make_assertion w).1 j ≡ entries w j
  pub auth_code_grant :
      (code : String) (options : Pairs) (j : String) (w : W)
      → entries (src.redeemer.auth_code_grant code options w).1 j ≡ entries w j
  pub get_public_jwk_set :
      (j : String) (w : W) → entries (src.redeemer.get_public_jwk_set w).1 j ≡ entries w j
  pub refresh_public_jwk_set :
      (j : String) (w : W) → entries (src.redeemer.refresh_public_jwk_set w).1 j ≡ entries w j

module _ {W Held Jwks : Type 0} (src : StandardHandler W Held Jwks) (entries : W → Entries)
    (Mine : String → Type 0) (old : Entries)
    (rely : Surroundings src.env src.retrier src.session_provider entries Mine old) where
  -- The entries are well keyed, and all but mine as they were.
  abbrev pub InOrder : W → Type 0
  InOrder = Owned src.env src.retrier src.session_config src.session_provider entries Mine old rely

  pub outside :
      {A : Type 0} (m : Action W A)
      → ((j : String) (w : W) → entries (m w).1 j ≡ entries w j)
      → Preserves InOrder m
  outside m =
      apart-Preserves src.env src.retrier src.session_config src.session_provider entries Mine old
        rely m

  pub now-InOrder : Preserves InOrder (always src.env.now)
  now-InOrder =
      now-Owned src.env src.retrier src.session_config src.session_provider entries Mine old rely

  -- Encrypting a cookie reads the clock and asks for random bytes.
  pub set_cookie-InOrder :
      (name value : String) (opts : Options)
      → Preserves InOrder (
          encrypt_and_set src.env.encoding src.env.crypter src.whole_seconds src.env.now name value
            opts)
  unfolding encrypt_and_set make
  set_cookie-InOrder name value opts =
      preserves InOrder
        (encrypt_and_set src.env.encoding src.env.crypter src.whole_seconds src.env.now name value
          opts)
        λ w p.
          let c = make src.whole_seconds (src.env.now w).0 name value opts in
          let sealed =
            then_pure InOrder (src.env.crypter.encrypt (src.env.encoding.to_bytes value))
              (λ b. record c { value = src.env.encoding.base64 b })
              (seal-Owned src.env src.retrier src.session_config src.session_provider entries Mine
                old rely (src.env.encoding.to_bytes value)) in
          (sealed.at (src.env.now w).1 (now-InOrder.at w p).0).0

  -- An answer of the error handler.
  pub respond-InOrder : (status : ℕ) (r : Request) → Safely InOrder (respond src status r)
  unfolding respond then_set
  respond-InOrder status r x p = (now-InOrder.at x.world p).0

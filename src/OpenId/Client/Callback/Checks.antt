-- ===== src/OpenId/Client/Callback/Checks.antt =====
-- What has been checked when a login callback goes on (pkg/openid/client/login_callback.go).
use wonderwall.Base.{
  ◌∙◌, String, ◌==◌, ◌≡◌, ◌≢◌, ◌↔◌, Result, ok, err, arith, Bool-cases, inl, inr, false,
  Result-cases, eq_iff, eq_refl, sym, ap,
}
use wonderwall.Http.{get}
use wonderwall.OpenId.Token.{Tokens, OauthToken, validate, new_tokens}
use wonderwall.OpenId.Client.Callback.{
  LoginCallback, state_mismatch_error, Redeemer, accept_tokens, redeem_tokens, grant_options,
}

tested_nonempty : (s : String) → (s == "") ≡ false → s ≢ ""
tested_nonempty s h e = ground (arith, eq_refl "", ap (λ t. t == "") e)

tested_different : (s t : String) → (s == t) ≡ false → s ≢ t
tested_different s t h e = ground (arith, eq_refl t, ap (λ u. u == t) e)

-- The check of the state passes exactly if the parameter is that of the login cookie and not empty.
pub state_mismatch_error_iff :
    (cb : LoginCallback)
    → (state_mismatch_error cb ≡ ok tt)
      ↔ ((get cb.request_params "state" ≡ cb.cookie.state) × (cb.cookie.state ≢ ""))
unfolding state_mismatch_error
state_mismatch_error_iff cb =
    let actual = get cb.request_params "state" in
    elim (Bool-cases (actual == "")) [
      | inl t ↦ (λ h. absurd (ground arith), λ q. absurd (q.1 (sym q.0 ∙ (eq_iff actual "").0 t)))
      | inr f ↦ elim (Bool-cases (cb.cookie.state == actual)) [
        | inl t ↦
            let same = (eq_iff cb.cookie.state actual).0 t in
            (λ h. (sym same, λ e. tested_nonempty actual f (sym same ∙ e)), λ q. ground arith)
        | inr g ↦ (λ h. absurd (ground arith), λ q. absurd (tested_different _ _ g (sym q.0)))
      ]
    ]

-- The tokens come from the answer of the provider to the grant, read with the keys of the provider.
pub record IsRedeemed {W Jwks : Type 0} (env : Redeemer W Jwks) (cb : LoginCallback) (w : W)
    (tokens : Tokens) : Type 0 where
  pub assertion : String
  pub raw : OauthToken
  pub jwks : Jwks
  pub asserted : (env.make_assertion w).0 ≡ ok assertion
  pub granted :
      (env.auth_code_grant
        (get cb.request_params "code")
        (grant_options cb assertion)
        (env.make_assertion w).1).0
      ≡ ok raw
  pub keys :
      (env.get_public_jwk_set
        (env.auth_code_grant
          (get cb.request_params "code")
          (grant_options cb assertion)
          (env.make_assertion w).1).1).0
      ≡ ok jwks
  pub parsed : new_tokens env.parse raw jwks ≡ ok tokens
  pub valid : validate env.check env.expected cb.cookie.nonce tokens.id_token ≡ ok tt

module _ {W Jwks : Type 0} (env : Redeemer W Jwks) where
  accept_tokens_valid :
      (nonce : String) (r : Result Tokens) (w : W) (tokens : Tokens)
      → (accept_tokens env nonce r w).0 ≡ ok tokens
      → (r ≡ ok tokens) × (validate env.check env.expected nonce tokens.id_token ≡ ok tt)
  unfolding accept_tokens
  accept_tokens_valid nonce (err e) w tokens h = absurd (ground arith)
  accept_tokens_valid nonce (ok t) w tokens h =
      elim (Result-cases (validate env.check env.expected nonce t.id_token)) [
        | inr (x, e) ↦ absurd (ground arith)
        | inl (tt, e) ↦ let same : t ≡ tokens = ground arith in (ap ok same, rw (sym same) e)
      ]

  pub redeem_tokens_valid :
      (cb : LoginCallback) (w : W) (tokens : Tokens)
      → (redeem_tokens env cb w).0 ≡ ok tokens
      → IsRedeemed env cb w tokens
  unfolding redeem_tokens
  redeem_tokens_valid cb w tokens h =
      let a = env.make_assertion w in
      elim (Result-cases a.0) [
        | inr (x, e) ↦ absurd (ground arith)
        | inl (s, e) ↦
            let g = env.auth_code_grant (get cb.request_params "code") (grant_options cb s) a.1 in
            elim (Result-cases g.0) [
              | inr (x, k) ↦ absurd (ground arith)
              | inl (raw, k) ↦
                  let j = env.get_public_jwk_set g.1 in
                  elim (Result-cases j.0) [
                    | inr (x, l) ↦ absurd (ground arith)
                    | inl (jwks, l) ↦
                        let accepted : (accept_tokens env cb.cookie.nonce
                              (new_tokens env.parse raw jwks) j.1).0
                            ≡ ok tokens =
                          ground arith in
                        let (parsed, valid) =
                          accept_tokens_valid cb.cookie.nonce _ j.1 tokens accepted in
                        record {
                          assertion = s;
                          raw = raw;
                          jwks = jwks;
                          asserted = e;
                          granted = k;
                          keys = l;
                          parsed = parsed;
                          valid = valid;
                        }
                  ]
            ]
      ]

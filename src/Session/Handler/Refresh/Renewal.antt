-- ===== src/Session/Handler/Refresh/Renewal.antt =====
-- What a successful refresh does to the session (pkg/session/handler.go: Refresh, under the lock).
use wonderwall.Base.{
  String, ◌≡◌, ◌≢◌, ◌⊎◌, refl, Bool-cases, true, false, some, ok, err, Error, openid_client,
  invalid_state, arith, Result-cases, inl, inr,
}
use wonderwall.Base.Retry.{Retrier}
use wonderwall.Http.{IsEncoding}
use wonderwall.Cookie.RoundTrip.{IsCrypter}
use wonderwall.OpenId.Token.{TokenResponse}
use wonderwall.Session.Metadata
use wonderwall.Session.Metadata.{Time, Metadata, extend_timeout}
use wonderwall.Session.Data
use wonderwall.Session.Data.{Data, EncryptedData}
use wonderwall.Session.Data.RoundTrip
use wonderwall.Session.Data.RoundTrip.{IsJson}
use wonderwall.Session.Store.{Entries, IsStore}
use wonderwall.Session.Id.{Provider}
use wonderwall.Session.Handler.{
  SessionConfig, Env, attempt, retry_server_errors, get_for_key, can_refresh, is_timed_out_now,
  update,
}
use wonderwall.Session.Handler.Storage.{update_stored}
use wonderwall.Session.Handler.Refresh.{grant, renewed, perform, refresh_locked}

-- `new` is `old` with the tokens of a response: it is the same login, with the same absolute end.
pub record IsRenewal (old new : Data) (resp : TokenResponse) : Type 0 where
  pub access : new.access_token ≡ resp.access_token
  pub next : new.refresh_token ≡ resp.refresh_token
  pub id : new.external_session_id ≡ old.external_session_id
  pub id_token : new.id_token ≡ old.id_token
  pub jwt_id : new.id_token_jwt_id ≡ old.id_token_jwt_id
  pub created : new.metadata.session.created_at ≡ old.metadata.session.created_at
  pub ends : new.metadata.session.ends_at ≡ old.metadata.session.ends_at

abbrev with_tokens : Data → TokenResponse → Metadata → Data
with_tokens old resp m = record old {
  access_token = resp.access_token;
  refresh_token = resp.refresh_token;
  metadata = m;
}

same_login :
    (old : Data) (resp : TokenResponse) (m : Metadata)
    → m.session.created_at ≡ old.metadata.session.created_at
    → m.session.ends_at ≡ old.metadata.session.ends_at
    → IsRenewal old (with_tokens old resp m) resp
same_login old resp m c e = record {
  access = refl;
  next = refl;
  id = refl;
  id_token = refl;
  jwt_id = refl;
  created = c;
  ends = e;
}

module _ {W Held : Type 0} (env : Env W Held) (retrier : Retrier W) (cfg : SessionConfig)
    (provider : Provider) where
  renewed-IsRenewal :
      (old : Data) (resp : TokenResponse) (w : W)
      → (new : Data) × ((renewed env retrier cfg provider old resp w).0 ≡ ok new)
        × IsRenewal old new resp
        × (new.metadata.tokens
            ≡ (Metadata.refresh (env.now w).0 resp.expires_in old.metadata).tokens)
  unfolding renewed Metadata.refresh extend_timeout
  renewed-IsRenewal old resp w =
      let (t, w') = env.now w in
      let m = Metadata.refresh t resp.expires_in old.metadata in
      elim (Bool-cases cfg.inactivity) [
        | inl on ↦
            let later = extend_timeout (env.now w').0 cfg.inactivity_timeout m in
            (with_tokens old resp later, ground arith, same_login old resp later refl refl, refl)
        | inr off ↦ (with_tokens old resp m, ground arith, same_login old resp m refl refl, refl)
      ]

module _ {W Held : Type 0} (env : Env W Held) (retrier : Retrier W) (cfg : SessionConfig)
    (provider : Provider) (entries : W → Entries) (laws : IsStore env.store entries)
    (encoding : IsEncoding env.encoding) (json : IsJson env.json)
    (crypter : IsCrypter env.crypter) where
  perform_stored :
      (k : String) (old new : Data) (w : W)
      → (perform env retrier cfg provider k old w).0 ≡ ok new
      → (resp : TokenResponse) × (e : EncryptedData) × ((grant env retrier cfg provider
            old.refresh_token w).0
          ≡ ok resp)
        × IsRenewal old new resp
        × (Data.decrypt env.encoding env.json env.crypter e ≡ ok new)
        × (entries (perform env retrier cfg provider k old w).1 k ≡ some e)
  unfolding perform
  perform_stored k old new w h =
      let g = grant env retrier cfg provider old.refresh_token w in
      elim (Result-cases g.0) [
        | inr (x, hx) ↦ ground arith
        | inl (resp, hr) ↦
            let (d, hd, is_renewal, _) = renewed-IsRenewal env retrier cfg provider old resp g.1 in
            let w₁ = (renewed env retrier cfg provider old resp g.1).1 in
            let u = update env retrier cfg provider k d w₁ in
            elim (Result-cases u.0) [
              | inr (x, hx) ↦ ground arith
              | inl (tt, hu) ↦
                  let same : new ≡ d = ground arith in
                  let (e, sealed, there) =
                    update_stored env retrier cfg provider entries laws k d w₁ hu in
                  let opened =
                    RoundTrip.decrypt-encrypt env.encoding encoding env.json json env.crypter
                      crypter d w₁ e sealed in
                  let final : entries (perform env retrier cfg provider k old w).1 k ≡ some e =
                    ground arith in
                  (resp, e, hr, rw same is_renewal, rw same opened, final)
            ]
      ]

  -- What a refresh returns under the lock is the stored session as it is, if it cannot be refreshed
  -- now; or else the session has not timed out, and its renewal by the response of the provider to a
  -- grant of the stored refresh token is returned and stored.
  pub refresh_locked_stored :
      (k : String) (w : W) (d : Data)
      → (refresh_locked env retrier cfg provider k w).0 ≡ ok d
      → let got = get_for_key env retrier cfg provider k w in
        (old : Data) × (got.0 ≡ ok old)
        × (let can = can_refresh env retrier cfg provider old got.1 in
            ((can.0 ≡ ok false) × (d ≡ old))
            ⊎ ((can.0 ≡ ok true)
                × ((is_timed_out_now env retrier cfg provider old can.1).0 ≡ ok false)
                × ((resp : TokenResponse) × (e : EncryptedData) × ((grant env retrier cfg provider
                        old.refresh_token
                        (is_timed_out_now env retrier cfg provider old can.1).1).0
                      ≡ ok resp)
                    × IsRenewal old d resp
                    × (Data.decrypt env.encoding env.json env.crypter e ≡ ok d)
                    × (entries (refresh_locked env retrier cfg provider k w).1 k ≡ some e))))
  unfolding refresh_locked
  refresh_locked_stored k w d h =
      let got = get_for_key env retrier cfg provider k w in
      elim (Result-cases got.0) [
        | inr (x, hx) ↦ ground arith
        | inl (old, hg) ↦
            let can = can_refresh env retrier cfg provider old got.1 in
            elim (Result-cases can.0) [
              | inr (x, hx) ↦ ground arith
              | inl (false, hc) ↦ (old, hg, inl (hc, ground arith))
              | inl (true, hc) ↦
                  let out = is_timed_out_now env retrier cfg provider old can.1 in
                  elim (Result-cases out.0) [
                    | inr (x, hx) ↦ ground arith
                    | inl (true, ho) ↦ ground arith
                    | inl (false, ho) ↦
                        let performed : (perform env retrier cfg provider k old out.1).0 ≡ ok d =
                          ground arith in
                        let (resp, e, granted, is_renewal, opened, there) =
                          perform_stored k old d out.1 performed in
                        (
                          old,
                          hg,
                          inr (hc, ho, (resp, e, granted, is_renewal, opened, ground arith)),
                        )
                  ]
            ]
      ]

module _ {W Held : Type 0} (env : Env W Held) (retrier : Retrier W) (cfg : SessionConfig)
    (provider : Provider) where
  -- A client error of the grant, once retries are over, ends the refresh as an invalid state; another
  -- error of the grant is passed on.
  pub perform_grant_error :
      (k : String) (old : Data) (w : W) (e : Error)
      → (retrier.run TokenResponse
          (attempt retry_server_errors (env.refresh_grant old.refresh_token))
          w).0
        ≡ err e
      → ((e ≡ openid_client) × ((perform env retrier cfg provider k old w).0 ≡ err invalid_state))
        ⊎ ((e ≢ openid_client) × ((perform env retrier cfg provider k old w).0 ≡ err e))
  unfolding perform
  perform_grant_error k old w e h = ground arith

-- ===== src/Session/Handler/Lifecycle.antt =====
-- A session from its creation to its end, as the handler's callers see it (pkg/session/handler.go).
use wonderwall.Base.{
  subst, ap, String, ◌≡◌, ◌≢◌, refl, sym, ◌∙◌, Bool-cases, none, some, false, ok, arith,
  Result-cases, inl, inr,
}
use wonderwall.Base.Int.{◌+ℤ◌}
use wonderwall.Base.Retry.{retry_all, Retrier}
use wonderwall.Http.{Pairs, IsEncoding}
use wonderwall.Cookie.RoundTrip.{IsCrypter}
use wonderwall.OpenId.Token.{Tokens, get_jwt_id}
use wonderwall.Session.Metadata.{
  Time, Duration, Metadata, zero_time, new_metadata, with_timeout, sub,
}
use wonderwall.Session.Data
use wonderwall.Session.Data.{Data, EncryptedData, new_data}
use wonderwall.Session.Data.RoundTrip
use wonderwall.Session.Data.RoundTrip.{IsJson}
use wonderwall.Session.Store.{Entries, IsStore}
use wonderwall.Session.Id.{Provider, new_session_id, key}
use wonderwall.Session.Handler.{
  SessionConfig, Env, attempt, timeout_if_enabled, store_new, create, get_for_key, get_for_id,
  destroy_for_id, destroy_for_key,
}
use wonderwall.Session.Handler.Storage.{
  IsQuiet, get_for_key_found, destroy_for_key_gone, write_stored,
}

-- The metadata of a session that was created with a lifetime.
pub record IsFresh (cfg : SessionConfig) (lifetime : Duration) (m : Metadata) : Type 0 where
  pub ends : m.session.ends_at ≡ m.session.created_at +ℤ lifetime
  pub refreshed : m.tokens.refreshed_at ≡ m.session.created_at
  pub no_timeout : cfg.inactivity ≡ false → m.session.timeout_at ≡ zero_time

-- The data holds the tokens of a login.
pub record IsSessionOf (tokens : Tokens) (d : Data) : Type 0 where
  pub access : d.access_token ≡ tokens.access_token
  pub next : d.refresh_token ≡ tokens.refresh_token
  pub id_token : d.id_token ≡ tokens.id_token.serialized
  pub jwt_id : d.id_token_jwt_id ≡ get_jwt_id tokens.id_token

pub new_data-IsSessionOf :
    (id : String) (tokens : Tokens) (m : Metadata) → IsSessionOf tokens (new_data id tokens m)
unfolding new_data
new_data-IsSessionOf id tokens m = record {
  access = refl;
  next = refl;
  id_token = refl;
  jwt_id = refl;
}

module _ {W Held : Type 0} (env : Env W Held) (retrier : Retrier W) (cfg : SessionConfig)
    (provider : Provider) where
  timeout_returns :
      (now : Time) (expires lifetime : Duration) (w : W)
      → (m : Metadata) × ((timeout_if_enabled env retrier cfg provider
            (new_metadata now expires lifetime)
            w).0
          ≡ ok m)
        × IsFresh cfg lifetime m
  unfolding timeout_if_enabled new_metadata with_timeout
  timeout_returns now expires lifetime w = elim (Bool-cases cfg.inactivity) [
    | inl on ↦ (
      with_timeout (env.now w).0 cfg.inactivity_timeout (new_metadata now expires lifetime),
      ground arith,
      record { ends = refl; refreshed = refl; no_timeout = λ off. ground arith },
    )
    | inr off ↦ (
      new_metadata now expires lifetime,
      ground arith,
      record { ends = refl; refreshed = refl; no_timeout = λ _. refl },
    )
  ]

module _ {W Held : Type 0} (env : Env W Held) (retrier : Retrier W) (cfg : SessionConfig)
    (provider : Provider) (entries : W → Entries) (laws : IsStore env.store entries)
    (encoding : IsEncoding env.encoding) (json : IsJson env.json)
    (crypter : IsCrypter env.crypter) where
  store_new_stored :
      (id k : String) (tokens : Tokens) (lifetime : Duration) (m : Metadata) (w : W)
      → (store_new env retrier cfg provider id tokens lifetime m w).0 ≡ ok k
      → (e : EncryptedData) × (k ≡ key provider id)
        × (Data.decrypt env.encoding env.json env.crypter e ≡ ok (new_data id tokens m))
        × (entries (store_new env retrier cfg provider id tokens lifetime m w).1 k ≡ some e)
  unfolding store_new
  store_new_stored id k tokens lifetime m w h =
      let d = new_data id tokens m in
      let sealed = Data.encrypt env.encoding env.json env.crypter d w in
      elim (Result-cases sealed.0) [
        | inr (x, hx) ↦ ground arith
        | inl (e, he) ↦
            let put_it = env.store.write (key provider id) e lifetime in
            elim (Result-cases (retrier.run Unit (attempt retry_all put_it) sealed.1).0) [
              | inr (x, hx) ↦ ground arith
              | inl (u, hu) ↦
                  let stored =
                    write_stored env retrier cfg provider entries laws (key provider id) e lifetime
                      sealed.1 hu in
                  let same : k ≡ key provider id = ground arith in
                  (
                    e,
                    same,
                    RoundTrip.decrypt-encrypt env.encoding encoding env.json json env.crypter
                        crypter d w e he,
                    ground arith,
                  )
            ]
      ]

  -- When `Create` returns a key, it is the key of the session's ID, and its entry in the store
  -- decrypts to the data of the tokens and of fresh metadata.
  pub create_stored :
      (query : Pairs) (tokens : Tokens) (lifetime : Duration) (w : W) (k : String)
      → (create env retrier cfg provider query tokens lifetime w).0 ≡ ok k
      → (id : String) × (m : Metadata) × (e : EncryptedData) × ((new_session_id env.random
            env.raw_url provider tokens.id_token query w).0
          ≡ ok id)
        × (k ≡ key provider id)
        × IsFresh cfg lifetime m
        × (Data.decrypt env.encoding env.json env.crypter e ≡ ok (new_data id tokens m))
        × (entries (create env retrier cfg provider query tokens lifetime w).1 k ≡ some e)
  create_stored query tokens lifetime w k h =
      let r = new_session_id env.random env.raw_url provider tokens.id_token query w in
      elim (Result-cases r.0) [
        | inr (x, hx) ↦ unfold create in ground arith
        | inl (id, hid) ↦
            let (t₁, w₁) = env.now r.1 in
            let (t₂, w₂) = env.now w₁ in
            let fresh_m = new_metadata t₂ (sub tokens.expiry t₁) lifetime in
            let (m, hm, fresh) =
              timeout_returns env retrier cfg provider t₂ (sub tokens.expiry t₁) lifetime w₂ in
            let w₃ = (timeout_if_enabled env retrier cfg provider fresh_m w₂).1 in
            let last : create env retrier cfg provider query tokens lifetime w
                ≡ store_new env retrier cfg provider id tokens lifetime m w₃ =
              unfold create in ground arith in
            let (e, same, opened, there) =
              store_new_stored id k tokens lifetime m w₃ (ap (λ x. x.0) (sym last) ∙ h) in
            (id, m, e, hid, same, fresh, opened, ap (λ x. entries x.1 k) last ∙ there)
      ]

  -- A session that `Create` has stored is found under its key, with the data of its tokens, as long
  -- as others leave the key alone.
  pub create-get_for_key :
      (query : Pairs) (tokens : Tokens) (lifetime : Duration) (w : W) (k : String) (d : Data)
      → IsQuiet retrier entries k
      → (create env retrier cfg provider query tokens lifetime w).0 ≡ ok k
      → (get_for_key env retrier cfg provider k
          (create env retrier cfg provider query tokens lifetime w).1).0
        ≡ ok d
      → (id : String) × (m : Metadata) × (k ≡ key provider id)
        × IsFresh cfg lifetime m
        × (d.external_session_id ≡ id)
        × (d.metadata ≡ m)
        × IsSessionOf tokens d
  create-get_for_key query tokens lifetime w k d quiet h g =
      let (id, m, e, hid, same, fresh, opened, there) = create_stored query tokens lifetime w k h in
      let w' = (create env retrier cfg provider query tokens lifetime w).1 in
      let (e', found, opened', kept) =
        get_for_key_found env retrier cfg provider entries laws k w' d quiet g in
      let made : new_data id tokens m ≡ d = cc in
      (
        id,
        m,
        same,
        fresh,
        ap (λ x. x.external_session_id) (sym made) ∙ unfold new_data in refl,
        ap (λ x. x.metadata) (sym made) ∙ unfold new_data in refl,
        subst (IsSessionOf tokens) made (new_data-IsSessionOf id tokens m),
      )

  -- After `DestroyForID` has reported success, `GetForID` returns no data for the ID, as long as
  -- others leave its key alone.
  pub destroy_for_id-get_for_id :
      (id : String) (w : W) (d : Data)
      → IsQuiet retrier entries (key provider id)
      → (destroy_for_id env retrier cfg provider id w).0 ≡ ok tt
      → (get_for_id env retrier cfg provider id (destroy_for_id env retrier cfg provider id w).1).0
        ≢ ok d
  destroy_for_id-get_for_id id w d quiet h g =
      let k = key provider id in
      let gone : entries (destroy_for_key env retrier cfg provider k w).1 k ≡ none =
        destroy_for_key_gone env retrier cfg provider entries laws k w
          (unfold destroy_for_id in h) in
      let (e, found, opened, kept) =
        get_for_key_found env retrier cfg provider entries laws k
          (destroy_for_key env retrier cfg provider k w).1 d quiet
          (unfold get_for_id destroy_for_id in g) in
      cc

-- ===== src/Session/Handler/Interleavings/Locks.antt =====
-- The lock of a session while its refreshes run (pkg/session/handler.go: Refresh; lock.go).
use wonderwall.Base.{String, ◌≡◌, ap, subst, Bool, true, false, Error, Result, ok, err}
use wonderwall.Base.Action.{Action, pure, always, ◌>>=◌}
use wonderwall.Base.Ensures.{
  Anything, Preserves, preserves, lift-Ensures, bind-Ensures, run-Preserves, then_pure,
}
use wonderwall.Base.Retry.{Retrier}
use wonderwall.Http.{Bytes}
use wonderwall.OpenId.Token.{TokenResponse}
use wonderwall.Session.Metadata
use wonderwall.Session.Data
use wonderwall.Session.Data.{Data, EncryptedData}
use wonderwall.Session.Id.{Provider}
use wonderwall.Session.Handler
use wonderwall.Session.Handler.{
  SessionConfig, Env, attempt, unless_missing, refresh_lock_duration, get_for_key, can_refresh,
  is_timed_out_now,
}
use wonderwall.Session.Handler.Preservation.{IsQuietFor, extended-Preserves}
use wonderwall.Session.Handler.Refresh.{extended, renewed}
use wonderwall.Session.Handler.Interleavings.{store_renewed}

-- What is relied on of a lock that has not expired, `locked` being whether the key's lock is held: it is
-- obtained only if it is free, and while it is held, nothing but its release frees it.
pub record IsExclusive {W Held : Type 0} (env : Env W Held) (retrier : Retrier W) (k : String)
    (locked : W → Bool) : Type 0 where
  pub obtained :
      (w v : W) (h : Held)
      → env.store.acquire k refresh_lock_duration w ≡ (ok h, v)
      → (locked w ≡ false) × (locked v ≡ true)
  pub refused :
      (w v : W) (e : Error)
      → env.store.acquire k refresh_lock_duration w ≡ (err e, v)
      → locked w ≡ true
      → locked v ≡ true
  pub read : (w : W) → locked w ≡ true → locked (env.store.read k w).1 ≡ true
  pub update :
      (e : EncryptedData) (w : W) → locked w ≡ true → locked (env.store.update k e w).1 ≡ true
  pub now : (w : W) → locked w ≡ true → locked (env.now w).1 ≡ true
  pub encrypt : (b : Bytes) (w : W) → locked w ≡ true → locked (env.crypter.encrypt b w).1 ≡ true
  pub refresh_grant :
      (t : String) (w : W) → locked w ≡ true → locked (env.refresh_grant t w).1 ≡ true
  pub waits : (w v : W) → retrier.Elapse w v → locked w ≡ true → locked v ≡ true

module _ {W Held : Type 0} (env : Env W Held) (retrier : Retrier W) (cfg : SessionConfig)
    (provider : Provider) (k : String) (locked : W → Bool)
    (lock : IsExclusive env retrier k locked) where
  abbrev pub Locked : W → Type 0
  Locked w = locked w ≡ true

  pub quiet : IsQuietFor env retrier Locked
  quiet = record { now = lock.now; refresh_grant = lock.refresh_grant; waits = lock.waits }

  pub get_for_key-Locked : Preserves Locked (get_for_key env retrier cfg provider k)
  unfolding get_for_key
  get_for_key-Locked =
      bind-Ensures Locked Anything Anything _ _
        (run-Preserves Locked retrier unless_missing (env.store.read k) quiet.waits
          (preserves Locked (env.store.read k) (lock.read)))
        λ e _.
          lift-Ensures Locked Anything (Data.decrypt env.encoding env.json env.crypter e)
            (λ _ _. tt)

  encrypt-Locked : (d : Data) → Preserves Locked (Data.encrypt env.encoding env.json env.crypter d)
  unfolding Data.encrypt
  encrypt-Locked d =
      bind-Ensures Locked Anything Anything _ _
        (lift-Ensures Locked Anything (env.json.marshal d) (λ _ _. tt))
        λ b _.
          then_pure Locked (env.crypter.encrypt b) _
            (preserves Locked (env.crypter.encrypt b) (lock.encrypt b))

  update-Locked : (d : Data) → Preserves Locked (Handler.update env retrier cfg provider k d)
  unfolding Handler.update
  update-Locked d = bind-Ensures Locked Anything Anything _ _ (encrypt-Locked d) λ e _.
      run-Preserves Locked retrier unless_missing (env.store.update k e) quiet.waits
        (preserves Locked (env.store.update k e) (lock.update e))

  renewed-Locked :
      (d : Data) (resp : TokenResponse) → Preserves Locked (renewed env retrier cfg provider d resp)
  unfolding renewed
  renewed-Locked d resp =
      bind-Ensures Locked Anything Anything (always env.now)
        (λ t.
          extended env retrier cfg provider (Metadata.refresh t resp.expires_in d.metadata) >>= λ m.
          pure (record d {
            access_token = resp.access_token;
            refresh_token = resp.refresh_token;
            metadata = m;
          }))
        (preserves Locked (always env.now) quiet.now)
        λ t _.
          then_pure Locked
            (extended env retrier cfg provider (Metadata.refresh t resp.expires_in d.metadata))
            (λ m. record d {
              access_token = resp.access_token;
              refresh_token = resp.refresh_token;
              metadata = m;
            })
            (extended-Preserves env retrier cfg provider Locked quiet
              (Metadata.refresh t resp.expires_in d.metadata))

  pub store_renewed-Locked :
      (d : Data) (resp : TokenResponse)
      → Preserves Locked (store_renewed env retrier cfg provider k d resp)
  unfolding store_renewed
  store_renewed-Locked d resp =
      bind-Ensures Locked Anything Anything _ _ (renewed-Locked d resp) λ d' _. update-Locked d'

  pub keeps_lock :
      {A : Type 0} (m : Action W A)
      → Preserves Locked m
      → (v w : W) (r : Result A) → m v ≡ (r, w)
      → locked v ≡ true
      → locked w ≡ true
  keeps_lock m hm v w r e p = subst Locked (ap (λ x. x.1) e) (hm.at v p).0

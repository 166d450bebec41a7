-- ===== src/Session/Handler/Isolation.antt =====
-- Which entries of the store the session handler leaves alone (pkg/session/handler.go): a request for one
-- session changes no other session.
use wonderwall.Base.{
  ℕ, [], ◌∷◌, String, ◌==◌, ◌≡◌, ◌≢◌, ap, ◌∙◌, false, not, ◌&&◌, Option, Result, ok, err,
  no_access_token, expired_access_token, session_inactive, arith, Bool-cases, inl, inr, eq_iff,
}
use wonderwall.Base.Action.{always}
use wonderwall.Base.Retry.{Retrier}
use wonderwall.Http.{Pairs, Bytes}
use wonderwall.OpenId.Token.{TokenResponse}
use wonderwall.Session.Metadata
use wonderwall.Session.Metadata.{
  Metadata, is_expired, is_zero, is_timed_out, is_refresh_on_cooldown, should_refresh,
  extend_timeout,
}
use wonderwall.Session.Data
use wonderwall.Session.Data.{has_access_token, has_refresh_token, Data, EncryptedData}
use wonderwall.Session.Store.{Entries, IsStore}
use wonderwall.Session.Id.{Provider}
use wonderwall.Session.Handler
use wonderwall.Session.Handler.{
  unless_missing, retry_server_errors, SessionConfig, Env, Schedule, context_ends, timed_out, tick,
  attempt, get_for_key, get_key, destroy_for_key, can_refresh, should_refresh_now, is_timed_out_now,
  acquire_loop, after_cooldown_test,
}
use wonderwall.Session.Handler.Keeping.{
  Keeps, pure-Keeps, lift-Keeps, if-Keeps, catch-Keeps, run-Keeps, bind-Keeps, bind_lift-Keeps,
}
use wonderwall.Session.Handler.Storage.{IsQuiet}
use wonderwall.Session.Handler.Refresh.Locking.{acquire_loop_keeps}
use wonderwall.Session.Handler.Refresh.{
  grant, extended, renewed, perform, refresh_locked, with_lock, refresh, or_existing,
  refreshed_if_due, get_or_refresh, unexpired, get_access_token,
}

-- What is outside the store does not change its entries: the clock, random bytes, the encryption, the provider and the
-- events that a loop waits for.
pub record IsApart {W Held : Type 0} (env : Env W Held) (entries : W → Entries) (j : String)
    : Type 0 where
  pub now : (w : W) → entries (env.now w).1 j ≡ entries w j
  pub random : (n : ℕ) (w : W) → entries (env.random n w).1 j ≡ entries w j
  pub encrypt : (b : Bytes) (w : W) → entries (env.crypter.encrypt b w).1 j ≡ entries w j
  pub refresh_grant : (t : String) (w : W) → entries (env.refresh_grant t w).1 j ≡ entries w j
  pub schedule : (w : W) → entries (env.schedule w).1 j ≡ entries w j

module _ {W Held : Type 0} (env : Env W Held) (retrier : Retrier W) (cfg : SessionConfig)
    (provider : Provider) (entries : W → Entries) (laws : IsStore env.store entries) (j : String)
    (apart : IsApart env entries j) (quiet : IsQuiet retrier entries j) where
  abbrev view : W → Option EncryptedData
  view w = entries w j

  pub now-Keeps : Keeps view (always env.now)
  now-Keeps = record { at = apart.now }

  pub get_for_key-Keeps : (k : String) → Keeps view (get_for_key env retrier cfg provider k)
  unfolding get_for_key
  get_for_key-Keeps k =
      bind-Keeps view _ _
        (run-Keeps view retrier unless_missing (env.store.read k) quiet
          (record { at = laws.read_keeps k j }))
        λ e. lift-Keeps view (Data.decrypt env.encoding env.json env.crypter e)

  encrypt-Keeps : (d : Data) → Keeps view (Data.encrypt env.encoding env.json env.crypter d)
  unfolding Data.encrypt
  encrypt-Keeps d = bind-Keeps view _ _ (lift-Keeps view (env.json.marshal d)) λ b.
      bind-Keeps view (env.crypter.encrypt b) _ (record { at = apart.encrypt b })
        λ c. pure-Keeps view (record { text = env.encoding.base64 c })

  update-Keeps :
      (k : String) (d : Data)
      → (k == j) ≡ false
      → Keeps view (Handler.update env retrier cfg provider k d)
  unfolding Handler.update
  update-Keeps k d other = bind-Keeps view _ _ (encrypt-Keeps d) λ e.
      run-Keeps view retrier unless_missing (env.store.update k e) quiet
        (record { at = λ w. laws.update_keeps k j e w other })

  pub destroy_for_key-Keeps :
      (k : String) → (k == j) ≡ false → Keeps view (destroy_for_key env retrier cfg provider k)
  unfolding destroy_for_key
  destroy_for_key-Keeps k other =
      run-Keeps view retrier unless_missing (env.store.delete (k ∷ [])) quiet
        (record { at = λ w. laws.delete_keeps k j w other })

  can_refresh-Keeps : (d : Data) → Keeps view (can_refresh env retrier cfg provider d)
  unfolding can_refresh
  can_refresh-Keeps d =
      if-Keeps view (cfg.refresh && has_refresh_token d) _ _
        (bind-Keeps view _ _ now-Keeps
          λ t. pure-Keeps view (not (is_refresh_on_cooldown t d.metadata)))
        (pure-Keeps view false)

  is_timed_out_now-Keeps : (d : Data) → Keeps view (is_timed_out_now env retrier cfg provider d)
  unfolding is_timed_out_now
  is_timed_out_now-Keeps d =
      if-Keeps view (cfg.inactivity && not (is_zero d.metadata.session.timeout_at)) _ _
        (bind-Keeps view _ _ now-Keeps λ t. pure-Keeps view (is_timed_out t d.metadata))
        (pure-Keeps view false)

  should_refresh_now-Keeps : (d : Data) → Keeps view (should_refresh_now env retrier cfg provider d)
  unfolding should_refresh_now
  should_refresh_now-Keeps d =
      if-Keeps view (cfg.refresh && has_refresh_token d) _ _
        (bind-Keeps view _ _ now-Keeps λ t₁.
          if-Keeps view (is_refresh_on_cooldown t₁ d.metadata) _ _ (pure-Keeps view false) (
            bind-Keeps view _ _ now-Keeps λ t₂.
              bind-Keeps view _ _ now-Keeps
                λ t₃. pure-Keeps view (should_refresh t₁ t₂ t₃ d.metadata)))
        (pure-Keeps view false)

  grant-Keeps : (token : String) → Keeps view (grant env retrier cfg provider token)
  unfolding grant
  grant-Keeps token =
      let run =
        run-Keeps view retrier retry_server_errors (env.refresh_grant token) quiet
          (record { at = apart.refresh_grant token }) in
      record { at = λ w. run.at w }

  extended-Keeps : (m : Metadata) → Keeps view (extended env retrier cfg provider m)
  unfolding extended
  extended-Keeps m =
      if-Keeps view cfg.inactivity _ _
        (bind-Keeps view _ _ now-Keeps
          λ t. pure-Keeps view (extend_timeout t cfg.inactivity_timeout m))
        (pure-Keeps view m)

  renewed-Keeps :
      (d : Data) (resp : TokenResponse) → Keeps view (renewed env retrier cfg provider d resp)
  unfolding renewed
  renewed-Keeps d resp = bind-Keeps view _ _ now-Keeps λ t.
      bind-Keeps view _ _ (extended-Keeps (Metadata.refresh t resp.expires_in d.metadata)) λ m.
        pure-Keeps view (record d {
          access_token = resp.access_token;
          refresh_token = resp.refresh_token;
          metadata = m;
        })

  acquire_loop-Keeps :
      (k : String) (s : Schedule) → Keeps view (acquire_loop env retrier cfg provider k s)
  acquire_loop-Keeps k s = record {
    at = λ w. acquire_loop_keeps env retrier cfg provider entries laws k j s w;
  }

  module _ (k : String) (other : (k == j) ≡ false) where
    perform-Keeps : (d : Data) → Keeps view (perform env retrier cfg provider k d)
    unfolding perform
    perform-Keeps d = bind-Keeps view _ _ (grant-Keeps d.refresh_token) λ resp.
        bind-Keeps view _ _ (renewed-Keeps d resp)
          λ d'. bind-Keeps view _ _ (update-Keeps k d' other) λ _. pure-Keeps view d'

    refresh_locked-Keeps : Keeps view (refresh_locked env retrier cfg provider k)
    unfolding refresh_locked
    refresh_locked-Keeps = bind-Keeps view _ _ (get_for_key-Keeps k) λ d.
        bind-Keeps view _ _ (can_refresh-Keeps d) λ can.
          if-Keeps view can _ _
            (bind-Keeps view _ _ (is_timed_out_now-Keeps d) λ inactive.
              if-Keeps view inactive _ _ (lift-Keeps view (err session_inactive)) (perform-Keeps d))
            (pure-Keeps view d)

    with_lock-Keeps : Keeps view (with_lock env retrier cfg provider k)
    unfolding with_lock
    with_lock-Keeps =
        bind-Keeps view (always env.schedule) _ (record { at = apart.schedule })
          λ s. bind-Keeps view _ _ (acquire_loop-Keeps k s) λ held.
            bind-Keeps view _ _ (catch-Keeps view _ refresh_locked-Keeps) λ result.
              bind-Keeps view _ _
                (catch-Keeps view (env.store.release held)
                  (record { at = λ w. laws.release_keeps held j w }))
                λ _. lift-Keeps view result

    pub refresh-Keeps : (d : Data) → Keeps view (refresh env retrier cfg provider k d)
    unfolding refresh
    refresh-Keeps d =
        bind-Keeps view _ _ (can_refresh-Keeps d)
          λ can. if-Keeps view can _ _ with_lock-Keeps (pure-Keeps view d)

    or_existing-Keeps :
        (d : Data) (r : Result Data) → Keeps view (or_existing env retrier cfg provider d r)
    or_existing-Keeps d r = record { at = λ w. unfold or_existing in ground arith }

    refreshed_if_due-Keeps : (d : Data) → Keeps view (refreshed_if_due env retrier cfg provider k d)
    unfolding refreshed_if_due
    refreshed_if_due-Keeps d = bind-Keeps view _ _ (should_refresh_now-Keeps d) λ due.
        if-Keeps view due _ _
          (bind-Keeps view _ _ (catch-Keeps view _ (refresh-Keeps d)) (or_existing-Keeps d))
          (pure-Keeps view d)

  unexpired-Keeps : (d : Data) → Keeps view (unexpired env retrier cfg provider d)
  unfolding unexpired
  unexpired-Keeps d = bind-Keeps view _ _ now-Keeps λ t.
      if-Keeps view (is_expired t d.metadata) _ _ (lift-Keeps view (err expired_access_token))
        (pure-Keeps view d.access_token)

  pub different : (k : String) → k ≢ j → (k == j) ≡ false
  different k h = elim (Bool-cases (k == j)) [ inl e ↦ absurd (h ((eq_iff k j).0 e)) | inr e ↦ e ]

  get_or_refresh-Keeps :
      (cookies : Pairs)
      → get_key env retrier cfg provider cookies ≢ ok j
      → Keeps view (get_or_refresh env retrier cfg provider cookies)
  unfolding get_or_refresh
  get_or_refresh-Keeps cookies not_mine =
      bind_lift-Keeps view (get_key env retrier cfg provider cookies) _ λ k mine.
        let other = different k (λ same. not_mine (mine ∙ ap ok same)) in
        bind-Keeps view _ _ (get_for_key-Keeps k) λ d.
          bind-Keeps view _ _ (is_timed_out_now-Keeps d) λ inactive.
            if-Keeps view inactive _ _ (lift-Keeps view (err session_inactive))
              (refreshed_if_due-Keeps k other d)

  -- `GetAccessToken` leaves every entry of the store alone but that of the request's session.
  pub get_access_token-Keeps :
      (cookies : Pairs)
      → get_key env retrier cfg provider cookies ≢ ok j
      → Keeps view (get_access_token env retrier cfg provider cookies)
  unfolding get_access_token
  get_access_token-Keeps cookies not_mine =
      bind-Keeps view _ _ (get_or_refresh-Keeps cookies not_mine) λ d.
        if-Keeps view (has_access_token d) _ _ (unexpired-Keeps d)
          (lift-Keeps view (err no_access_token))

  -- `GetForKey` and `Refresh`, for another key.
  pub refresh_other-Keeps :
      (cookies : Pairs) (k : String) (d : Data)
      → get_key env retrier cfg provider cookies ≢ ok j
      → get_key env retrier cfg provider cookies ≡ ok k
      → Keeps view (refresh env retrier cfg provider k d)
  refresh_other-Keeps cookies k d not_mine mine =
      refresh-Keeps k (different k (λ same. not_mine (mine ∙ ap ok same))) d

  pub get-Keeps : (cookies : Pairs) → Keeps view (Handler.get env retrier cfg provider cookies)
  unfolding Handler.get
  get-Keeps cookies =
      bind_lift-Keeps view (get_key env retrier cfg provider cookies) _ λ k _. get_for_key-Keeps k

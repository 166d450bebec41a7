-- ===== src/Session/Handler/Ownership/Refreshes.antt =====
-- A refresh stores the renewed session under its own key (pkg/session/handler.go: Refresh, GetOrRefresh,
-- GetAccessToken).
use wonderwall.Base.{String, ◌≡◌, sym, subst, Result, ok, arith, session_inactive, no_access_token}
use wonderwall.Base.Action.{always}
use wonderwall.Base.Ensures.{
  OnOk, Anything, Ensures, Preserves, preserves, pure-Ensures, raise-Ensures, lift-Ensures,
  if-Ensures, bind-Ensures, catch-Ensures, weaken_to,
}
use wonderwall.Base.Retry.{Retrier}
use wonderwall.Http.{Pairs}
use wonderwall.OpenId.Token.{TokenResponse}
use wonderwall.Session.Metadata
use wonderwall.Session.Metadata.{
  Duration, Metadata, new_metadata, sub, with_timeout, extend_timeout, is_timed_out, is_zero,
  is_expired, is_refresh_on_cooldown, should_refresh,
}
use wonderwall.Session.Data.{Data, has_access_token}
use wonderwall.Session.Id.{Provider, key}
use wonderwall.Session.Store.{Entries}
use wonderwall.Session.Handler
use wonderwall.Session.Handler.{
  SessionConfig, Env, Schedule, context_ends, timed_out, tick, attempt, retry_server_errors,
  get_for_key, get_key, destroy_for_key, store_new, create, timeout_if_enabled, can_refresh,
  should_refresh_now, is_timed_out_now, acquire_loop, refresh_lock_duration,
}
use wonderwall.Session.Handler.Refresh.{
  renewed, perform, refresh_locked, with_lock, refresh, or_existing, refreshed_if_due,
  get_or_refresh, get_access_token,
}
use wonderwall.Session.Handler.Refresh.Locking.{acquire_loop_keeps}
use wonderwall.Session.Handler.Preservation.{
  IsQuietFor, can_refresh-Preserves, is_timed_out-Preserves, should_refresh-Preserves,
  grant-Preserves, extended-Preserves, unexpired-Preserves,
}
use wonderwall.Session.Handler.Ownership.{
  Surroundings, BelongsTo, Owned, apart-Preserves, now-Owned, schedule-Owned, release-Owned,
  grant-Owned, encrypt-Owned, update_retried-Owned, get_for_key-Owned,
}

module _ {W Held : Type 0} (env : Env W Held) (retrier : Retrier W) (cfg : SessionConfig)
    (provider : Provider) (entries : W → Entries) (Mine : String → Type 0) (old : Entries)
    (rely : Surroundings env retrier provider entries Mine old) where
  abbrev P : W → Type 0
  P = Owned env retrier cfg provider entries Mine old rely

  now-P : Preserves P (always env.now)
  now-P = now-Owned env retrier cfg provider entries Mine old rely

  -- The data is that of the session of the key.
  abbrev pub IsOf : String → Data → Type 0
  IsOf k d = key provider d.external_session_id ≡ k

  update-P :
      (k : String) (d : Data)
      → Mine k
      → IsOf k d
      → Preserves P (Handler.update env retrier cfg provider k d)
  unfolding Handler.update
  update-P k d mine of =
      bind-Ensures P (BelongsTo env provider (key provider d.external_session_id)) Anything _ _
        (encrypt-Owned env retrier cfg provider entries Mine old rely d)
        λ e belongs.
          update_retried-Owned env retrier cfg provider entries Mine old rely k e mine
            (subst (λ t. BelongsTo env provider t e) of belongs)

  quiet : IsQuietFor env retrier P
  quiet = record {
    now = (λ w p. (now-P.at w p).0);
    refresh_grant =
        λ t w p. ((grant-Owned env retrier cfg provider entries Mine old rely t).at w p).0;
    waits = rely.waits;
  }

  renewed-P :
      (k : String) (d : Data) (resp : TokenResponse)
      → IsOf k d
      → Ensures P (renewed env retrier cfg provider d resp) (IsOf k)
  unfolding renewed
  renewed-P k d resp of = bind-Ensures P Anything (IsOf k) _ _ now-P λ t _.
      bind-Ensures P Anything (IsOf k) _ _
        (extended-Preserves env retrier cfg provider P quiet
          (Metadata.refresh t resp.expires_in d.metadata))
        λ m _.
          pure-Ensures P (IsOf k)
            (record d {
              access_token = resp.access_token;
              refresh_token = resp.refresh_token;
              metadata = m;
            })
            of

  module _ (k : String) (mine : Mine k) where
    perform-P : (d : Data) → IsOf k d → Preserves P (perform env retrier cfg provider k d)
    unfolding perform
    perform-P d of =
        bind-Ensures P Anything Anything _ _
          (grant-Preserves env retrier cfg provider P quiet d.refresh_token)
          λ resp _. bind-Ensures P (IsOf k) Anything _ _ (renewed-P k d resp of) λ d' of'.
            bind-Ensures P Anything Anything _ _ (update-P k d' mine of')
              λ _ _. pure-Ensures P Anything d' tt

    refresh_locked-P : Preserves P (refresh_locked env retrier cfg provider k)
    unfolding refresh_locked
    refresh_locked-P =
        bind-Ensures P (IsOf k) Anything _ _
          (get_for_key-Owned env retrier cfg provider entries Mine old rely k)
          λ d of.
            bind-Ensures P Anything Anything _ _
              (can_refresh-Preserves env retrier cfg provider P quiet d)
              λ can _.
                if-Ensures P Anything can _ _
                  (bind-Ensures P Anything Anything _ _
                    (is_timed_out-Preserves env retrier cfg provider P quiet d)
                    λ inactive _.
                      if-Ensures P Anything inactive _ _ (raise-Ensures P Anything session_inactive)
                        (perform-P d of))
                  (pure-Ensures P Anything d tt)

    acquire_loop-P : (s : Schedule) → Preserves P (acquire_loop env retrier cfg provider k s)
    acquire_loop-P s =
        apart-Preserves env retrier cfg provider entries Mine old rely
          (acquire_loop env retrier cfg provider k s)
          λ j w. acquire_loop_keeps env retrier cfg provider entries rely.store k j s w

    with_lock-P : Preserves P (with_lock env retrier cfg provider k)
    unfolding with_lock
    with_lock-P =
        bind-Ensures P Anything Anything _ _
          (schedule-Owned env retrier cfg provider entries Mine old rely)
          λ s _. bind-Ensures P Anything Anything _ _ (acquire_loop-P s) λ held _.
            bind-Ensures P (OnOk Anything) Anything _ _
              (catch-Ensures P Anything _ refresh_locked-P)
              λ result _.
                bind-Ensures P (OnOk Anything) Anything _ _
                  (catch-Ensures P Anything _
                    (release-Owned env retrier cfg provider entries Mine old rely held))
                  λ _ _. lift-Ensures P Anything result (λ _ _. tt)

    pub refresh-Owned : (d : Data) → Preserves P (refresh env retrier cfg provider k d)
    unfolding refresh
    refresh-Owned d =
        bind-Ensures P Anything Anything _ _
          (can_refresh-Preserves env retrier cfg provider P quiet d)
          λ can _. if-Ensures P Anything can _ _ with_lock-P (pure-Ensures P Anything d tt)

    or_existing-P :
        (d : Data) (r : Result Data) → Preserves P (or_existing env retrier cfg provider d r)
    or_existing-P d r =
        preserves P (or_existing env retrier cfg provider d r)
          λ w p. unfold or_existing in ground arith

    refreshed_if_due-P : (d : Data) → Preserves P (refreshed_if_due env retrier cfg provider k d)
    unfolding refreshed_if_due
    refreshed_if_due-P d =
        bind-Ensures P Anything Anything _ _
          (should_refresh-Preserves env retrier cfg provider P quiet d)
          λ due _.
            if-Ensures P Anything due _ _
              (bind-Ensures P (OnOk Anything) Anything _ _
                (catch-Ensures P Anything _ (refresh-Owned d)) λ r _. or_existing-P d r)
              (pure-Ensures P Anything d tt)

  module _ (cookies : Pairs)
      (mine : (k : String) → get_key env retrier cfg provider cookies ≡ ok k → Mine k) where
    get_or_refresh-P : Preserves P (get_or_refresh env retrier cfg provider cookies)
    unfolding get_or_refresh
    get_or_refresh-P =
        bind-Ensures P Mine Anything _ _
          (lift-Ensures P Mine (get_key env retrier cfg provider cookies) mine)
          λ k my.
            bind-Ensures P (IsOf k) Anything _ _
              (get_for_key-Owned env retrier cfg provider entries Mine old rely k)
              λ d _.
                bind-Ensures P Anything Anything _ _
                  (is_timed_out-Preserves env retrier cfg provider P quiet d)
                  λ inactive _.
                    if-Ensures P Anything inactive _ _ (raise-Ensures P Anything session_inactive)
                      (refreshed_if_due-P k my d)

    pub get_access_token-Owned : Preserves P (get_access_token env retrier cfg provider cookies)
    unfolding get_access_token
    get_access_token-Owned = bind-Ensures P Anything Anything _ _ get_or_refresh-P λ d _.
        if-Ensures P Anything (has_access_token d) _ _
          (unexpired-Preserves env retrier cfg provider P quiet d)
          (raise-Ensures P Anything no_access_token)

    -- The session that `Get` finds is that of the cookie.
    pub get-Owned :
        Ensures P
          (Handler.get env retrier cfg provider cookies)
          (λ d. Mine (key provider d.external_session_id))
    unfolding Handler.get
    get-Owned =
        bind-Ensures P Mine (λ d. Mine (key provider d.external_session_id)) _ _
          (lift-Ensures P Mine (get_key env retrier cfg provider cookies) mine)
          λ k my.
            weaken_to P (IsOf k) (λ d. Mine (key provider d.external_session_id)) _
              (get_for_key-Owned env retrier cfg provider entries Mine old rely k)
              (λ d of. subst Mine (sym of) my)

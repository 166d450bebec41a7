-- ===== src/Session/Handler/Refresh/AccessToken.antt =====
-- Which access tokens the handler gives out (pkg/session/handler.go: GetAccessToken, GetOrRefresh).
use wonderwall.Base.{String, ◌==◌, ◌≡◌, ◌⊎◌, true, false, ok, arith, Result-cases, inl, inr}
use wonderwall.Base.Retry.{Retrier}
use wonderwall.Http.{Pairs}
use wonderwall.Session.Metadata.{is_expired}
use wonderwall.Session.Data.{Data, has_access_token}
use wonderwall.Session.Id.{Provider}
use wonderwall.Session.Handler.{
  SessionConfig, Env, get_for_key, get_key, is_timed_out_now, should_refresh_now,
}
use wonderwall.Session.Handler.Refresh.{refresh, refreshed_if_due, get_or_refresh, get_access_token}

module _ {W Held : Type 0} (env : Env W Held) (retrier : Retrier W) (cfg : SessionConfig)
    (provider : Provider) where
  -- A token is given out only if it is that of the session data which `GetOrRefresh` returned, is not
  -- empty, and has not expired at a reading of the clock taken after that.
  pub get_access_token_valid :
      (cookies : Pairs) (w : W) (t : String)
      → (get_access_token env retrier cfg provider cookies w).0 ≡ ok t
      → (d : Data) × ((get_or_refresh env retrier cfg provider cookies w).0 ≡ ok d)
        × (t ≡ d.access_token)
        × ((t == "") ≡ false)
        × (is_expired (env.now (get_or_refresh env retrier cfg provider cookies w).1).0 d.metadata
            ≡ false)
  unfolding get_access_token has_access_token
  get_access_token_valid cookies w t h =
      let r = get_or_refresh env retrier cfg provider cookies w in
      elim (Result-cases r.0) [
        | inr (x, hx) ↦ ground arith
        | inl (d, hd) ↦ (d, hd, ground arith, ground arith, ground arith)
      ]

  due_origin :
      (k : String) (d₀ d : Data) (w : W)
      → (refreshed_if_due env retrier cfg provider k d₀ w).0 ≡ ok d
      → (d ≡ d₀)
        ⊎ ((refresh env retrier cfg provider k d₀
              (should_refresh_now env retrier cfg provider d₀ w).1).0
            ≡ ok d)
  unfolding refreshed_if_due
  due_origin k d₀ d w h =
      let due = should_refresh_now env retrier cfg provider d₀ w in
      let r = refresh env retrier cfg provider k d₀ due.1 in
      elim (Result-cases due.0) [
        | inr (x, hx) ↦ ground arith
        | inl (false, hx) ↦ inl (ground arith)
        | inl (true, hx) ↦ elim (Result-cases r.0) [
          | inl (d', hr) ↦ inr (ground arith)
          | inr (x, hr) ↦ inl (ground arith)
        ]
      ]

  -- `GetOrRefresh` returns data only for a session that the store has under the key of the cookie
  -- and that has not timed out. The data is that of the store or that of a successful refresh.
  pub get_or_refresh_origin :
      (cookies : Pairs) (w : W) (d : Data)
      → (get_or_refresh env retrier cfg provider cookies w).0 ≡ ok d
      → (k : String) × (d₀ : Data) × (get_key env retrier cfg provider cookies ≡ ok k)
        × ((get_for_key env retrier cfg provider k w).0 ≡ ok d₀)
        × ((is_timed_out_now env retrier cfg provider d₀
              (get_for_key env retrier cfg provider k w).1).0
            ≡ ok false)
        × ((d ≡ d₀) ⊎ ((u : W) × ((refresh env retrier cfg provider k d₀ u).0 ≡ ok d)))
  unfolding get_or_refresh
  get_or_refresh_origin cookies w d h =
      elim (Result-cases (get_key env retrier cfg provider cookies)) [
        | inr (x, hx) ↦ ground arith
        | inl (k, hk) ↦
            let r = get_for_key env retrier cfg provider k w in
            elim (Result-cases r.0) [
              | inr (x, hx) ↦ ground arith
              | inl (d₀, hd) ↦
                  let out = is_timed_out_now env retrier cfg provider d₀ r.1 in
                  elim (Result-cases out.0) [
                    | inr (x, hx) ↦ ground arith
                    | inl (true, hx) ↦ ground arith
                    | inl (false, hx) ↦
                        let last : (refreshed_if_due env retrier cfg provider k d₀ out.1).0 ≡ ok d =
                          ground arith in
                        (
                          k,
                          d₀,
                          hk,
                          hd,
                          hx,
                          elim (due_origin k d₀ d out.1 last) [
                            | inl e ↦ inl e
                            | inr e ↦
                                inr ((should_refresh_now env retrier cfg provider d₀ out.1).1, e)
                          ],
                        )
                  ]
            ]
      ]

-- ===== src/Api/Sessions/Statuses.antt =====
-- The answers of the endpoints for the session (pkg/handler/api/session, sessionrefresh).
use wonderwall.Base.{
  String, ◌≡◌, ◌↔◌, true, ok, err, arith, Result-cases, Bool-cases, inl, inr, ◌⊎◌, cookie_not_found,
  key_not_found,
}
use wonderwall.Http.{Request}
use wonderwall.Session.Metadata.Report
use wonderwall.Session.Data.{Data}
use wonderwall.Session.Handler.{get, get_key, get_for_key}
use wonderwall.Session.Handler.Refresh.{refresh}
use wonderwall.Api.Answers.{begin, status, verbose_with_refresh, ends, on_error}
use wonderwall.Api.{StandardHandler}
use wonderwall.Api.Sessions.{session, session_refresh}

module _ {W Held Jwks : Type 0} (src : StandardHandler W Held Jwks) where
  -- The endpoint for the session answers 401 exactly if the session cookie cannot be read or the store
  -- has no session for it.
  pub session_unauthorized_iff :
      (r : Request) (w : W)
      → let got = (get src.env src.retrier src.session_config src.session_provider r.cookies w).0 in
        ((session src r (begin w)).0 ≡ status 401)
        ↔ ((got ≡ err cookie_not_found) ⊎ (got ≡ err key_not_found))
  unfolding session on_error ends
  session_unauthorized_iff r w = ground arith

  -- A refresh that is answered with metadata is enabled, and the metadata has the tokens' times and the
  -- session's times of the data that `Refresh` returned for the session of the cookie.
  pub session_refresh_reports :
      (r : Request) (w : W) (m : Report.MetadataVerboseWithRefresh)
      → (session_refresh src r (begin w)).0 ≡ verbose_with_refresh m
      → (src.session_config.refresh ≡ true)
        × (k : String) × (d : Data) × (d' : Data) × (get_key src.env src.retrier src.session_config
              src.session_provider r.cookies
            ≡ ok k)
        × ((get_for_key src.env src.retrier src.session_config src.session_provider k w).0 ≡ ok d)
        × ((refresh src.env src.retrier src.session_config src.session_provider k d
              (get_for_key src.env src.retrier src.session_config src.session_provider k w).1).0
            ≡ ok d')
        × (m.session.session ≡ d'.metadata.session)
        × (m.tokens.verbose.tokens ≡ d'.metadata.tokens)
  unfolding session_refresh on_error get ends Report.verbose_with_refresh
  session_refresh_reports r w m h = elim (Bool-cases src.session_config.refresh) [
    | inr off ↦ absurd (ground arith)
    | inl on ↦
        elim (Result-cases
          (get_key src.env src.retrier src.session_config src.session_provider r.cookies)) [
            | inr (x, e) ↦ absurd (ground arith)
            | inl (k, hk) ↦
                let got =
                  get_for_key src.env src.retrier src.session_config src.session_provider k w in
                elim (Result-cases got.0) [
                  | inr (x, e) ↦ absurd (ground arith)
                  | inl (d, hd) ↦
                      let new =
                        refresh src.env src.retrier src.session_config src.session_provider k d
                          got.1 in
                      elim (Result-cases new.0) [
                        | inr (x, e) ↦ absurd (ground arith)
                        | inl (d', hn) ↦ (on, k, d, d', hk, hd, hn, ground arith, ground arith)
                      ]
                ]
          ]
  ]

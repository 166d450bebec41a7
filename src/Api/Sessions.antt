-- ===== src/Api/Sessions.antt =====
-- The endpoints for the session: pkg/handler/api/session and sessionrefresh, and SessionRefresh of
-- pkg/handler/handler_standard.go. Encoding the metadata as JSON does not fail.
pub mod Statuses
use wonderwall.Base.{
  Error, cookie_not_found, key_not_found, session_inactive, invalid_state, String, Result, ok, err,
  if◌then◌else◌,
}
use wonderwall.Base.Action.{Action, lift, always, pure, catch, ◌>>=◌}
use wonderwall.Http.{Request}
use wonderwall.Session.Metadata.{Time}
use wonderwall.Session.Metadata.Report
use wonderwall.Session.Data.{Data}
use wonderwall.Session.Handler.{get, get_key}
use wonderwall.Session.Handler.Refresh.{refresh}
use wonderwall.Api.Answers.{Reply, status, verbose, verbose_with_refresh, ends, on_error}
use wonderwall.Api.{StandardHandler}

module _ {W Held Jwks : Type 0} (src : StandardHandler W Held Jwks) where
  -- Each reading of the clock is a call of its own.
  abbrev pub report : Data → Reply W
  report d x =
      let (t₁, w₁) = src.env.now x.world in
      let (t₂, w₂) = src.env.now w₁ in
      (verbose (Report.verbose src.whole_seconds t₁ t₂ d.metadata), record x { world = w₂ })

  abbrev pub report_with_refresh : Data → Reply W
  report_with_refresh d x =
      let (t₁, w₁) = src.env.now x.world in
      let (t₂, w₂) = src.env.now w₁ in
      let (t₃, w₃) = src.env.now w₂ in
      let (t₄, w₄) = src.env.now w₃ in
      let (t₅, w₅) = src.env.now w₄ in
      (
        verbose_with_refresh
            (Report.verbose_with_refresh src.whole_seconds t₁ t₂ t₃ t₄ t₅ d.metadata),
        record x { world = w₅ },
      )

  -- An inactive session would go on with the data, which `Get` does not return with an error: the
  -- handler would panic, which chi's Recoverer turns into status 500.
  abbrev pub session_failure : Error → Reply W
  session_failure cookie_not_found = ends (status 401)
  session_failure key_not_found = ends (status 401)
  session_failure _ = ends (status 500)

  unfoldable pub session : Request → Reply W
  session r =
      on_error (get src.env src.retrier src.session_config src.session_provider r.cookies)
        session_failure λ d. if src.session_config.refresh then report_with_refresh d else report d

  abbrev pub get_failure : Error → Reply W
  get_failure key_not_found = ends (status 401)
  get_failure session_inactive = ends (status 401)
  get_failure _ = ends (status 500)

  abbrev pub refresh_failure : Error → Reply W
  refresh_failure invalid_state = ends (status 401)
  refresh_failure _ = ends (status 500)

  -- pkg/handler/api/sessionrefresh
  unfoldable pub refresh_session : Request → Reply W
  refresh_session r =
      on_error
        (lift (get_key src.env src.retrier src.session_config src.session_provider r.cookies))
        (λ _. ends (status 401))
        λ key.
          on_error (get src.env src.retrier src.session_config src.session_provider r.cookies)
            get_failure
            λ d.
              on_error (refresh src.env src.retrier src.session_config src.session_provider key d)
                refresh_failure report_with_refresh

  unfoldable pub session_refresh : Request → Reply W
  unfolding refresh_session
  session_refresh r = if src.session_config.refresh then refresh_session r else ends (status 404)

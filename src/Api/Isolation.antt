-- ===== src/Api/Isolation.antt =====
-- A request changes no other session than its own (pkg/handler/reverseproxy, pkg/handler/api/sessionrefresh).
pub mod FrontChannel
use wonderwall.Base.{arith, Error, String, ◌≡◌, ◌≢◌, refl, ap, ◌∙◌, Option, ok}
use wonderwall.Http.{Request}
use wonderwall.Session.Data.{Data, EncryptedData}
use wonderwall.Session.Store.{Entries, IsStore}
use wonderwall.Session.Handler.{get_key}
use wonderwall.Session.Handler.Storage.{IsQuiet}
use wonderwall.Session.Handler.Isolation.{
  IsApart, get-Keeps, get_access_token-Keeps, refresh_other-Keeps,
}
use wonderwall.Api.Answers.{Answer, Exchange, begin, Reply, ends, status}
use wonderwall.Api.Answers.Extension.{on_error-both, if-both}
use wonderwall.Api.{StandardHandler}
use wonderwall.Api.Sessions.{
  refresh_session, session_refresh, report_with_refresh, get_failure, refresh_failure,
}
use wonderwall.Api.Proxy.{proxy}

module _ {W Held Jwks : Type 0} (src : StandardHandler W Held Jwks) (entries : W → Entries)
    (laws : IsStore src.env.store entries) (j : String) (apart : IsApart src.env entries j)
    (quiet : IsQuiet src.retrier entries j) where
  abbrev entry : W → Option EncryptedData
  entry w = entries w j

  report_keeps :
      (d : Data) (x : Exchange W) → entry (report_with_refresh src d x).1.world ≡ entry x.world
  report_keeps d x = apart.now _ ∙ apart.now _ ∙ apart.now _ ∙ apart.now _ ∙ apart.now x.world

  get_failure_rest : (e : Error) (y : Exchange W) → (get_failure src e y).1 ≡ y
  unfolding ends
  get_failure_rest e y = ground arith

  refresh_failure_rest : (e : Error) (y : Exchange W) → (refresh_failure src e y).1 ≡ y
  unfolding ends
  refresh_failure_rest e y = ground arith

  refresh_session_keeps :
      (r : Request) (x : Exchange W)
      → get_key src.env src.retrier src.session_config src.session_provider r.cookies ≢ ok j
      → entry (refresh_session src r x).1.world ≡ entry x.world
  unfolding refresh_session ends
  refresh_session_keeps r x not_mine =
      let P : Answer × Exchange W → Type 0 = λ p. entry p.1.world ≡ entry x.world in
      let got =
        get-Keeps src.env src.retrier src.session_config src.session_provider entries laws j apart
          quiet r.cookies in
      on_error-both P _ _ _ x (λ _ _. refl)
        λ k mine.
          on_error-both P _ _ _ x
            (λ e _. ap (λ y. entry y.world) (get_failure_rest e _) ∙ got.at x.world)
            λ d _.
              let new =
                refresh_other-Keeps src.env src.retrier src.session_config src.session_provider
                  entries laws j apart quiet r.cookies k d not_mine mine in
              on_error-both P _ _ _ _
                (λ e _.
                  ap (λ y. entry y.world) (refresh_failure_rest e _) ∙ new.at _ ∙ got.at x.world)
                λ d' _.
                  report_keeps d' (record { world = _; cookies = x.cookies })
                  ∙ new.at _
                  ∙ got.at x.world

  -- A request whose session cookie is not read as the key leaves the entry of the key alone, in the reverse
  -- proxy and in the endpoint that refreshes a session, as long as nobody else changes the entry and what
  -- is outside the store does not.
  pub proxy_keeps :
      (r : Request) (url : String) (w : W)
      → get_key src.env src.retrier src.session_config src.session_provider r.cookies ≢ ok j
      → (entries (proxy src r url w).1 j ≡ entries w j)
        × (entries (session_refresh src r (begin w)).1.world j ≡ entries w j)
  unfolding proxy session_refresh ends
  proxy_keeps r url w not_mine = (
    (get_access_token-Keeps src.env src.retrier src.session_config src.session_provider entries laws
          j apart quiet r.cookies not_mine).at
        w,
    if-both (λ (f : Reply W). entry (f (begin w)).1.world ≡ entry w) src.session_config.refresh
        (refresh_session src r) (ends (status 404)) (refresh_session_keeps r (begin w) not_mine)
        refl,
  )

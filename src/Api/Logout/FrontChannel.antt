-- ===== src/Api/Logout/FrontChannel.antt =====
-- What is left of a session after the provider has asked for a logout (pkg/handler/api/logoutfrontchannel).
use wonderwall.Base.{if◌then◌else◌, String, ◌≡◌, refl, sym, subst, none, inl, inr, ◌⊎◌}
use wonderwall.Http.{Request}
use wonderwall.OpenId.Client.Logout.{new_logout_frontchannel, missing_sid_parameter}
use wonderwall.Session.Store.{Entries, IsStore}
use wonderwall.Session.Id.{key}
use wonderwall.Session.Handler.{destroy_for_id}
use wonderwall.Session.Handler.Storage.{destroy_for_key_gone}
use wonderwall.Api.Answers.{Answer, status, Exchange, begin, ends, then_set}
use wonderwall.Api.Answers.Extension.{
  Extends, Includes, if-both, ends-Extends, then_set-Extends, on_error-Extends, on_error-both,
}
use wonderwall.Api.{StandardHandler}
use wonderwall.Api.Logout.{destroy_sid, logout_front_channel}
use wonderwall.Api.Logout.Endings.{cleared_session, clear_local-Includes, clear_local_rest}

module _ {W Held Jwks : Type 0} (src : StandardHandler W Held Jwks) where
  destroy_sid-Extends : (r : Request) (sid : String) → Extends (destroy_sid src r sid)
  unfolding destroy_sid
  destroy_sid-Extends r sid =
      on_error-Extends _ _ _ (λ _. ends-Extends _)
        λ _. on_error-Extends _ _ _ (λ _. ends-Extends _) λ _. then_set-Extends _ _ (ends-Extends _)

  module _ (entries : W → Entries) where
    -- The answer of a front-channel logout, and the entry of the session with this answer.
    abbrev pub Dismissed : String → Answer × Exchange W → Type 0
    Dismissed sid p =
        (p.0 ≡ status 202)
        ⊎ ((p.0 ≡ status 200) × (entries p.1.world (key src.session_provider sid) ≡ none))

  module _ (entries : W → Entries) (laws : IsStore src.env.store entries) where
    destroy_sid-Dismissed :
        (r : Request) (sid : String) (x : Exchange W)
        → Dismissed entries sid (destroy_sid src r sid x)
    unfolding destroy_sid ends then_set destroy_for_id
    destroy_sid-Dismissed r sid x =
        on_error-both (Dismissed entries sid) _ _ _ x (λ _ _. inl refl)
          λ d found.
            on_error-both (Dismissed entries sid) _ _ _ _ (λ _ _. inl refl)
              λ _ gone. inr (
                refl,
                destroy_for_key_gone src.env src.retrier src.session_config src.session_provider
                    entries laws (key src.session_provider sid) _ gone,
              )

    -- A front-channel logout always clears the session cookie. It answers 202, or else 200, and then the
    -- store has no entry for the session that the request names.
    pub logout_front_channel_answers :
        (r : Request) (w : W)
        → let result = logout_front_channel src r (begin w) in
          Includes (cleared_session src r) result.1.cookies
          × Dismissed entries (new_logout_frontchannel r).sid result
    unfolding logout_front_channel ends
    logout_front_channel_answers r w =
        let l = new_logout_frontchannel r in
        let missing = missing_sid_parameter l in
        let rest = if missing then ends (status 202) else destroy_sid src r l.sid in
        let (y, _, on) = clear_local_rest src r rest (begin w) in
        (
          clear_local-Includes src r rest (begin w) (
              if-both Extends missing _ _ (ends-Extends (status 202))
                (destroy_sid-Extends r l.sid)),
          subst (Dismissed entries l.sid) (sym on) (
              if-both (λ f. Dismissed entries l.sid (f y)) missing (ends (status 202))
                (destroy_sid src r l.sid) (inl refl) (destroy_sid-Dismissed r l.sid y)),
        )

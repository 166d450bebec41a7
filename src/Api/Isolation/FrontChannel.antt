-- ===== src/Api/Isolation/FrontChannel.antt =====
-- A logout by the provider changes no other session than the one it names
-- (pkg/handler/api/logoutfrontchannel).
use wonderwall.Base.{String, ◌==◌, ◌≡◌, ◌≢◌, refl, ◌∙◌, false}
use wonderwall.Http.{Request}
use wonderwall.OpenId.Client.Logout.{new_logout_frontchannel, missing_sid_parameter}
use wonderwall.Session.Id.{key}
use wonderwall.Session.Store.{Entries, IsStore}
use wonderwall.Session.Handler.{get_for_id, destroy_for_id}
use wonderwall.Session.Handler.Storage.{IsQuiet}
use wonderwall.Session.Handler.Isolation.{
  IsApart, get_for_key-Keeps, destroy_for_key-Keeps, different,
}
use wonderwall.Api.Answers.{Answer, Exchange, begin, Reply, ends, status, then_set, then_set_all}
use wonderwall.Api.Answers.Extension.{on_error-both, if-both}
use wonderwall.Api.{StandardHandler}
use wonderwall.Api.Logout.{clear_local, destroy_sid, logout_front_channel}

module _ {W Held Jwks : Type 0} (src : StandardHandler W Held Jwks) (entries : W → Entries)
    (laws : IsStore src.env.store entries) (j : String) (apart : IsApart src.env entries j)
    (quiet : IsQuiet src.retrier entries j) where
  -- The handler leaves the entry alone.
  abbrev SparesEntry : Reply W → Type 0
  SparesEntry f = (x : Exchange W) → entries (f x).1.world j ≡ entries x.world j

  clear_local_keeps :
      (r : Request) (rest : Reply W) → SparesEntry rest → SparesEntry (clear_local src r rest)
  unfolding clear_local then_set then_set_all
  clear_local_keeps r rest h x =
      if-both SparesEntry src.loginstatus.enabled _ rest (λ y. h (record y { cookies = _ })) h
        (record { world = x.world; cookies = _ })

  destroy_sid_keeps :
      (r : Request) (sid : String)
      → (key src.session_provider sid == j) ≡ false
      → SparesEntry (destroy_sid src r sid)
  unfolding destroy_sid ends then_set get_for_id destroy_for_id
  destroy_sid_keeps r sid other x =
      let k = key src.session_provider sid in
      let P : Answer × Exchange W → Type 0 = λ p. entries p.1.world j ≡ entries x.world j in
      let got =
        get_for_key-Keeps src.env src.retrier src.session_config src.session_provider entries laws j
          apart quiet k in
      let gone =
        destroy_for_key-Keeps src.env src.retrier src.session_config src.session_provider entries
          laws j apart quiet k other in
      on_error-both P _ _ _ x (λ _ _. got.at x.world)
        λ d _.
          on_error-both P _ _ _ _ (λ _ _. gone.at _ ∙ got.at x.world)
            λ _ _. gone.at _ ∙ got.at x.world

  -- A logout by the provider leaves the entry of every key alone but that of the session it names, as
  -- long as nobody else changes the entry and what is outside the store does not.
  pub logout_front_channel_keeps :
      (r : Request) (w : W)
      → key src.session_provider (new_logout_frontchannel r).sid ≢ j
      → entries (logout_front_channel src r (begin w)).1.world j ≡ entries w j
  unfolding logout_front_channel ends
  logout_front_channel_keeps r w other =
      let apart_key =
        different src.env src.retrier src.session_config src.session_provider entries laws j apart
          quiet (key src.session_provider (new_logout_frontchannel r).sid) other in
      clear_local_keeps r _
        (if-both SparesEntry (missing_sid_parameter (new_logout_frontchannel r)) (ends (status 202))
          (destroy_sid src r (new_logout_frontchannel r).sid) (λ _. refl)
          (destroy_sid_keeps r (new_logout_frontchannel r).sid apart_key))
        (begin w)

-- ===== src/Api/Logout/Endings.antt =====
-- What is left of a session after a logout that its user asked for (pkg/handler/api/logout).
use wonderwall.Base.{
  if◌then◌else◌, Bool, String, ◌≡◌, refl, sym, subst, ap, ◌∙◌, true, false, [], ◌∷◌, ◌++◌, none, ok,
  err, arith, Bool-cases, inl, inr, ◌⊎◌, key_not_found, Error,
}
use wonderwall.Http.{Request, HttpCookie}
use wonderwall.Cookie
use wonderwall.Cookie.{clear}
use wonderwall.ErrorHandler.{Outcome}
use wonderwall.Loginstatus.{clear_cookie}
use wonderwall.OpenId.Client.Logout.{Logout, new_logout, single_logout_url}
use wonderwall.Session.Data.{Data}
use wonderwall.Session.Store.{Entries, IsStore}
use wonderwall.Session.Id.{key}
use wonderwall.Session.Handler.{get, destroy_for_id}
use wonderwall.Session.Handler.Storage.{destroy_for_key_gone}
use wonderwall.Api.Answers.{
  Answer, status, redirect, failed, Exchange, begin, Reply, ends, then_set, then_set_all, on_result,
}
use wonderwall.Api.Answers.Extension.{
  Extends, Includes, if-both, ends-Extends, then_set_all-Extends, on_error-both, then_set-Includes,
}
use wonderwall.Api.{internal_error, StandardHandler, get_cookie_opts_path_aware}
use wonderwall.Api.Failures.{respond_answer}
use wonderwall.Api.Logout.{unless_gone, clear_local, destroy_found, end_logout, logout}

-- Two endings without further effects.
if_ends :
    {W : Type 0} (b : Bool) (f g : Answer) (y : Exchange W)
    → (if b then ends f else ends g) y ≡ (if b then f else g, y)
unfolding ends
if_ends true f g y = refl
if_ends false f g y = refl

module _ {W Held Jwks : Type 0} (src : StandardHandler W Held Jwks) where
  abbrev pub cleared_session : Request → HttpCookie
  cleared_session r = clear Cookie.session (get_cookie_opts_path_aware src r)

  unless_gone-cases :
      (r : Request) (rest : Reply W) (e : Error)
      → ((e ≡ key_not_found) × (unless_gone src r rest e ≡ rest))
        ⊎ (unless_gone src r rest e ≡ internal_error src r)
  unless_gone-cases r rest e = ground arith

  pub clear_local-Includes :
      (r : Request) (rest : Reply W) (x : Exchange W)
      → Extends rest
      → Includes (cleared_session r) (clear_local src r rest x).1.cookies
  unfolding clear_local
  clear_local-Includes r rest x h =
      then_set-Includes (cleared_session r) _ x
        (if-both Extends src.loginstatus.enabled _ _ (then_set_all-Extends _ rest h) h)

  -- Clearing cookies leaves the answer and the world of the rest.
  pub clear_local_rest :
      (r : Request) (rest : Reply W) (x : Exchange W)
      → (y : Exchange W) × (y.world ≡ x.world) × (clear_local src r rest x ≡ rest y)
  unfolding clear_local then_set then_set_all
  clear_local_rest r rest x = elim (Bool-cases src.loginstatus.enabled) [
    | inl on ↦ (
      record {
        world = x.world;
        cookies =
            (x.cookies ++ cleared_session r ∷ [])
            ++ clear_cookie src.loginstatus src.cookie_options;
      },
      refl,
      ground arith,
    )
    | inr off ↦ (
      record { world = x.world; cookies = x.cookies ++ cleared_session r ∷ [] },
      refl,
      ground arith,
    )
  ]

  -- The answer of a logout that goes through.
  abbrev pub logout_answer : Bool → Logout → String → Answer
  logout_answer global_logout l id_token =
      if global_logout
      then redirect (
          single_logout_url src.client.urls src.parse_query src.open_id.end_session_endpoint_url l
            id_token)
      else status 200

  -- A logout that went through, of a session with this ID token: it cleared the session cookie, and its
  -- answer is a redirect to the provider with the ID token, or 200 if the logout is local.
  pub record IsLoggedOut (global_logout : Bool) (r : Request) (id_token : String)
      (p : Answer × Exchange W) : Type 0 where
    pub l : Logout
    pub made : new_logout src.client.urls r ≡ ok l
    pub cleared : Includes (cleared_session r) p.1.cookies
    pub answered : p.0 ≡ logout_answer global_logout l id_token

  end_logout-IsLoggedOut :
      (global_logout : Bool) (r : Request) (l : Logout) (id_token : String) (x : Exchange W)
      → new_logout src.client.urls r ≡ ok l
      → (end_logout src global_logout r l id_token x).1.world ≡ x.world
        × IsLoggedOut global_logout r id_token (end_logout src global_logout r l id_token x)
  unfolding end_logout
  end_logout-IsLoggedOut global_logout r l id_token x made =
      let away = redirect (
        single_logout_url src.client.urls src.parse_query src.open_id.end_session_endpoint_url l
          id_token) in
      let rest = if global_logout then ends away else ends (status 200) in
      let (y, same, on) = clear_local_rest r rest x in
      let done = on ∙ if_ends global_logout away (status 200) y in
      (
        ap (λ p. p.1.world) done ∙ same,
        record {
          l = l;
          made = made;
          cleared =
              clear_local-Includes r rest x
                (if-both Extends global_logout _ _ (ends-Extends away) (ends-Extends (status 200)));
          answered = ap (λ p. p.0) done;
        },
      )

  module _ (entries : W → Entries) where
    -- How a logout of a session ends, which `Get` found and left the world `u`: it fails, with an answer
    -- of the error handler, or it goes through, and the store has no entry for the session or knew of
    -- none when asked to delete it.
    abbrev pub LogoutEnds : Bool → Request → Data → W → Answer × Exchange W → Type 0
    LogoutEnds global_logout r d u p =
        ((out : Outcome) × (p.0 ≡ failed out))
        ⊎ (IsLoggedOut global_logout r d.id_token p
            × ((entries p.1.world (key src.session_provider d.external_session_id) ≡ none)
                ⊎ ((destroy_for_id src.env src.retrier src.session_config src.session_provider
                      d.external_session_id u).0
                    ≡ err key_not_found)))

  module _ (entries : W → Entries) (laws : IsStore src.env.store entries) where
    destroy_found-LogoutEnds :
        (global_logout : Bool) (r : Request) (l : Logout) (d : Data) (x : Exchange W)
        → new_logout src.client.urls r ≡ ok l
        → LogoutEnds entries global_logout r d x.world
            (destroy_found src r (end_logout src global_logout r l) (ok d) x)
    unfolding destroy_found destroy_for_id
    destroy_found-LogoutEnds global_logout r l d x made =
        let k = key src.session_provider d.external_session_id in
        let P = LogoutEnds entries global_logout r d x.world in
        let after : Exchange W = record {
          world =
              (destroy_for_id src.env src.retrier src.session_config src.session_provider
                d.external_session_id x.world).1;
          cookies = x.cookies;
        } in
        on_error-both P _ _ _ x
          (λ e failed_with.
            elim (unless_gone-cases r (end_logout src global_logout r l d.id_token) e) [
              | inl (missing, on) ↦
                  let (_, out) = end_logout-IsLoggedOut global_logout r l d.id_token _ made in
                  subst (λ f. P (f after)) (sym on) (inr (out, inr (failed_with ∙ ap err missing)))
              | inr off ↦ subst (λ f. P (f after)) (sym off) (inl (_, respond_answer src 500 r _))
            ])
          λ _ gone.
            let (same, out) = end_logout-IsLoggedOut global_logout r l d.id_token _ made in
            inr (
              out,
              inl (
                  ap (λ v. entries v k) same
                  ∙ destroy_for_key_gone src.env src.retrier src.session_config src.session_provider
                      entries laws k _ gone),
            )

    -- A logout of a session that `Get` found fails, with an answer of the error handler; or it clears the
    -- session cookie and redirects to the provider with the session's ID token, or answers 200 if it is
    -- local, and then the store has no entry for the session or knew of none when asked to delete it.
    pub logout-LogoutEnds :
        (global_logout : Bool) (r : Request) (w : W) (d : Data)
        → (get src.env src.retrier src.session_config src.session_provider r.cookies w).0 ≡ ok d
        → LogoutEnds entries global_logout r d
            (get src.env src.retrier src.session_config src.session_provider r.cookies w).1
            (logout src global_logout r (begin w))
    unfolding logout on_result
    logout-LogoutEnds global_logout r w d found =
        let got = get src.env src.retrier src.session_config src.session_provider r.cookies w in
        let P = LogoutEnds entries global_logout r d got.1 in
        on_error-both P _ _ _ (begin w) (λ _ _. inl (_, respond_answer src 500 r _))
          λ l made.
            subst
              (λ q. P (
                destroy_found src r (end_logout src global_logout r l) q
                  (record { world = got.1; cookies = [] })))
              (sym found) (destroy_found-LogoutEnds global_logout r l d _ made)

-- ===== src/OpenId/Client/Login/Requests.antt =====
-- What a login asks of the provider (pkg/openid/client/login.go).
use mathlib.Core.List.{append_assoc, append-nil}
use wonderwall.Base.{
  String, ◌==◌, ◌≡◌, ◌⊎◌, inl, inr, true, List, [], ◌∷◌, ◌++◌, Bool-cases, Result, ok, Result-cases,
  contains, arith, eq_iff, ap, sym, refl, ◌∙◌, if◌then◌else◌, replace_error, ◌>>=◌,
}
use wonderwall.Base.Action.{Action}
use wonderwall.Http.{Url, Pairs, Request, get}
use wonderwall.Redirect.{login_callback_url}
use wonderwall.OpenId.Config.{ProviderMetadata, Provider, new_provider_config}
use wonderwall.OpenId.Config.Accepted.{Accepted, new_provider_config-Accepted}
use wonderwall.Loginstatus.{needs_resource_indicator}
use wonderwall.OpenId.Client.Login.{
  Setup, Login, LoginParameters, login_url_parameter, with_param_mapping, with_security_level,
  with_locale, auth_code_options, auth_code_url, new_login, new_login_parameters, login_with,
  code_challenge, base_options,
}

-- A login parameter is either left out, because none is configured, or its value is one that the
-- provider lists: the one of the request, or the configured one where the request has none.
pub with_param_mapping_supported :
    (r : Request) (opts : Pairs) (param mapped fallback : String) (supported : List String)
    (out : Pairs)
    → with_param_mapping r opts param mapped fallback supported ≡ ok out
    → ((fallback ≡ "") × (out ≡ opts))
      ⊎ ((v : String) × (contains supported v ≡ true)
          × (out ≡ opts ++ (mapped, v) ∷ [])
          × ((v ≡ get r.query param) ⊎ ((get r.query param ≡ "") × (v ≡ fallback))))
unfolding with_param_mapping login_url_parameter
with_param_mapping_supported r opts param mapped fallback supported out h =
    elim (Bool-cases (fallback == "")) [
      | inl t ↦ inl ((eq_iff fallback "").0 t, ground arith)
      | inr f ↦ elim (Bool-cases (get r.query param == "")) [
        | inl t ↦ elim (Bool-cases (contains supported fallback)) [
          | inl c ↦ inr (fallback, c, ground arith, inr ((eq_iff (get r.query param) "").0 t, refl))
          | inr n ↦ absurd (ground arith)
        ]
        | inr g ↦ elim (Bool-cases (contains supported (get r.query param))) [
          | inl c ↦ inr (get r.query param, c, ground arith, inl refl)
          | inr n ↦ absurd (ground arith)
        ]
      ]
    ]

Accepted-mapping :
    (r : Request) (opts : Pairs) (param mapped fallback : String) (supported : List String)
    → Accepted fallback supported
    → get r.query param ≡ ""
    → (out : Pairs) × (with_param_mapping r opts param mapped fallback supported ≡ ok out)
unfolding with_param_mapping login_url_parameter
Accepted-mapping r opts param mapped fallback supported (inl e) n = (opts, rw e refl)
Accepted-mapping r opts param mapped fallback supported (inr c) n =
    elim (Bool-cases (fallback == "")) [
      | inl t ↦ (opts, ground arith)
      | inr f ↦ (
        opts ++ (mapped, fallback) ∷ [],
        rw (f, if◌then◌else◌) (rw n (rw (c, if◌then◌else◌, ◌>>=◌) refl)),
      )
    ]

abbrev Extends : Pairs → Pairs → Type 0
Extends xs ys = (rest : Pairs) × (ys ≡ xs ++ rest)

Extends-trans : (xs : Pairs) {ys zs : Pairs} → Extends xs ys → Extends ys zs → Extends xs zs
Extends-trans xs (r, e) (q, k) = (r ++ q, k ∙ ap (λ l. l ++ q) e ∙ append_assoc xs r q)

Extends-mapping :
    (r : Request) (opts : Pairs) (param mapped fallback : String) (supported : List String)
    (out : Pairs)
    → with_param_mapping r opts param mapped fallback supported ≡ ok out
    → Extends opts out
Extends-mapping r opts param mapped fallback supported out h =
    elim (with_param_mapping_supported r opts param mapped fallback supported out h) [
      | inl (e, same) ↦ ([], same ∙ sym (append-nil opts))
      | inr (v, listed, same, from) ↦ ((mapped, v) ∷ [], same)
    ]

module _ {W : Type 0} (c : Setup W) where
  -- With a configuration that start-up accepted, a login that asks for no level and no locale is
  -- never refused for its parameters.
  pub auth_code_options_default :
      {V : Type 0} (parse_url : String → Result Url) (fetch : String → Action V ProviderMetadata)
      (v : V) (provider : Provider) (p : LoginParameters) (r : Request) (callback_url : String)
      → (new_provider_config parse_url fetch c.open_id v).0 ≡ ok provider
      → c.metadata ≡ provider.metadata
      → get r.query "level" ≡ ""
      → get r.query "locale" ≡ ""
      → (opts : Pairs) × (auth_code_options c p r callback_url ≡ ok opts)
  unfolding auth_code_options with_security_level with_locale
  auth_code_options_default parse_url fetch v provider p r callback_url h same level locale =
      let (acr, ui, name) = new_provider_config-Accepted parse_url fetch c.open_id v provider h in
      let acr' : Accepted c.open_id.acr_values c.metadata.acr_values_supported = rw same acr in
      let ui' : Accepted c.open_id.ui_locales c.metadata.ui_locales_supported = rw same ui in
      let (o₁, e₁) =
        Accepted-mapping r (base_options c p callback_url) "level" "acr_values" _ _ acr' level in
      let (o₂, e₂) = Accepted-mapping r o₁ "locale" "ui_locales" _ _ ui' locale in
      (o₂, rw (e₁, replace_error) (rw (e₂, replace_error) refl))

  -- The options before those that depend on the configuration and the request.
  abbrev fixed_options : LoginParameters → String → Pairs
  fixed_options p callback_url =
      ("nonce", p.nonce)
      ∷ ("response_mode", "query")
      ∷ ("code_challenge", p.code_challenge)
      ∷ ("code_challenge_method", "S256")
      ∷ ("redirect_uri", callback_url)
      ∷ []

  base_options-Extends :
      (p : LoginParameters) (callback_url : String)
      → Extends (fixed_options p callback_url) (base_options c p callback_url)
  base_options-Extends p callback_url = elim (Bool-cases (needs_resource_indicator c.loginstatus)) [
    | inl t ↦ (("resource", c.loginstatus.resource_indicator) ∷ [], rw (t, if◌then◌else◌) refl)
    | inr f ↦ ([], rw (f, if◌then◌else◌) refl)
  ]

  options_start :
      (p : LoginParameters) (r : Request) (callback_url : String) (opts : Pairs)
      → auth_code_options c p r callback_url ≡ ok opts
      → Extends (fixed_options p callback_url) opts
  unfolding auth_code_options
  options_start p r callback_url opts h =
      let base = base_options c p callback_url in
      elim (Result-cases (with_security_level c r base)) [
        | inr (x, e) ↦ absurd (ground arith)
        | inl (o, e) ↦ elim (Result-cases (with_locale c r o)) [
          | inr (x, k) ↦ absurd (ground arith)
          | inl (q, k) ↦
              let same : opts ≡ q = ground arith in
              rw same (
                Extends-trans (fixed_options p callback_url) (base_options-Extends p callback_url) (
                  Extends-trans base
                    (Extends-mapping r base "level" "acr_values" c.open_id.acr_values
                      c.metadata.acr_values_supported o (unfold with_security_level in e))
                    (Extends-mapping r o "locale" "ui_locales" c.open_id.ui_locales
                      c.metadata.ui_locales_supported q (unfold with_locale in k))))
        ]
      ]

  login_with_cookie :
      (r : Request) (p : LoginParameters) (l : Login)
      → p.code_challenge ≡ code_challenge c p.code_verifier
      → login_with c r p ≡ ok l
      → (opts : Pairs) × (l.auth_code_url ≡ c.auth_code_url l.cookie.state opts)
        × (get opts "nonce" ≡ l.cookie.nonce)
        × (get opts "code_challenge" ≡ code_challenge c l.cookie.code_verifier)
        × (get opts "redirect_uri" ≡ l.cookie.redirect_uri)
        × (login_callback_url c.urls r ≡ ok l.cookie.redirect_uri)
  unfolding login_with auth_code_url get
  login_with_cookie r p l challenge h = elim (Result-cases (login_callback_url c.urls r)) [
    | inr (x, e) ↦ absurd (ground arith)
    | inl (url, e) ↦ elim (Result-cases (auth_code_options c p r url)) [
      | inr (x, k) ↦ absurd (ground arith)
      | inl (opts, k) ↦
          let (rest, same) = options_start p r url opts k in
          let start : (get opts "nonce" ≡ p.nonce)
              × (get opts "code_challenge" ≡ p.code_challenge)
              × (get opts "redirect_uri" ≡ url) =
            rw same (refl, refl, refl) in
          (
            opts,
            ground arith,
            ground (arith, start.0),
            ground (arith, start.1, challenge),
            ground (arith, start.2),
            ground arith,
          )
    ]
  ]

  new_login_parameters_challenge :
      (w : W) (p : LoginParameters)
      → (new_login_parameters c w).0 ≡ ok p
      → p.code_challenge ≡ code_challenge c p.code_verifier
  unfolding new_login_parameters
  new_login_parameters_challenge w p h = ground arith

  -- The cookie of a successful login holds what the URL at the provider was made of: its state, its
  -- nonce, the verifier of its code challenge and its callback.
  pub new_login_cookie :
      (r : Request) (w : W) (l : Login)
      → (new_login c r w).0 ≡ ok l
      → (opts : Pairs) × (l.auth_code_url ≡ c.auth_code_url l.cookie.state opts)
        × (get opts "nonce" ≡ l.cookie.nonce)
        × (get opts "code_challenge" ≡ code_challenge c l.cookie.code_verifier)
        × (get opts "redirect_uri" ≡ l.cookie.redirect_uri)
        × (login_callback_url c.urls r ≡ ok l.cookie.redirect_uri)
  unfolding new_login
  new_login_cookie r w l h = elim (Result-cases (new_login_parameters c w).0) [
    | inr (x, e) ↦ absurd (ground arith)
    | inl (p, e) ↦
        let made : login_with c r p ≡ ok l = ground arith in
        let challenge : p.code_challenge ≡ code_challenge c p.code_verifier =
          new_login_parameters_challenge w p e in
        login_with_cookie r p l challenge made
  ]

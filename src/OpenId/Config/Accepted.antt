-- ===== src/OpenId/Config/Accepted.antt =====
-- The configurations that pass the checks at start-up (pkg/openid/config).
use wonderwall.Base.{
  String, ◌==◌, ◌≡◌, ◌⊎◌, inl, inr, true, List, Bool-cases, Result, ok, Result-cases, contains,
  arith, eq_iff,
}
use wonderwall.Base.Action.{Action}
use wonderwall.Http.{Url}
use wonderwall.OpenId.Config.{
  OpenId, ProviderMetadata, Provider, refuse_unsupported, checked_provider, new_provider_config,
}

-- The value is not configured, or the provider lists it.
abbrev pub Accepted : String → List String → Type 0
Accepted value supported = (value ≡ "") ⊎ (contains supported value ≡ true)

refuse_unsupported-Accepted :
    (value : String) (supported : List String)
    → refuse_unsupported value supported ≡ ok tt
    → Accepted value supported
unfolding refuse_unsupported
refuse_unsupported-Accepted value supported h = elim (Bool-cases (value == "")) [
  | inl t ↦ inl ((eq_iff value "").0 t)
  | inr f ↦ elim (Bool-cases (contains supported value)) [
    | inl t ↦ inr t
    | inr g ↦ absurd (ground arith)
  ]
]

-- A provider that start-up accepts lists the configured security level and locale, where they are
-- configured, and has the configured name.
pub new_provider_config-Accepted :
    {W : Type 0} (parse_url : String → Result Url) (fetch : String → Action W ProviderMetadata)
    (cfg : OpenId) (w : W) (p : Provider)
    → (new_provider_config parse_url fetch cfg w).0 ≡ ok p
    → Accepted cfg.acr_values p.metadata.acr_values_supported
      × Accepted cfg.ui_locales p.metadata.ui_locales_supported
      × (p.name ≡ cfg.provider)
unfolding new_provider_config checked_provider
new_provider_config-Accepted parse_url fetch cfg w p h =
    elim (Result-cases (fetch cfg.well_known_url w).0) [
      | inr (x, e) ↦ ground arith
      | inl (m, e) ↦
          elim (Result-cases (refuse_unsupported cfg.acr_values m.acr_values_supported)) [
            | inr (x, ha) ↦ ground arith
            | inl (tt, ha) ↦
                elim (Result-cases (refuse_unsupported cfg.ui_locales m.ui_locales_supported)) [
                  | inr (x, hu) ↦ ground arith
                  | inl (tt, hu) ↦
                      let same : p.metadata ≡ m = ground arith in
                      rw same (
                        refuse_unsupported-Accepted _ _ ha,
                        refuse_unsupported-Accepted _ _ hu,
                        ground arith,
                      )
                ]
          ]
    ]

-- ===== src/Config/Configured.antt =====
-- What a configuration that `Initialize` returns has (pkg/config/config.go).
use wonderwall.Base.{
  subst, String, ◌==◌, ◌≡◌, ◌≢◌, ◌∙◌, ◌⊎◌, inl, inr, refl, sym, ap, Bool-cases, Result-cases, true,
  false, ok, Result, eq_refl, eq_iff, arith,
}
use wonderwall.Logging.{Formatter, setup, formatter}
use wonderwall.Config.{Config, open_id_provider, validate}
use wonderwall.Config.Initialize.{
  Libraries, FileRead, read, not_found, unreadable, returned, azure_flags, idporten_flags,
  choose_provider, accept, settle, after_file, initialize, parsed,
}

-- What is relied on of viper and conftools: a value that is set is the one that is read, binding a variable and
-- setting a default have no effect on the other keys, and a configuration is loaded with the values read.
pub record IsLibraries {V Level : Type 0} (lib : Libraries V Level) : Type 0 where
  pub set_value : (k x : String) (v : V) → lib.get_string (lib.set k x v) k ≡ x
  pub bind_keeps :
      (k e j : String) (v : V)
      → (k == j) ≡ false
      → lib.get_string (lib.bind_env k e v) j ≡ lib.get_string v j
  pub default_keeps :
      (k x j : String) (v : V)
      → (k == j) ≡ false
      → lib.get_string (lib.set_default k x v) j ≡ lib.get_string v j
  pub loaded_provider :
      (v : V) (c : Config)
      → lib.load v ≡ ok c
      → c.open_id.provider ≡ lib.get_string v open_id_provider

-- The provider asked for, if it has a configuration of its own, else the general one.
abbrev pub Settled : String → String → Type 0
Settled asked p =
    ((asked ≡ "idporten") × (p ≡ "idporten"))
    ⊎ ((asked ≡ "azure") × (p ≡ "azure"))
    ⊎ ((asked ≢ "idporten") × (asked ≢ "azure") × (p ≡ "openid"))

pub record IsConfigured {V Level : Type 0} (lib : Libraries V Level) (bound : V) (c : Config)
    : Type 0 where
  pub provider : Settled (lib.get_string bound open_id_provider) c.open_id.provider
  pub refresh : (c.session.inactivity ≡ false) ⊎ (c.session.refresh ≡ true)
  pub log_format : (c.log_format ≡ "json") ⊎ (c.log_format ≡ "text")

validate_ok :
    (c : Config) → validate c ≡ ok tt → (c.session.inactivity ≡ false) ⊎ (c.session.refresh ≡ true)
unfolding validate
validate_ok c h = elim (Bool-cases c.session.inactivity) [
  | inr e ↦ inl e
  | inl e ↦ elim (Bool-cases c.session.refresh) [ inl r ↦ inr r | inr r ↦ absurd (ground arith) ]
]

formatter_ok :
    (format : String) (r : Formatter)
    → formatter format ≡ ok r
    → (format ≡ "json") ⊎ (format ≡ "text")
unfolding formatter
formatter_ok format r h = elim (Bool-cases (format == "json")) [
  | inl e ↦ inl ((eq_iff format "json").0 e)
  | inr e ↦ elim (Bool-cases (format == "text")) [
    | inl t ↦ inr ((eq_iff format "text").0 t)
    | inr t ↦ absurd (ground arith)
  ]
]

setup_ok :
    {Level : Type 0} (parse_level : String → Result Level) (level format : String)
    (r : Formatter × Level)
    → setup parse_level level format ≡ ok r
    → (format ≡ "json") ⊎ (format ≡ "text")
unfolding setup
setup_ok parse_level level format r h = elim (Result-cases (formatter format)) [
  | inl (f, e) ↦ formatter_ok format f e
  | inr (x, e) ↦ absurd (ground arith)
]

module _ {V Level : Type 0} (lib : Libraries V Level) (laws : IsLibraries lib) where
  idporten_flags_keep :
      (v : V)
      → lib.get_string (idporten_flags lib v) open_id_provider ≡ lib.get_string v open_id_provider
  idporten_flags_keep v =
      laws.default_keeps _ _ open_id_provider _ refl
      ∙ laws.default_keeps _ _ open_id_provider _ refl
      ∙ laws.default_keeps _ _ open_id_provider _ refl
      ∙ laws.bind_keeps _ _ open_id_provider _ refl
      ∙ laws.bind_keeps _ _ open_id_provider _ refl
      ∙ laws.bind_keeps _ _ open_id_provider _ refl

  azure_flags_keep :
      (v : V)
      → lib.get_string (azure_flags lib v) open_id_provider ≡ lib.get_string v open_id_provider
  azure_flags_keep v =
      laws.bind_keeps _ _ open_id_provider _ refl
      ∙ laws.bind_keeps _ _ open_id_provider _ refl
      ∙ laws.bind_keeps _ _ open_id_provider _ refl

  choose_provider-Settled :
      (v : V)
      → Settled
          (lib.get_string v open_id_provider)
          (lib.get_string (choose_provider lib v) open_id_provider)
  unfolding choose_provider
  choose_provider-Settled v =
      let asked = lib.get_string v open_id_provider in
      elim (Bool-cases (asked == "idporten")) [
        | inl e ↦
            let is = (eq_iff asked "idporten").0 e in inl (is, rw e (idporten_flags_keep v ∙ is))
        | inr e ↦ elim (Bool-cases (asked == "azure")) [
          | inl a ↦
              let is = (eq_iff asked "azure").0 a in
              inr (inl (is, rw e (rw a (azure_flags_keep v ∙ is))))
          | inr a ↦ inr (
              inr (
                (λ is. ground (arith, eq_refl "idporten", ap (λ t. t == "idporten") is)),
                (λ is. ground (arith, eq_refl "azure", ap (λ t. t == "azure") is)),
                rw e (rw a (laws.set_value open_id_provider "openid" v)),
              ))
        ]
      ]

  accept-fields :
      (v : V) (c : Config)
      → accept lib v ≡ ok c
      → (lib.load v ≡ ok c)
        × (validate c ≡ ok tt)
        × ((c.log_format ≡ "json") ⊎ (c.log_format ≡ "text"))
  unfolding accept
  accept-fields v c h = elim (Result-cases (lib.load v)) [
    | inr (x, e) ↦ absurd (ground arith)
    | inl (d, e) ↦ elim (Result-cases (setup lib.parse_level d.log_level d.log_format)) [
      | inr (x, s) ↦ absurd (ground arith)
      | inl (r, s) ↦ elim (Result-cases (validate d)) [
        | inr (x, t) ↦ absurd (ground arith)
        | inl (u, t) ↦
            let same : d ≡ c = ground arith in
            (
              e ∙ ap ok same,
              ap validate (sym same) ∙ t,
              subst (λ (x : Config). (x.log_format ≡ "json") ⊎ (x.log_format ≡ "text")) same
                  (setup_ok lib.parse_level d.log_level d.log_format r s),
            )
      ]
    ]
  ]

  settle-IsConfigured :
      (v : V) (c : Config)
      → settle lib v ≡ ok c
      → (b : V) × (lib.bind_flags v ≡ ok b) × IsConfigured lib b c
  unfolding settle
  settle-IsConfigured v c h = elim (Result-cases (lib.bind_flags v)) [
    | inr (x, e) ↦ absurd (ground arith)
    | inl (b, e) ↦
        let chosen = choose_provider lib b in
        let (loaded, valid, format) = accept-fields chosen c (ground arith) in
        (
          b,
          e,
          record {
            provider =
                subst (Settled (lib.get_string b open_id_provider))
                  (sym (laws.loaded_provider chosen c loaded)) (choose_provider-Settled b);
            refresh = validate_ok c valid;
            log_format = format;
          },
        )
  ]

  after_file-IsConfigured :
      (f : FileRead) (v : V) (c : Config)
      → after_file lib (f, v) ≡ returned (ok c)
      → (f ≢ unreadable) × ((b : V) × (lib.bind_flags v ≡ ok b) × IsConfigured lib b c)
  unfolding after_file
  after_file-IsConfigured read v c h = ((λ e. cc), settle-IsConfigured v c (ground arith))
  after_file-IsConfigured not_found v c h = ((λ e. cc), settle-IsConfigured v c (ground arith))
  after_file-IsConfigured unreadable v c h = cc

  -- If `Initialize` returns a configuration.
  pub initialize-IsConfigured :
      (v : V) (c : Config)
      → initialize lib v ≡ returned (ok c)
      → let (f, w) = lib.read_in_config (parsed lib v) in
        (f ≢ unreadable) × ((b : V) × (lib.bind_flags w ≡ ok b) × IsConfigured lib b c)
  unfolding initialize
  initialize-IsConfigured v c h =
      let (f, w) = lib.read_in_config (parsed lib v) in after_file-IsConfigured f w c h

-- ===== src/Config/Initialize.antt =====
-- `Initialize` of pkg/config/config.go, with the files of the providers. The libraries pflag, viper and
-- conftools, with the arguments, the environment and the configuration file of the process, are parameters;
-- a command line that does not parse ends the process in pflag. Printing the configuration is left out.
use wonderwall.Base.{String, ◌==◌, [], ◌∷◌, Result, ok, if◌then◌else◌, ◌>>=◌}
use wonderwall.Logging.{setup}
use wonderwall.Config.{Config, Default, Flags, open_id_provider, flags, validate}

-- What becomes of reading the configuration file.
pub data FileRead : Type 0 where
  read not_found unreadable : FileRead

-- `V` is the state of the libraries.
pub record Libraries (V Level : Type 0) : Type 0 where
  pub initialize : String → V → V
  pub define : String → Default → V → V
  pub parse : V → V
  pub read_in_config : V → FileRead × V
  pub bind_flags : V → Result V
  pub get_string : V → String → String
  pub set : String → String → V → V
  pub set_default : String → String → V → V
  pub bind_env : String → String → V → V
  pub load : V → Result Config
  pub parse_level : String → Result Level

-- A call either returns or panics.
pub data Outcome (A : Type 0) : Type 0 where
  panicked : Outcome A
  returned : Result A → Outcome A

module _ {V Level : Type 0} (lib : Libraries V Level) where
  unfoldable pub define_all : Flags → V → V
  define_all [] v = v
  define_all ((name, value) ∷ rest) v = define_all rest (lib.define name value v)

  abbrev pub azure_flags : V → V
  azure_flags v = lib.bind_env "openid.well-known-url" "AZURE_APP_WELL_KNOWN_URL" (
      lib.bind_env "openid.client-jwk" "AZURE_APP_JWK"
        (lib.bind_env "openid.client-id" "AZURE_APP_CLIENT_ID" v))

  abbrev pub idporten_flags : V → V
  idporten_flags v =
      let bound = lib.bind_env "openid.well-known-url" "IDPORTEN_WELL_KNOWN_URL" (
        lib.bind_env "openid.client-jwk" "IDPORTEN_CLIENT_JWK"
          (lib.bind_env "openid.client-id" "IDPORTEN_CLIENT_ID" v)) in
      lib.set_default "openid.ui-locales" "nb" (
        lib.set_default "openid.acr-values" "Level4" (
          lib.set_default "openid.post-logout-redirect-uri" "https://www.nav.no/no/utlogget" bound))

  -- The `switch` on the provider.
  unfoldable pub choose_provider : V → V
  choose_provider v =
      if lib.get_string v open_id_provider == "idporten"
      then idporten_flags v
      else if lib.get_string v open_id_provider == "azure"
      then azure_flags v
      else lib.set open_id_provider "openid" v

  -- From `conftools.Load` on.
  unfoldable pub accept : V → Result Config
  accept v = do
    c ← lib.load v
    log ← setup lib.parse_level c.log_level c.log_format
    valid ← validate c
    ok c

  -- From `viper.BindPFlags` on.
  unfoldable pub settle : V → Result Config
  unfolding choose_provider accept
  settle v = do bound ← lib.bind_flags v; accept (choose_provider bound)

  -- The single-value assertion `err.(viper.ConfigFileNotFoundError)` panics on every other error.
  unfoldable pub after_file : FileRead × V → Outcome Config
  unfolding settle
  after_file (read, v) = returned (settle v)
  after_file (not_found, v) = returned (settle v)
  after_file (unreadable, v) = panicked

  -- The libraries when the configuration file is read.
  unfoldable pub parsed : V → V
  unfolding define_all
  parsed v = lib.parse (define_all flags (lib.initialize "wonderwall" v))

  unfoldable pub initialize : V → Outcome Config
  unfolding parsed after_file
  initialize v = after_file (lib.read_in_config (parsed v))

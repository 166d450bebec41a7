-- ===== src/Logging.antt =====
-- pkg/logging/logging.go: which format and level the logs get. Reading the name of a level is logrus's.
use wonderwall.Base.{String, ◌==◌, Result, ok, err, other, if◌then◌else◌, ◌>>=◌}

pub data Formatter : Type 0 where
  json_formatter text_formatter : Formatter

unfoldable pub formatter : String → Result Formatter
formatter format =
    if format == "json"
    then ok json_formatter
    else if format == "text"
    then ok text_formatter
    else err other

-- The formatter and the level that `Setup` sets.
unfoldable pub setup :
    {Level : Type 0} → (String → Result Level) → String → String → Result (Formatter × Level)
unfolding formatter
setup parse_level level format = do f ← formatter format; l ← parse_level level; ok (f, l)

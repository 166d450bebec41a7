-- ===== src/Random.antt =====
-- pkg/strings/generator.go. `random` is io.ReadFull(rand.Reader, …), which fills a slice of the length
-- given, and `raw_url` is base64.RawURLEncoding.EncodeToString.
use wonderwall.Base.{ℕ, String}
use wonderwall.Base.Action.{Action, pure, ◌>>=◌}
use wonderwall.Http.{Bytes}

unfoldable pub generate_base64 :
    {W : Type 0} → (ℕ → Action W Bytes) → (Bytes → String) → ℕ → Action W String
generate_base64 random raw_url length = do bytes ← random length; pure (raw_url bytes)

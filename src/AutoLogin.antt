-- ===== src/AutoLogin.antt =====
-- pkg/handler/autologin/autologin.go: which requests without a session are sent to the login.
pub mod Patterns
use Prim.Native.String.{◌++◌ as append}
use wonderwall.Base.{
  String, ◌==◌, starts_with, Bool, true, false, not, ◌||◌, List, [], ◌∷◌, ◌++◌, contains,
  if◌then◌else◌,
}
use wonderwall.Http.{Request}
use wonderwall.Slashes.{trim_suffix}

abbrev pub default_ignore_patterns : List String
default_ignore_patterns = "/favicon.ico" ∷ "/robots.txt" ∷ []

pub record AutoLogin : Type 0 where
  pub enabled : Bool
  pub ignore_patterns : List String

abbrev pub without_slash : String → String
without_slash path = if path == "/" then path else trim_suffix path

-- The path that the patterns are matched with.
abbrev pub normalized : String → String
normalized path = without_slash (if starts_with path "/" then path else append "/" path)

-- `matches` is doublestar.Match, whose error counts as no match.
module _ (matches : String → String → Bool) where
  ignored : List String → String → Bool
  ignored [] path = false
  ignored (glob ∷ rest) path = if matches glob (normalized path) then true else ignored rest path

  unfoldable pub needs_login : AutoLogin → Request → Bool → Bool
  unfolding ignored
  needs_login a r is_authenticated =
      if is_authenticated || not a.enabled || not (r.method == "GET")
      then false
      else not (ignored a.ignore_patterns r.path)

-- The loop of `New`.
collect : List String → List String → List String
collect [] patterns = patterns
collect (path ∷ rest) patterns = collect rest (
    if path == "" || contains patterns (without_slash path)
    then patterns
    else patterns ++ without_slash path ∷ [])

unfoldable pub new : Bool → List String → AutoLogin
unfolding collect
new auto_login auto_login_ignore_paths = record {
  enabled = auto_login;
  ignore_patterns = collect (default_ignore_patterns ++ auto_login_ignore_paths) [];
}

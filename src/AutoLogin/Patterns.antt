-- ===== src/AutoLogin/Patterns.antt =====
-- What the patterns of the automatic login decide (pkg/handler/autologin/autologin.go).
use wonderwall.Base.{
  String, ◌==◌, ◌≡◌, ◌↔◌, inl, inr, refl, sym, Bool, true, false, ◌||◌, List, [], ◌∷◌, ◌++◌, Has,
  All, contains, arith, eq_iff, if◌then◌else◌, Bool-cases,
}
use wonderwall.Http.{Request}
use wonderwall.AutoLogin.{
  AutoLogin, default_ignore_patterns, normalized, without_slash, needs_login, ignored, collect, new,
}

module _ (matches : String → String → Bool) where
  ignored_iff :
      (globs : List String) (path : String)
      → (ignored matches globs path ≡ false) ↔ All (λ g. matches g (normalized path) ≡ false) globs
  unfolding ignored
  ignored_iff [] path = (λ h. tt, λ q. refl)
  ignored_iff (g ∷ gs) path =
      let rest = ignored_iff gs path in
      elim (Bool-cases (matches g (normalized path))) [
        | inl t ↦ (λ h. absurd (ground arith), λ q. absurd (ground arith))
        | inr f ↦ (λ h. (f, rest.0 (ground arith)), λ q. rw (f, if◌then◌else◌) (rest.1 q.1))
      ]

  -- A request is sent to the login exactly if it is not authenticated, the automatic login is enabled,
  -- its method is GET, and no pattern matches its path, without a slash at its end.
  pub needs_login_iff :
      (a : AutoLogin) (r : Request) (is_authenticated : Bool)
      → (needs_login matches a r is_authenticated ≡ true) ↔ (
          (is_authenticated ≡ false)
          × (a.enabled ≡ true)
          × (r.method ≡ "GET")
          × All (λ g. matches g (normalized r.path) ≡ false) a.ignore_patterns)
  unfolding needs_login
  needs_login_iff a r is_authenticated =
      let i = ignored_iff a.ignore_patterns r.path in
      let m = eq_iff r.method "GET" in
      (
        λ h. (ground arith, ground arith, m.0 (ground arith), i.0 (ground arith)),
        λ q. ground (arith, m.1 q.2, i.1 q.3),
      )

contains-Has : (xs : List String) (x : String) → contains xs x ≡ true → Has x xs
contains-Has [] x h = cc
contains-Has (y ∷ ys) x h = elim (Bool-cases (y == x)) [
  | inl t ↦ inl (sym ((eq_iff y x).0 t))
  | inr f ↦ inr (contains-Has ys x (ground arith))
]

Has-append_left : (xs ys : List String) (x : String) → Has x xs → Has x (xs ++ ys)
Has-append_left [] ys x m = absurd m
Has-append_left (z ∷ xs) ys x (inl e) = inl e
Has-append_left (z ∷ xs) ys x (inr m) = inr (Has-append_left xs ys x m)

Has-append_last : (xs : List String) (x : String) → Has x (xs ++ x ∷ [])
Has-append_last [] x = inl refl
Has-append_last (z ∷ xs) x = inr (Has-append_last xs x)

abbrev added : String → List String → List String
added path patterns =
    if path == "" || contains patterns (without_slash path)
    then patterns
    else patterns ++ without_slash path ∷ []

added_keeps :
    (path : String) (patterns : List String) (x : String)
    → Has x patterns
    → Has x (added path patterns)
added_keeps path patterns x m =
    elim (Bool-cases (path == "" || contains patterns (without_slash path))) [
      | inl t ↦ rw (t, if◌then◌else◌) m
      | inr f ↦ rw (f, if◌then◌else◌) (Has-append_left patterns _ x m)
    ]

added-Has :
    (path : String) (patterns : List String)
    → (path == "") ≡ false
    → Has (without_slash path) (added path patterns)
added-Has path patterns n = elim (Bool-cases (contains patterns (without_slash path))) [
  | inl t ↦ rw (n, ◌||◌) (rw (t, if◌then◌else◌) (contains-Has patterns _ t))
  | inr f ↦ rw (n, ◌||◌) (rw (f, if◌then◌else◌) (Has-append_last patterns _))
]

collect_keeps :
    (paths patterns : List String) (x : String) → Has x patterns → Has x (collect paths patterns)
unfolding collect
collect_keeps [] patterns x m = m
collect_keeps (p ∷ ps) patterns x m =
    collect_keeps ps (added p patterns) x (added_keeps p patterns x m)

collect-Has :
    (paths patterns : List String) (path : String)
    → Has path paths
    → (path == "") ≡ false
    → Has (without_slash path) (collect paths patterns)
unfolding collect
collect-Has [] patterns path m n = absurd m
collect-Has (p ∷ ps) patterns path (inl e) n =
    collect_keeps ps (added p patterns) _ (rw e (added-Has p patterns (rw (sym e) n)))
collect-Has (p ∷ ps) patterns path (inr m) n = collect-Has ps (added p patterns) path m n

-- Each pattern that is configured or a default, and not empty, is among the patterns of the automatic
-- login, without a slash at its end.
pub new-Has :
    (auto_login : Bool) (configured : List String) (path : String)
    → Has path (default_ignore_patterns ++ configured)
    → (path == "") ≡ false
    → Has (without_slash path) (new auto_login configured).ignore_patterns
unfolding new
new-Has auto_login configured path m n =
    collect-Has (default_ignore_patterns ++ configured) [] path m n

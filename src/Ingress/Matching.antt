-- ===== src/Ingress/Matching.antt =====
-- Which path a request matches (pkg/ingress/ingress.go: MatchingPath).
use Prim.Native.String.{slice}
use Prim.Native.String.append
use text.Mathlib.TextPositions.{starts_with-append}
use wonderwall.Base.{
  subst, String, ◌==◌, len, starts_with, ltb, ◌&&◌, ◌≡◌, ◌≤◌, ◌↔◌, ◌⊎◌, inl, inr, refl, sym, ap,
  ◌∙◌, true, List, [], ◌∷◌, Has, arith, eq_iff, if◌then◌else◌, Bool-cases,
}
use wonderwall.Http.{Request}
use wonderwall.Ingress.{longer, matching_path, matching_path_from}

longer_prefix :
    (s result p : String) → starts_with s result ≡ true → starts_with s (longer s result p) ≡ true
unfolding longer
longer_prefix s result p h = ground arith

longer-len :
    (s result p : String)
    → starts_with s p ≡ true
    → (len result ≤ len (longer s result p)) × (len p ≤ len (longer s result p))
unfolding longer
longer-len s result p h = elim (Bool-cases (p == "")) [
  | inl t ↦ let none : len p ≡ 0 = ap len ((eq_iff p "").0 t) in ground arith
  | inr f ↦ ground arith
]

longer_grows : (s result p : String) → len result ≤ len (longer s result p)
unfolding longer
longer_grows s result p = ground arith

from_prefix :
    (s result : String) (ps : List String)
    → starts_with s result ≡ true
    → starts_with s (matching_path_from s result ps) ≡ true
unfolding matching_path_from
from_prefix s result [] h = h
from_prefix s result (p ∷ ps) h = from_prefix s (longer s result p) ps (longer_prefix s result p h)

from_grows :
    (s result : String) (ps : List String) → len result ≤ len (matching_path_from s result ps)
unfolding matching_path_from
from_grows s result [] = omega arith
from_grows s result (p ∷ ps) =
    omega (arith, longer_grows s result p, from_grows s (longer s result p) ps)

from_longest :
    (s result : String) (ps : List String) (p : String)
    → Has p ps
    → starts_with s p ≡ true
    → len p ≤ len (matching_path_from s result ps)
unfolding matching_path_from
from_longest s result [] p m h = absurd m
from_longest s result (q ∷ ps) p (inl e) h =
    let h' : starts_with s q ≡ true = rw (sym e) h in
    rw e (omega (arith, (longer-len s result q h').1, from_grows s (longer s result q) ps))
from_longest s result (q ∷ ps) p (inr m) h = from_longest s (longer s result q) ps p m h

longer_either : (s result p : String) → (longer s result p ≡ result) ⊎ (longer s result p ≡ p)
unfolding longer
longer_either s result p = elim (Bool-cases (p == "")) [
  | inl t ↦ inl (rw (t, if◌then◌else◌) refl)
  | inr f ↦ elim (Bool-cases (starts_with s p && ltb (len result) (len p))) [
    | inl t ↦ inr (rw (f, if◌then◌else◌) (rw (t, if◌then◌else◌) refl))
    | inr g ↦ inl (rw (f, if◌then◌else◌) (rw (g, if◌then◌else◌) refl))
  ]
]

from_Has :
    (s result : String) (ps : List String)
    → (matching_path_from s result ps ≡ result) ⊎ Has (matching_path_from s result ps) ps
unfolding matching_path_from
from_Has s result [] = inl refl
from_Has s result (p ∷ ps) = elim (from_Has s (longer s result p) ps) [
  | inr m ↦ inr (inr m)
  | inl e ↦ elim (longer_either s result p) [ inl a ↦ inl (e ∙ a) | inr b ↦ inr (inl (e ∙ b)) ]
]

prefix_empty : (s : String) → starts_with s "" ≡ true
prefix_empty s = subst (λ t. starts_with t "" ≡ true) (append.nil s) (starts_with-append "" s)

-- The path that a request matches is empty or a configured one, it is a prefix of the request's path,
-- and no configured prefix of the request's path is longer.
pub matching_path_longest :
    (paths : List String) (r : Request) (p : String)
    → Has p paths
    → starts_with r.path p ≡ true
    → let m = matching_path paths r in
      ((m ≡ "") ⊎ Has m paths) × (starts_with r.path m ≡ true) × (len p ≤ len m)
unfolding matching_path
matching_path_longest paths r p m h = (
  from_Has r.path "" paths,
  from_prefix r.path "" paths (prefix_empty r.path),
  from_longest r.path "" paths p m h,
)

same_prefix :
    (s p q : String) → starts_with s p ≡ true → starts_with s q ≡ true → len p ≡ len q → p ≡ q
same_prefix s p q h k e =
    sym ((eq_iff (slice s 0 (len p)) p).0 h) ∙ ap (slice s 0) e ∙ (eq_iff (slice s 0 (len q)) q).0 k

same_length :
    (s : String) (ps qs : List String)
    → ((p : String) → Has p ps ↔ Has p qs)
    → len (matching_path_from s "" ps) ≤ len (matching_path_from s "" qs)
same_length s ps qs h = elim (from_Has s "" ps) [
  | inl e ↦ let none : len (matching_path_from s "" ps) ≡ 0 = ap len e in omega arith
  | inr m ↦
      from_longest s "" qs (matching_path_from s "" ps) ((h _).0 m)
        (from_prefix s "" ps (prefix_empty s))
]

-- The path that a request matches depends on which paths are configured, and not on their order, which
-- is that of a visit of a map.
pub matching_path_order :
    (ps qs : List String) (r : Request)
    → ((p : String) → Has p ps ↔ Has p qs)
    → matching_path ps r ≡ matching_path qs r
unfolding matching_path
matching_path_order ps qs r h =
    let below = same_length r.path ps qs h in
    let above = same_length r.path qs ps (λ p. ((h p).1, (h p).0)) in
    same_prefix r.path _ _ (from_prefix r.path "" ps (prefix_empty r.path))
      (from_prefix r.path "" qs (prefix_empty r.path)) (omega arith)

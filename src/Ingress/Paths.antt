-- ===== src/Ingress/Paths.antt =====
-- The paths of the ingresses, which are the prefixes of the routes (pkg/ingress/ingress.go: mapIngresses).
use wonderwall.Base.{
  String, ◌==◌, ◌≡◌, inl, inr, refl, sym, ap, ◌∙◌, subst, true, false, ◌||◌, List, [], ◌∷◌, ◌++◌,
  ok, arith, Bool-cases, Result-cases, eq_iff, eq_refl, if◌then◌else◌,
}
use wonderwall.Base.Lists.{contains}
use wonderwall.Http.{Url, UrlLibrary}
use wonderwall.Ingress.{
  Ingresses, IngressMap, ingresses_of, map_into, map_ingresses, parse_into, parse_ingresses,
}

-- No element stands twice.
abbrev pub Distinct : List String → Type 0
Distinct [] = Unit
Distinct (x ∷ xs) = (contains xs x ≡ false) × Distinct xs

contains-append :
    (xs : List String) (y x : String) → contains (xs ++ y ∷ []) x ≡ (contains xs x || y == x)
contains-append [] y x = ground arith
contains-append (z ∷ xs) y x = ground (arith, contains-append xs y x)

Distinct-append :
    (xs : List String) (y : String) → Distinct xs → contains xs y ≡ false → Distinct (xs ++ y ∷ [])
Distinct-append [] y h n = (refl, tt)
Distinct-append (x ∷ xs) y h n =
    let apart : (y == x) ≡ false = elim (Bool-cases (y == x)) [
      | inr e ↦ e
      | inl e ↦ absurd (ground (arith, eq_refl y, ap (λ t. t == y) ((eq_iff y x).0 e)))
    ] in
    (ground (arith, contains-append xs y x, h.0), Distinct-append xs y h.1 (ground arith))

map_into-Distinct :
    (f : Url → String) (urls : List Url) (result : List String)
    → Distinct result
    → Distinct (map_into f urls result)
unfolding map_into
map_into-Distinct f [] result h = h
map_into-Distinct f (u ∷ rest) result h = elim (Bool-cases (contains result (f u))) [
  | inl e ↦ rw (e, if◌then◌else◌) (map_into-Distinct f rest result h)
  | inr e ↦ rw (e, if◌then◌else◌) (map_into-Distinct f rest _ (Distinct-append result (f u) h e))
]

-- `u` is one of the list.
pub data In (u : Url) : List Url → Type 0 where
  first : {rest : List Url} → In u (u ∷ rest)
  later : {v : Url} {rest : List Url} → In u rest → In u (v ∷ rest)

map_into_keeps :
    (f : Url → String) (urls : List Url) (result : List String) (x : String)
    → contains result x ≡ true
    → contains (map_into f urls result) x ≡ true
unfolding map_into
map_into_keeps f [] result x h = h
map_into_keeps f (u ∷ rest) result x h = elim (Bool-cases (contains result (f u))) [
  | inl e ↦ rw (e, if◌then◌else◌) (map_into_keeps f rest result x h)
  | inr e ↦
      rw (e, if◌then◌else◌)
        (map_into_keeps f rest _ x (ground (arith, contains-append result (f u) x)))
]

map_into_has :
    (f : Url → String) (urls : List Url) (result : List String) (u : Url)
    → In u urls
    → contains (map_into f urls result) (f u) ≡ true
unfolding map_into
map_into_has f [] result u i = elim i [ ]
map_into_has f (u ∷ rest) result _ first = elim (Bool-cases (contains result (f u))) [
  | inl e ↦ rw (e, if◌then◌else◌) (map_into_keeps f rest result (f u) e)
  | inr e ↦
      rw (e, if◌then◌else◌)
        (map_into_keeps f rest _ (f u)
          (ground (arith, contains-append result (f u) (f u), eq_refl (f u))))
]
map_into_has f (v ∷ rest) result u (later i) = elim (Bool-cases (contains result (f v))) [
  | inl e ↦ rw (e, if◌then◌else◌) (map_into_has f rest result u i)
  | inr e ↦ rw (e, if◌then◌else◌) (map_into_has f rest _ u i)
]

-- The prefixes of an accepted configuration are distinct, so that chi mounts none twice, and the path of
-- each ingress is one of them.
pub parse_ingresses_paths :
    (urls : UrlLibrary) (visit : IngressMap → IngressMap) (raws : List String) (i : Ingresses)
    → parse_ingresses urls visit raws ≡ ok i
    → Distinct i.paths
      × ((u : Url) → In u (ingresses_of (visit i.ingress_map)) → contains i.paths u.path ≡ true)
unfolding parse_ingresses map_ingresses
parse_ingresses_paths urls visit [] i h = absurd (ground arith)
parse_ingresses_paths urls visit (raw ∷ rest) i h =
    elim (Result-cases (parse_into urls (raw ∷ rest) [])) [
      | inr (x, p) ↦ absurd (ground arith)
      | inl (m, p) ↦
          let all = ingresses_of (visit m) in
          let path : Url → String = λ u. u.path in
          let same : m ≡ i.ingress_map = ground arith in
          let paths : map_into path all [] ≡ i.paths = ground arith in
          (
            subst Distinct paths (map_into-Distinct path all [] tt),
            λ u at.
                ap (λ ps. contains ps u.path) (sym paths)
                ∙ map_into_has path all [] u
                    (subst (λ t. In u (ingresses_of (visit t))) (sym same) at),
          )
    ]

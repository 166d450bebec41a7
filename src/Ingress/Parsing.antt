-- ===== src/Ingress/Parsing.antt =====
-- Which ingresses start-up accepts (pkg/ingress/ingress.go: ParseIngresses).
use wonderwall.Base.{
  String, ◌==◌, ◌≡◌, ◌≢◌, ◌⊎◌, inl, inr, refl, subst, ap, true, List, [], ◌∷◌, ◌++◌, ok, arith,
  Bool-cases, Result-cases, eq_iff, eq_refl, All, if◌then◌else◌,
}
use wonderwall.Http.{Url, UrlLibrary}
use wonderwall.Slashes.{trim_right}
use wonderwall.Ingress.{
  Ingresses, IngressMap, has_key, insert_new, must_scheme, checked_ingress, parse_ingress,
  parse_into, parse_ingresses,
}

-- An absolute URL for HTTP; its path has no slash at the end.
pub record IsIngress (u : Url) : Type 0 where
  pub scheme : (u.scheme ≡ "http") ⊎ (u.scheme ≡ "https")
  pub host : u.host ≢ ""
  pub path : (given : String) × (u.path ≡ trim_right given)

either_scheme : (u : Url) → must_scheme u ≡ true → (u.scheme ≡ "http") ⊎ (u.scheme ≡ "https")
unfolding must_scheme
either_scheme u h = elim (Bool-cases (u.scheme == "http")) [
  | inl e ↦ inl ((eq_iff u.scheme "http").0 e)
  | inr n ↦ inr ((eq_iff u.scheme "https").0 (ground arith))
]

checked_ingress-IsIngress : (u v : Url) → checked_ingress u ≡ ok v → IsIngress v
unfolding checked_ingress
checked_ingress-IsIngress u v h = elim (Bool-cases (u.host == "")) [
  | inl e ↦ absurd (ground arith)
  | inr named ↦ elim (Bool-cases (must_scheme u)) [
    | inr e ↦ absurd (ground arith)
    | inl e ↦
        let same : record u { path = trim_right u.path } ≡ v = ground arith in
        subst IsIngress same (record {
          scheme = either_scheme u e;
          host = λ empty. ground (arith, eq_refl "", ap (λ t. t == "") empty);
          path = (u.path, refl);
        })
  ]
]

parse_ingress-IsIngress :
    (urls : UrlLibrary) (raw : String) (v : Url) → parse_ingress urls raw ≡ ok v → IsIngress v
unfolding parse_ingress
parse_ingress-IsIngress urls raw v h = elim (Bool-cases (raw == "")) [
  | inl e ↦ absurd (ground arith)
  | inr e ↦ elim (Result-cases (urls.parse raw)) [
    | inr (x, p) ↦ absurd (ground arith)
    | inl (u, p) ↦ checked_ingress-IsIngress u v (ground arith)
  ]
]

abbrev pub AllIngress : IngressMap → Type 0
AllIngress m = All (λ (e : String × Url). IsIngress e.1) m

All-append :
    (m : IngressMap) (k : String) (u : Url)
    → AllIngress m
    → IsIngress u
    → AllIngress (m ++ (k, u) ∷ [])
All-append [] k u h i = (i, tt)
All-append (e ∷ m) k u h i = (h.0, All-append m k u h.1 i)

insert_new-AllIngress :
    (k : String) (u : Url) (seen : IngressMap)
    → AllIngress seen
    → IsIngress u
    → AllIngress (insert_new k u seen)
unfolding insert_new
insert_new-AllIngress k u seen h i = elim (Bool-cases (has_key k seen)) [
  | inl e ↦ rw (e, if◌then◌else◌) h
  | inr e ↦ rw (e, if◌then◌else◌) (All-append seen k u h i)
]

parse_into-AllIngress :
    (urls : UrlLibrary) (raws : List String) (seen m : IngressMap)
    → AllIngress seen
    → parse_into urls raws seen ≡ ok m
    → AllIngress m
unfolding parse_into
parse_into-AllIngress urls [] seen m h e = subst AllIngress (ground arith) h
parse_into-AllIngress urls (raw ∷ rest) seen m h e = elim (Result-cases (parse_ingress urls raw)) [
  | inr (x, p) ↦ absurd (ground arith)
  | inl (u, p) ↦
      parse_into-AllIngress urls rest (insert_new (urls.print u) u seen) m
        (insert_new-AllIngress (urls.print u) u seen h (parse_ingress-IsIngress urls raw u p))
        (ground arith)
]

-- Every ingress of a configuration that is accepted is an absolute URL for HTTP with a host.
pub parse_ingresses-AllIngress :
    (urls : UrlLibrary) (visit : IngressMap → IngressMap) (raws : List String) (i : Ingresses)
    → parse_ingresses urls visit raws ≡ ok i
    → AllIngress i.ingress_map
unfolding parse_ingresses
parse_ingresses-AllIngress urls visit [] i h = absurd (ground arith)
parse_ingresses-AllIngress urls visit (first ∷ rest) i h =
    elim (Result-cases (parse_into urls (first ∷ rest) [])) [
      | inr (x, p) ↦ absurd (ground arith)
      | inl (m, p) ↦
          let parsed = parse_into-AllIngress urls (first ∷ rest) [] m tt p in
          let same : m ≡ i.ingress_map = ground arith in subst AllIngress same parsed
    ]

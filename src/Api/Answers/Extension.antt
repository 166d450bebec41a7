-- ===== src/Api/Answers/Extension.antt =====
-- What the calls that handlers are made of do to the response: they only add cookies, and a handler that
-- stops at an error has added none of a name that its failures do not set.
use wonderwall.Base.{
  if◌then◌else◌, String, ◌≡◌, refl, sym, subst, ap, ◌∙◌, Bool, true, false, ◌||◌, List, [], ◌∷◌,
  ◌++◌, Error, Result, ok, err, Result-cases, inl, inr, ◌⊎◌, arith,
}
use wonderwall.Base.Action.{Action}
use wonderwall.Http.{HttpCookie}
use wonderwall.Api.Answers.{
  Answer, Exchange, Reply, sets, ends, then_set, then_set_all, on_result, on_error, resume,
}

append_nil : (xs : List HttpCookie) → xs ++ [] ≡ xs
append_nil [] = refl
append_nil (c ∷ cs) = ap (λ ys. c ∷ ys) (append_nil cs)

append_assoc : (xs ys zs : List HttpCookie) → (xs ++ ys) ++ zs ≡ xs ++ (ys ++ zs)
append_assoc [] ys zs = refl
append_assoc (c ∷ cs) ys zs = ap (λ l. c ∷ l) (append_assoc cs ys zs)

pub sets-append :
    (name : String) (xs ys : List HttpCookie)
    → sets name (xs ++ ys) ≡ (sets name xs || sets name ys)
sets-append name [] ys = refl
sets-append name (c ∷ cs) ys = ground (arith, sets-append name cs ys)

pub if-both :
    {A : Type 0} (P : A → Type 0) (b : Bool) (f g : A) → P f → P g → P (if b then f else g)
if-both P true f g hf hg = hf
if-both P false f g hf hg = hg

-- The reply adds cookies, and keeps those before them.
abbrev pub Extends : {W : Type 0} → Reply W → Type 0
Extends {W} f = (x : Exchange W) → (cs : List HttpCookie) × ((f x).1.cookies ≡ x.cookies ++ cs)

module _ {W : Type 0} where
  pub ends-Extends : (a : Answer) → Extends (ends {W = W} a)
  unfolding ends
  ends-Extends a x = ([], sym (append_nil x.cookies))

  pub then_set_all-Extends :
      (cs : List HttpCookie) (f : Reply W) → Extends f → Extends (then_set_all cs f)
  unfolding then_set_all
  then_set_all-Extends cs f h x =
      let (more, e) = h (record x { cookies = x.cookies ++ cs }) in
      (cs ++ more, e ∙ append_assoc x.cookies cs more)

  pub then_set-Extends : (c : HttpCookie) (f : Reply W) → Extends f → Extends (then_set c f)
  unfolding then_set
  then_set-Extends c f h x =
      let (more, e) = h (record x { cookies = x.cookies ++ c ∷ [] }) in
      (c ∷ more, e ∙ append_assoc x.cookies (c ∷ []) more)

  module _ {A : Type 0} (m : Action W A) where
    pub on_result-Extends :
        (f : Result A → Reply W) → ((r : Result A) → Extends (f r)) → Extends (on_result m f)
    unfolding on_result
    on_result-Extends f h x =
        h (m x.world).0 (record { world = (m x.world).1; cookies = x.cookies })

    resume-Extends :
        (failure : Error → Reply W) (rest : A → Reply W)
        → ((e : Error) → Extends (failure e))
        → ((a : A) → Extends (rest a))
        → (r : Result A) → Extends (resume failure rest r)
    resume-Extends failure rest hf hr (ok a) = hr a
    resume-Extends failure rest hf hr (err e) = hf e

    pub on_error-Extends :
        (failure : Error → Reply W) (rest : A → Reply W)
        → ((e : Error) → Extends (failure e))
        → ((a : A) → Extends (rest a))
        → Extends (on_error m failure rest)
    unfolding on_error
    on_error-Extends failure rest hf hr =
        on_result-Extends (resume failure rest) (resume-Extends failure rest hf hr)

    -- The two ways on from a call.
    pub on_error-cases :
        (failure : Error → Reply W) (rest : A → Reply W) (x : Exchange W)
        → ((a : A) × ((m x.world).0 ≡ ok a)
            × (on_error m failure rest x
                ≡ rest a (record { world = (m x.world).1; cookies = x.cookies })))
          ⊎ ((e : Error) × ((m x.world).0 ≡ err e)
              × (on_error m failure rest x
                  ≡ failure e (record { world = (m x.world).1; cookies = x.cookies })))
    unfolding on_error
    on_error-cases failure rest x = elim (Result-cases (m x.world).0) [
      | inl (a, e) ↦ inl (a, e, ground arith)
      | inr (z, e) ↦ inr (z, e, ground arith)
    ]

-- What holds of both ways on holds of the whole.
pub on_error-both :
    {W A : Type 0} (P : Answer × Exchange W → Type 0) (m : Action W A) (failure : Error → Reply W)
    (rest : A → Reply W) (x : Exchange W)
    → ((e : Error)
        → (m x.world).0 ≡ err e
        → P (failure e (record { world = (m x.world).1; cookies = x.cookies })))
    → ((a : A)
        → (m x.world).0 ≡ ok a
        → P (rest a (record { world = (m x.world).1; cookies = x.cookies })))
    → P (on_error m failure rest x)
on_error-both P m failure rest x hf hr = elim (on_error-cases m failure rest x) [
  | inl (a, e, on) ↦ subst P (sym on) (hr a e)
  | inr (z, e, off) ↦ subst P (sym off) (hf z e)
]

-- The reply sets no cookie of the name.
abbrev pub Spares : {W : Type 0} → String → Reply W → Type 0
Spares {W} name f = (x : Exchange W) → sets name (f x).1.cookies ≡ sets name x.cookies

-- The cookie is one of the list.
abbrev pub Includes : HttpCookie → List HttpCookie → Type 0
Includes c [] = ⊥
Includes c (d ∷ ds) = (c ≡ d) ⊎ Includes c ds

pub Includes-append : (c : HttpCookie) (xs ys : List HttpCookie) → Includes c ((xs ++ c ∷ []) ++ ys)
Includes-append c [] ys = inl refl
Includes-append c (x ∷ xs) ys = inr (Includes-append c xs ys)

pub then_set-Includes :
    {W : Type 0} (c : HttpCookie) (f : Reply W) (x : Exchange W)
    → Extends f
    → Includes c (then_set c f x).1.cookies
unfolding then_set
then_set-Includes c f x h =
    let (more, e) = h (record x { cookies = x.cookies ++ c ∷ [] }) in
    subst (Includes c) (sym e) (Includes-append c x.cookies more)

-- A cookie that the failure does not set was set after the call had succeeded.
pub on_error-sets :
    {W A : Type 0} (name : String) (m : Action W A) (failure : Error → Reply W) (rest : A → Reply W)
    (x : Exchange W)
    → ((e : Error) → Spares name (failure e))
    → sets name x.cookies ≡ false
    → sets name (on_error m failure rest x).1.cookies ≡ true
    → (a : A) × ((m x.world).0 ≡ ok a)
      × (on_error m failure rest x ≡ rest a (record { world = (m x.world).1; cookies = x.cookies }))
      × (sets name (rest a (record { world = (m x.world).1; cookies = x.cookies })).1.cookies
          ≡ true)
on_error-sets name m failure rest x spares none_yet h = elim (on_error-cases m failure rest x) [
  | inl (a, e, on) ↦ (a, e, on, ap (λ p. sets name p.1.cookies) (sym on) ∙ h)
  | inr (z, e, off) ↦
      let there = ap (λ p. sets name p.1.cookies) (sym off) ∙ h in
      let not_there = spares z (record { world = (m x.world).1; cookies = x.cookies }) ∙ none_yet in
      cc
]

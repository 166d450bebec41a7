-- ===== src/Base/Ensures.antt =====
-- Actions that keep a property of the world, and what the results that they return without an error
-- have: their combinations do so too.
use mathlib.Core.Path.{◌≡◌, refl, subst}
use mathlib.Core.Bool.{Bool, true, false}
use wonderwall.Base.Results.{Error, Result, ok, err}
use wonderwall.Base.Tests.{if◌then◌else◌}
use wonderwall.Base.Action.{Action, pure, raise, lift, catch, continue, ◌>>=◌}
use wonderwall.Base.Retry.{Attempt, Retrier, Runs-keeps}

abbrev pub OnOk : {A : Type 0} → (A → Type 0) → Result A → Type 0
OnOk Q (ok a) = Q a
OnOk Q (err e) = Unit

abbrev pub Anything : {A : Type 0} → A → Type 0
Anything a = Unit

pub OnOk-Anything : {A : Type 0} (r : Result A) → OnOk Anything r
OnOk-Anything (ok a) = tt
OnOk-Anything (err e) = tt

pub OnOk-intro :
    {A : Type 0} (Q : A → Type 0) (r : Result A) → ((a : A) → r ≡ ok a → Q a) → OnOk Q r
OnOk-intro Q (ok a) h = h a refl
OnOk-intro Q (err e) h = tt

pub OnOk-elim : {A : Type 0} (Q : A → Type 0) (r : Result A) (a : A) → OnOk Q r → r ≡ ok a → Q a
OnOk-elim Q r a h e = subst (OnOk Q) e h

module _ {W : Type 0} (P : W → Type 0) where
  pub record Ensures {A : Type 0} (m : Action W A) (Q : A → Type 0) : Type 0 where
    pub at : (w : W) → P w → P (m w).1 × OnOk Q (m w).0

  abbrev pub Preserves : {A : Type 0} → Action W A → Type 0
  Preserves m = Ensures m Anything

  module _ {A : Type 0} where
    pub preserves : (m : Action W A) → ((w : W) → P w → P (m w).1) → Preserves m
    preserves m h = record { at = λ w p. (h w p, OnOk-Anything (m w).0) }

    pub pure-Ensures : (Q : A → Type 0) (a : A) → Q a → Ensures (pure a) Q
    pure-Ensures Q a q = record { at = λ w p. (p, q) }

    pub raise-Ensures : (Q : A → Type 0) (e : Error) → Ensures (raise e) Q
    raise-Ensures Q e = record { at = λ w p. (p, tt) }

    pub lift-Ensures :
        (Q : A → Type 0) (r : Result A) → ((a : A) → r ≡ ok a → Q a) → Ensures (lift r) Q
    lift-Ensures Q r h = record { at = λ w p. (p, OnOk-intro Q r h) }

    pub if-Ensures :
        (Q : A → Type 0) (b : Bool) (m n : Action W A)
        → Ensures m Q
        → Ensures n Q
        → Ensures (if b then m else n) Q
    if-Ensures Q true m n hm hn = hm
    if-Ensures Q false m n hm hn = hn

    pub catch-Ensures : (Q : A → Type 0) (m : Action W A) → Ensures m Q → Ensures (catch m) (OnOk Q)
    catch-Ensures Q m hm = record { at = λ w p. hm.at w p }

    weaken_OnOk : (Q R : A → Type 0) (r : Result A) → ((a : A) → Q a → R a) → OnOk Q r → OnOk R r
    weaken_OnOk Q R (ok a) h q = h a q
    weaken_OnOk Q R (err e) h q = tt

    pub weaken_to :
        (Q R : A → Type 0) (m : Action W A) → Ensures m Q → ((a : A) → Q a → R a) → Ensures m R
    weaken_to Q R m hm h = record {
      at = λ w p. let (p', q) = hm.at w p in (p', weaken_OnOk Q R (m w).0 h q);
    }

    pub weaken : (Q : A → Type 0) (m : Action W A) → Ensures m Q → Preserves m
    weaken Q m hm = weaken_to Q Anything m hm (λ _ _. tt)

  -- A retried action preserves what one attempt and the waits do.
  pub run-Preserves :
      {A B : Type 0} (retrier : Retrier W) (f : Result A → Attempt B) (m : Action W A)
      → ((w v : W) → retrier.Elapse w v → P w → P v)
      → Preserves m
      → Preserves (retrier.run B (λ w. (f (m w).0, (m w).1)))
  run-Preserves {A} {B} retrier f m wait hm =
      preserves (retrier.run B (λ w. (f (m w).0, (m w).1))) λ w p.
        Runs-keeps P wait (λ u q. (hm.at u q).0) (retrier.runs B (λ v. (f (m v).0, (m v).1)) w) p

  module _ {A B : Type 0} (Q : A → Type 0) (R : B → Type 0) where
    continue-Ensures :
        (r : Result A) (f : A → Action W B)
        → OnOk Q r
        → ((a : A) → Q a → Ensures (f a) R)
        → Ensures (continue r f) R
    continue-Ensures (ok a) f q hf = hf a q
    continue-Ensures (err e) f q hf = record { at = λ w p. (p, tt) }

    pub bind-Ensures :
        (m : Action W A) (f : A → Action W B)
        → Ensures m Q
        → ((a : A) → Q a → Ensures (f a) R)
        → Ensures (m >>= f) R
    bind-Ensures m f hm hf = record {
      at = λ w p. let (p', q) = hm.at w p in (continue-Ensures (m w).0 f q hf).at (m w).1 p';
    }

  pub then_pure :
      {A B : Type 0} (m : Action W A) (f : A → B) → Preserves m → Preserves (m >>= λ a. pure (f a))
  then_pure m f hm =
      bind-Ensures Anything Anything m (λ a. pure (f a)) hm λ a _. pure-Ensures Anything (f a) tt

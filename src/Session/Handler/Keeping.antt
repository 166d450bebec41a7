-- ===== src/Session/Handler/Keeping.antt =====
-- Actions that leave a view of the world as it is, whatever their result: their combinations do so too.
use wonderwall.Base.{◌≡◌, refl, ◌∙◌, Bool, true, false, Result, ok, err, if◌then◌else◌}
use wonderwall.Base.Action.{Action, pure, lift, catch, continue, ◌>>=◌}
use wonderwall.Base.Retry.{Attempt, Retrier, Runs-keeps}
use wonderwall.Session.Handler.{attempt}

module _ {W V : Type 0} (view : W → V) where
  pub record Keeps {A : Type 0} (m : Action W A) : Type 0 where
    pub at : (w : W) → view (m w).1 ≡ view w

  module _ {A : Type 0} where
    pub pure-Keeps : (a : A) → Keeps (pure a)
    pure-Keeps a = record { at = λ w. refl }

    pub lift-Keeps : (r : Result A) → Keeps (lift r)
    lift-Keeps r = record { at = λ w. refl }

    pub if-Keeps : (b : Bool) (m n : Action W A) → Keeps m → Keeps n → Keeps (if b then m else n)
    if-Keeps true m n hm hn = hm
    if-Keeps false m n hm hn = hn

    pub catch-Keeps : (m : Action W A) → Keeps m → Keeps (catch m)
    catch-Keeps m hm = record { at = λ w. hm.at w }

    pub run-Keeps :
        {B : Type 0} (retrier : Retrier W) (f : Result A → Attempt B) (m : Action W A)
        → ((w v : W) → retrier.Elapse w v → view v ≡ view w)
        → Keeps m
        → Keeps (retrier.run B (attempt f m))
    run-Keeps {B} retrier f m quiet hm = record {
      at = λ w.
          Runs-keeps (λ v. view v ≡ view w) (λ u v t e. quiet u v t ∙ e) (λ u e. hm.at u ∙ e)
            (retrier.runs B (attempt f m) w) refl;
    }

  module _ {A B : Type 0} where
    continue-Keeps :
        (r : Result A) (f : A → Action W B) → ((a : A) → Keeps (f a)) → Keeps (continue r f)
    continue-Keeps (ok a) f hf = hf a
    continue-Keeps (err e) f hf = record { at = λ w. refl }

    pub bind_lift-Keeps :
        (r : Result A) (f : A → Action W B)
        → ((a : A) → r ≡ ok a → Keeps (f a))
        → Keeps (lift r >>= f)
    bind_lift-Keeps (ok a) f hf = record { at = λ w. (hf a refl).at w }
    bind_lift-Keeps (err e) f hf = record { at = λ w. refl }

    pub bind-Keeps :
        (m : Action W A) (f : A → Action W B) → Keeps m → ((a : A) → Keeps (f a)) → Keeps (m >>= f)
    bind-Keeps m f hm hf = record { at = λ w. (continue-Keeps (m w).0 f hf).at (m w).1 ∙ hm.at w }

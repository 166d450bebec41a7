-- ===== src/Api/Answers/Preservation.antt =====
-- Handlers that keep a property of the world, as their calls do.
use wonderwall.Base.{Bool, true, false, Error, Result, ok, err, List, if◌then◌else◌}
use wonderwall.Base.Action.{Action}
use wonderwall.Base.Ensures.{OnOk, Ensures}
use wonderwall.Http.{HttpCookie}
use wonderwall.Api.Answers.{
  Answer, Exchange, Reply, ends, then_set, then_set_all, on_result, on_error, resume,
}

module _ {W : Type 0} (P : W → Type 0) where
  abbrev pub Safely : Reply W → Type 0
  Safely f = (x : Exchange W) → P x.world → P (f x).1.world

  pub ends-Safely : (a : Answer) → Safely (ends a)
  unfolding ends
  ends-Safely a x p = p

  pub then_set-Safely : (c : HttpCookie) (f : Reply W) → Safely f → Safely (then_set c f)
  unfolding then_set
  then_set-Safely c f h x p = h _ p

  pub then_set_all-Safely :
      (cs : List HttpCookie) (f : Reply W) → Safely f → Safely (then_set_all cs f)
  unfolding then_set_all
  then_set_all-Safely cs f h x p = h _ p

  pub if-Safely : (b : Bool) (f g : Reply W) → Safely f → Safely g → Safely (if b then f else g)
  if-Safely true f g hf hg = hf
  if-Safely false f g hf hg = hg

  module _ {A : Type 0} (Q : A → Type 0) (m : Action W A) (safe : Ensures P m Q) where
    pub on_result-Safely :
        (f : Result A → Reply W)
        → ((r : Result A) → OnOk Q r → Safely (f r))
        → Safely (on_result m f)
    unfolding on_result
    on_result-Safely f h x p = let (p', q) = safe.at x.world p in h (m x.world).0 q _ p'

    resume-Safely :
        (failure : Error → Reply W) (rest : A → Reply W)
        → ((e : Error) → Safely (failure e))
        → ((a : A) → Q a → Safely (rest a))
        → (r : Result A) → OnOk Q r
        → Safely (resume failure rest r)
    resume-Safely failure rest hf hr (ok a) q = hr a q
    resume-Safely failure rest hf hr (err e) q = hf e

    pub on_error-Safely :
        (failure : Error → Reply W) (rest : A → Reply W)
        → ((e : Error) → Safely (failure e))
        → ((a : A) → Q a → Safely (rest a))
        → Safely (on_error m failure rest)
    unfolding on_error
    on_error-Safely failure rest hf hr =
        on_result-Safely (resume failure rest) (resume-Safely failure rest hf hr)

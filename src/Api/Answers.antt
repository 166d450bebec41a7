-- ===== src/Api/Answers.antt =====
-- What a handler of pkg/handler does with a request: the answers that it may end with, and the calls it is
-- made of, each with the rest of the handler.
pub mod Extension
pub mod Preservation
use wonderwall.Base.{
  ℕ, String, ◌==◌, Bool, false, ◌||◌, List, [], ◌∷◌, ◌++◌, Result, ok, err, Error,
}
use wonderwall.Base.Action.{Action}
use wonderwall.Http.{HttpCookie}
use wonderwall.ErrorHandler.{Outcome}
use wonderwall.Session.Metadata.Report.{MetadataVerbose, MetadataVerboseWithRefresh}

-- A status without a body, a redirect with status 307, the metadata of a session with status 200, or
-- what the error handler made of a failure.
pub data Answer : Type 0 where
  status : ℕ → Answer
  redirect : String → Answer
  verbose : MetadataVerbose → Answer
  verbose_with_refresh : MetadataVerboseWithRefresh → Answer
  failed : Outcome → Answer

-- The cookies of the response so far, in the order in which they were set.
pub record Exchange (W : Type 0) : Type 0 where
  pub world : W
  pub cookies : List HttpCookie

abbrev pub Reply : Type 0 → Type 0
Reply W = Exchange W → Answer × Exchange W

-- The exchange that a request begins with.
abbrev pub begin : {W : Type 0} → W → Exchange W
begin w = record { world = w; cookies = [] }

-- A cookie of that name was set.
abbrev pub sets : String → List HttpCookie → Bool
sets name [] = false
sets name (c ∷ cs) = c.name == name || sets name cs

module _ {W : Type 0} where
  unfoldable pub ends : Answer → Reply W
  ends a x = (a, x)

  unfoldable pub then_set : HttpCookie → Reply W → Reply W
  then_set c rest x = rest (record x { cookies = x.cookies ++ c ∷ [] })

  unfoldable pub then_set_all : List HttpCookie → Reply W → Reply W
  then_set_all cs rest x = rest (record x { cookies = x.cookies ++ cs })

  module _ {A : Type 0} where
    -- `a, err := m`, and the rest, which inspects the error.
    unfoldable pub on_result : Action W A → (Result A → Reply W) → Reply W
    on_result m rest x =
        let (r, v) = m x.world in rest r (record { world = v; cookies = x.cookies })

    abbrev pub resume : (Error → Reply W) → (A → Reply W) → Result A → Reply W
    resume failure rest (ok a) = rest a
    resume failure rest (err e) = failure e

    -- `a, err := m; if err != nil { failure; return }; rest`
    unfoldable pub on_error : Action W A → (Error → Reply W) → (A → Reply W) → Reply W
    unfolding on_result
    on_error m failure rest = on_result m (resume failure rest)

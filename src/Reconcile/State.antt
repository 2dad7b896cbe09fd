-- ===== src/Reconcile/State.antt =====
-- The state of a reconciliation: the object that it works on, what the API server holds, and the
-- effects so far; and the environment, which answers every request by all that came before.
use flux_dev.Api.{ManifestGenerator}
use flux_dev.Base.{Bool, List, ℕ, ◌∷◌}
use flux_dev.Builder.Build.{Artifact}
use flux_dev.Controller.Validation.{Reason}
use flux_dev.Dict.{Dict}
use flux_dev.Text.{Text}
use flux_dev.Pipeline.Core as PipelineCore
use flux_dev.Builder.Core as BuilderCore

-- The object. Its spec, name, annotations and inventory are those of the generator.
pub record Object (C : Type 0) : Type 0 where
  pub generator : ManifestGenerator
  pub uid : Text
  pub generation : ℕ
  pub is_deleting : Bool
  pub finalizers : List Text
  pub conditions : C
  pub observed_generation : ℕ
  pub observed_sources_digest : Text
  pub last_handled_reconcile_at : Text

pub data Severity : Type 0 where
  warning normal trace : Severity

-- What a reconciliation does to the world. An event keeps its severity and its reason.
pub data Effect (C : Type 0) : Type 0 where
  event : Severity → Text → Effect C
  patch_status : Object C → Effect C
  make_dir : Text → Effect C
  fetch : Text → Text → Text → Effect C
  apply_artifact : Text → Text → Dict Text → Effect C
  patch_artifact_status : Text → Text → Artifact → Effect C
  remove_from_storage : Text → Text → Effect C
  delete_artifact : Text → Text → Effect C
  collect_garbage : Text → Text → Effect C

pub data ApiError : Type 0 where
  not_found other : Text → ApiError

-- A failed request may report several errors.
pub data Answer : Type 0 where
  done : Answer
  failed : ApiError → List ApiError → Answer

-- The latest effect stands first.
abbrev pub Trace : Type 0 → Type 0
Trace C = List (Effect C)

abbrev pub Environment : Type 0 → Type 0
Environment C = Trace C → Effect C → Answer

-- `stored` is the object as the API server has it.
pub record State (C : Type 0) : Type 0 where
  pub object : Object C
  pub stored : Object C
  pub effects : Trace C

pub data Failure : Type 0 where
  no_temp_dir : Text → Failure
  object_unreadable : ApiError → Failure
  status_not_updated : List ApiError → Failure
  not_evaluated : PipelineCore.Error → Failure
  not_built : Text → BuilderCore.Error → Failure
  not_published : Text → List ApiError → Failure
  terminal : Reason → Failure
  aggregate : Failure → Failure → Failure

-- ctrl.Result and the error: `requeue` has its delay in nanoseconds.
pub data Outcome : Type 0 where
  finished : Outcome
  requeue : ℕ → Outcome
  error : Failure → Outcome

-- An early return.
abbrev pub Early : Type 0 → Type 0
Early C = State C × Outcome

module _ {C : Type 0} where
  abbrev pub emit : Effect C → State C → State C
  emit e s = record s { effects = e ∷ s.effects }

  abbrev pub with_object : (Object C → Object C) → State C → State C
  with_object f s = record s { object = f s.object }

  abbrev pub on_conditions : (C → C) → State C → State C
  on_conditions f s = record s { object = record s.object { conditions = f s.object.conditions } }

-- ===== src/Reconcile/Phases.antt =====
-- The phases of reconcile that may return early, one by one: each leaves the conditions that its
-- outcome calls for.
use flux_dev.Api.{ExternalArtifactReference, ManifestArtifact}
use flux_dev.Base.{[], ok, true, wrap, ◌≡◌}
use flux_dev.Builder.Build.{build}
use flux_dev.Controller.Pipeline.{
  Handling, handle_values_error, requeue_source_fetch_failed, resolve_values, run_pipeline,
  stall_access_denied,
}
use flux_dev.Controller.Sources.{ObservedSource, observe_sources, set_artifact_revisions}
use flux_dev.Controller.Validation.{Reason, access_denied}
use flux_dev.Dict.{Dict}
use flux_dev.Reconcile.Ends.{
  At, Ends, Ends-pure, Ends-wrap, artifact_names, ended, failed_as, reported,
}
use flux_dev.Reconcile.Publish.{
  Params, build_failed, build_reason, publish_artifact, publish_failed, reconcile_external_artifact,
  source_fetch_failed,
}
use flux_dev.Reconcile.Run.{
  fetch_all, handle_as, observe, pipeline_failed, pipeline_stage, retry_fetch, values_failed,
  values_resolver, values_stage,
}
use flux_dev.Reconcile.Stages.{
  At-emit, At-mark, At-warn, Permits, fetch_sources-Ends, here, reconcile_external_artifact-Ends,
}
use flux_dev.Reconcile.State.{Effect, Object, Outcome, State, error, not_evaluated}
use flux_dev.Reconcile.Status.{new_terminal_error_for, reason_text, warn}
use flux_dev.Reconcile.Toolkit.{ready_condition, reconciliation_failed}
use flux_dev.Text.{Text, has}
use flux_dev.Tree.{Fields, Value, entries}
use flux_dev.Builder.Build as Build

module _ {C : Type 0} (P : Effect C → Type 0) (p : Params C) (o : Object C)
    (w : Permits P p o) where
  -- How an early return leaves the conditions.
  abbrev pub end_at : Outcome → C
  end_at = ended p.toolkit o.conditions

  At-retry_fetch :
      (s : State C)
      → At P o (here P p o) s
      → At P o (end_at ((retry_fetch p s).1)) ((retry_fetch p s).0)
  unfolding retry_fetch ended failed_as reported
  At-retry_fetch s held = At-warn P p o w source_fetch_failed s held

  At-new_terminal_error_for :
      (reason : Reason) (s : State C)
      → At P o (here P p o) s
      → At P o
          (end_at ((new_terminal_error_for p.toolkit p.environment reason s).1))
          ((new_terminal_error_for p.toolkit p.environment reason s).0)
  unfolding new_terminal_error_for ended failed_as
  At-new_terminal_error_for reason s held = At-emit P p o _ _ _ (w.event_ _ _) (
      At-mark P p o w
        (λ x.
          p.toolkit.mark_stalled (reason_text reason)
            (p.toolkit.mark_false ready_condition (reason_text reason) x))
        (here P p o) s held)

  pub observe-Ends :
      (s : State C)
      → At P o (here P p o) s
      → Ends P o (here P p o) end_at (λ _. Unit {0}) (observe p s)
  unfolding observe
  observe-Ends s held =
      Ends-pure P o (here P p o) end_at (λ _. Unit {0}) _
        (observe_sources p.cluster s.object.generator) _ (λ e _. At-retry_fetch s held)
        (λ remote _. (held, tt))

  pub fetch_all-Ends :
      (dir : Text) (remote : Dict ObservedSource) (s : State C)
      → At P o (here P p o) s
      → Ends P o (here P p o) end_at (λ _. Unit {0}) (fetch_all p dir remote s)
  unfolding fetch_all
  fetch_all-Ends dir remote s held =
      Ends-wrap P o (here P p o) (λ es. here P p o) end_at (λ _. Unit {0}) _ _
        (fetch_sources-Ends P p o w dir remote s [] held) (λ later es at1. At-retry_fetch later at1)

  handle_as-At :
      (h : Handling) (s : State C)
      → At P o (here P p o) s
      → At P o (end_at ((handle_as p h s).1)) ((handle_as p h s).0)
  unfolding handle_as
  handle_as-At stall_access_denied s held = At-new_terminal_error_for access_denied s held
  handle_as-At requeue_source_fetch_failed s held = At-retry_fetch s held

  pub values_stage-Ends :
      (s : State C)
      → At P o (here P p o) s
      → Ends P o (here P p o) end_at (λ _. Unit {0}) (values_stage p s)
  unfolding values_stage
  values_stage-Ends s held =
      Ends-pure P o (here P p o) end_at (λ _. Unit {0}) (values_failed p s)
        (resolve_values (values_resolver p) s.object.generator) (λ values. ok (s, values))
        (λ e _. handle_as-At (handle_values_error e) s held) (λ values _. (held, tt))

  pub pipeline_stage-Ends :
      (local : Dict Text) (values : Fields) (s : State C)
      → At P o (here P p o) s
      → Ends P o (here P p o) end_at (λ _. Unit {0}) (pipeline_stage p local values s)
  unfolding pipeline_stage ended failed_as reported
  pipeline_stage-Ends local values s held =
      Ends-pure P o (here P p o) end_at (λ _. Unit {0})
        (λ e. (warn p.toolkit p.environment pipeline_failed s, error (not_evaluated e)))
        (run_pipeline p.validator.libraries p.context s.object.generator local (entries values))
        (λ outputs. ok (s, outputs)) (λ e _. At-warn P p o w pipeline_failed s held)
        (λ outputs _. (held, tt))

  -- The reference of a published artifact.
  abbrev pub IsReferenceOf : ManifestArtifact → ExternalArtifactReference → Type 0
  IsReferenceOf spec ref = (ref.name ≡ spec.name) × (ref.namespace ≡ o.generator.namespace)

  pub publish_artifact-Ends :
      (tmp : Text) (remote : Dict ObservedSource) (local : Dict Text) (scope : Dict Value)
      (spec : ManifestArtifact) (s : State C)
      → has spec.name (artifact_names o.generator.spec.artifacts) ≡ true
      → At P o (here P p o) s
      → Ends P o
          (here P p o)
          end_at
          (IsReferenceOf spec)
          (publish_artifact p tmp remote local scope spec s)
  unfolding publish_artifact build_failed publish_failed ended failed_as reported
  publish_artifact-Ends tmp remote local scope spec s h held =
      Ends-pure P o (here P p o) end_at (IsReferenceOf spec) (build_failed p s spec)
        (Build.build p.builder p.storage (p.polls spec.name) spec local scope
          s.object.generator.namespace tmp)
        (λ a. wrap (publish_failed p spec) (
          reconcile_external_artifact p spec
            (record a { info = set_artifact_revisions a.info spec remote }) s))
        (λ e _. At-warn P p o w (build_reason e) s held)
        (λ a _.
          Ends-wrap P o (here P p o) (λ es. here P p o) end_at (IsReferenceOf spec)
            (publish_failed p spec) _
            (reconcile_external_artifact-Ends P p o w spec
              (record a { info = set_artifact_revisions a.info spec remote }) s h held)
            (λ later es at1. At-warn P p o w reconciliation_failed later at1))

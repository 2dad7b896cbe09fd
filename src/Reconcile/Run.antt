-- ===== src/Reconcile/Run.antt =====
-- Reconcile and reconcile of internal/controller/manifestgenerator_controller.go: one run, from the
-- object that the client gets to the final patch of its status.
use flux_dev.Api.{ExternalArtifactReference, ManifestGenerator, get_requeue_after, is_disabled}
use flux_dev.Base.{
  List, Option, Result, [], err, if◌then◌else◌, none, not, ok, some, wrap, ◌>>=◌, ◌∷◌,
}
use flux_dev.Controller.Inventory.{changed_references, find_orphaned_references}
use flux_dev.Controller.Pipeline.{
  Handling, handle_values_error, requeue_source_fetch_failed, resolve_values, run_pipeline,
  stall_access_denied, template_data,
}
use flux_dev.Controller.Sources.{ObservedSource, hash_observed_sources, observe_sources}
use flux_dev.Controller.Validation.{Rejection, access_denied, reason_of, validate_spec}
use flux_dev.Dict.{Dict}
use flux_dev.Reconcile.Finalize.{add_finalizer, finalize, finalize_external_artifacts, finalizer}
use flux_dev.Reconcile.Publish.{Params, Stage, fetch_sources, publish, source_fetch_failed}
use flux_dev.Reconcile.State.{
  ApiError, Early, Object, Outcome, State, aggregate, collect_garbage, emit, error, event, finished,
  no_temp_dir, normal, not_evaluated, not_found, object_unreadable, on_conditions, other, requeue,
  status_not_updated, trace, with_object,
}
use flux_dev.Reconcile.Status.{new_terminal_error_for, patch_status_of, summarize_status, warn}
use flux_dev.Reconcile.Toolkit.{Toolkit, progressing, ready_condition, succeeded}
use flux_dev.Text.{Text, text}
use flux_dev.Tree.{Fields, Value, entries}
use flux_dev.Values.{Error, Resolver}
use flux_dev.Values

abbrev pub pipeline_failed : Text
pipeline_failed = text "PipelineFailed"

module _ {C : Type 0} where
  abbrev pub initial : Object C → State C
  initial o = record { object = o; stored = o; effects = [] }

  abbrev pub past_patch : Text → State C × List ApiError → Stage C Text
  past_patch dir (s, []) = ok (s, dir)
  past_patch dir (s, e ∷ es) = err (s, error (status_not_updated (e ∷ es)))

  abbrev pub mark_in_progress : Toolkit C → C → C
  mark_in_progress t c =
      t.mark_unknown ready_condition progressing (t.mark_reconciling progressing c)

  -- GarbageCollect of every reference: its errors are only logged.
  unfoldable pub collect_garbage_of : List ExternalArtifactReference → State C → State C
  collect_garbage_of [] s = s
  collect_garbage_of (ref ∷ refs) s =
      collect_garbage_of refs (emit (collect_garbage ref.namespace ref.name) s)

  abbrev pub announce : List ExternalArtifactReference → State C → State C
  announce [] s = s
  announce (ref ∷ changed) s = emit (event normal ready_condition) s

  unfoldable pub notify : ManifestGenerator → List ExternalArtifactReference → State C → State C
  notify old refs s = announce (changed_references old refs) s

  module _ (p : Params C) where
    unfoldable pub begin : State C → Stage C Text
    begin s = elim p.temp_dir [
      | err message ↦ err (s, error (no_temp_dir message))
      | ok dir ↦
          past_patch dir
            (patch_status_of p.toolkit p.environment (on_conditions (mark_in_progress p.toolkit) s))
    ]

    -- A warning, and another try at the dependency interval.
    unfoldable pub retry_fetch : State C → Early C
    retry_fetch s =
        (warn p.toolkit p.environment source_fetch_failed s, requeue p.dependency_requeue_interval)

    unfoldable pub observe : State C → Stage C (Dict ObservedSource)
    observe s = do
      remote ← wrap (λ e. retry_fetch s) (observe_sources p.cluster s.object.generator)
      ok (s, remote)

    unfoldable pub fetch_all : Text → Dict ObservedSource → State C → Stage C (Dict Text)
    fetch_all dir remote s =
        wrap (λ failure. retry_fetch (failure.0)) (fetch_sources p.environment dir remote s [])

    abbrev pub values_resolver : Resolver
    values_resolver = record p.validator.resolver {
      no_cross_namespace_refs = p.validator.no_cross_namespace_refs;
    }

    unfoldable pub handle_as : Handling → State C → Early C
    unfolding retry_fetch
    handle_as stall_access_denied s = new_terminal_error_for p.toolkit p.environment access_denied s
    handle_as requeue_source_fetch_failed s = retry_fetch s

    -- handleValuesError
    abbrev pub values_failed : State C → Values.Error → Early C
    values_failed s e = handle_as (handle_values_error e) s

    unfoldable pub values_stage : State C → Stage C Fields
    values_stage s = do
      values ← wrap (values_failed s) (resolve_values values_resolver s.object.generator)
      ok (s, values)

    unfoldable pub pipeline_stage : Dict Text → Fields → State C → Stage C (Dict Value)
    pipeline_stage local values s = do
      outputs ←
          wrap (λ e. (warn p.toolkit p.environment pipeline_failed s, error (not_evaluated e)))
            (run_pipeline p.validator.libraries p.context s.object.generator local (entries values))
      ok (s, outputs)

    unfoldable pub record_success : List ExternalArtifactReference → Text → Object C → Object C
    record_success refs digest o = record o {
      generator = record o.generator { inventory = refs };
      observed_sources_digest = digest;
      observed_generation = o.generation;
      conditions = p.toolkit.mark_true ready_condition succeeded o.conditions;
    }

    -- What reconcile does once every artifact is published.
    unfoldable pub conclude :
        Dict ObservedSource → List ExternalArtifactReference → State C → Early C
    unfolding record_success
    conclude remote refs s =
        let old = s.object.generator in
        let orphans = find_orphaned_references old.inventory refs in
        let cleaned = collect_garbage_of refs (finalize_external_artifacts p.toolkit orphans s) in
        let recorded =
          with_object (record_success refs (hash_observed_sources p.sha256 remote)) cleaned in
        (
          notify old refs (emit (event trace ready_condition) recorded),
          requeue (p.toolkit.jitter (get_requeue_after old)),
        )

    -- The part of reconcile that may return early: the sources and the published references.
    unfoldable pub prepare :
        State C → Stage C (Dict ObservedSource × List ExternalArtifactReference)
    unfolding begin observe fetch_all values_stage pipeline_stage
    prepare s = do
      (begun, dir) ← begin s
      (observed, remote) ← observe begun
      (fetched, local) ← fetch_all dir remote observed
      (resolved, values) ← values_stage fetched
      (evaluated, outputs) ← pipeline_stage local values resolved
      (published, refs) ←
          publish p dir remote local (template_data outputs values)
            evaluated.object.generator.spec.artifacts evaluated
      ok (published, (remote, refs))

    abbrev pub concluded : Stage C (Dict ObservedSource × List ExternalArtifactReference) → Early C
    concluded (ok (s, (remote, refs))) = conclude remote refs s
    concluded (err e) = e

    unfoldable pub reconcile : State C → Early C
    unfolding prepare conclude
    reconcile s = concluded (prepare s)

    abbrev pub validated : Result Rejection (Unit {0}) → State C → Early C
    validated (err rejection) s =
        new_terminal_error_for p.toolkit p.environment (reason_of rejection) s
    validated (ok u) s = reconcile s

    -- validateSpec, and what follows.
    unfoldable pub reconcile_valid : State C → Early C
    reconcile_valid s = validated (validate_spec p.validator s.object.generator) s

    -- The body of Reconcile, between the Get and the deferred call.
    unfoldable pub dispatch : State C → Early C
    unfolding reconcile_valid
    dispatch s =
        if s.object.is_deleting
        then finalize p.toolkit s
        else if not (p.toolkit.contains_finalizer finalizer s.object.finalizers)
        then add_finalizer p.toolkit s
        else if is_disabled s.object.generator
        then (emit (event trace (text "ReconciliationDisabled")) s, finished)
        else reconcile_valid s

    -- The error of the deferred summarizeStatus joins the returned one.
    abbrev pub with_errors : Outcome → List ApiError → Outcome
    with_errors outcome [] = outcome
    with_errors (error failure) (e ∷ es) = error (aggregate failure (status_not_updated (e ∷ es)))
    with_errors finished (e ∷ es) = error (status_not_updated (e ∷ es))
    with_errors (requeue after) (e ∷ es) = error (status_not_updated (e ∷ es))

    abbrev summarized : Outcome → State C × List ApiError → Early C
    summarized outcome (s, es) = (s, with_errors outcome es)

    unfoldable pub reconcile_object : Object C → Early C
    unfolding dispatch
    reconcile_object o =
        let ran = dispatch (initial o) in
        summarized (ran.1) (summarize_status p.toolkit p.environment (ran.0))

    -- Reconcile, by what the client's Get gives: the state where there is an object.
    unfoldable pub reconcile_request : Result ApiError (Object C) → Option (State C) × Outcome
    unfolding reconcile_object
    reconcile_request (err (not_found message)) = (none, finished)
    reconcile_request (err (other message)) = (none, error (object_unreadable (other message)))
    reconcile_request (ok o) = let ran = reconcile_object o in (some (ran.0), ran.1)

-- ===== src/Reconcile/Ran.antt =====
-- All the ways in which the body of Reconcile ends.
use flux_dev.Api.{ExternalArtifactReference, get_requeue_after, is_disabled}
use flux_dev.Base.{
  Bool, List, Result, [], ap, arith, err, false, if_cases, if◌then◌else◌, not, ok, refl, sym, true,
  ◌∙◌, ◌∷◌, ◌≡◌,
}
use flux_dev.Controller.Inventory.{changed_references, find_orphaned_references}
use flux_dev.Controller.Sources.{ObservedSource, hash_observed_sources}
use flux_dev.Controller.Validation.{Reason, Rejection, reason_of, validate_spec}
use flux_dev.Dict.{Dict}
use flux_dev.Reconcile.Effects.{IsPublished, started}
use flux_dev.Reconcile.Ends.{At, Ends, ended, with_conditions}
use flux_dev.Reconcile.Finalize.{
  add_finalizer, finalize, finalize_external_artifacts, finalizer, millisecond,
}
use flux_dev.Reconcile.Phases.{end_at}
use flux_dev.Reconcile.Prepare.{prepare-Ends}
use flux_dev.Reconcile.Publish.{Params, Stage}
use flux_dev.Reconcile.Run.{
  announce, collect_garbage_of, conclude, concluded, dispatch, initial, mark_in_progress, notify,
  prepare, reconcile, reconcile_valid, record_success, validated,
}
use flux_dev.Reconcile.Stages.{Permits, here}
use flux_dev.Reconcile.State.{
  Early, Object, Outcome, State, emit, error, event, finished, requeue, terminal, trace,
  with_object,
}
use flux_dev.Reconcile.Status.{new_terminal_error_for, reason_text}
use flux_dev.Reconcile.Toolkit.{progressing, ready_condition}
use flux_dev.Text.{Text, text}
use mathlib.Core.Path.{subst}

module _ {C : Type 0} (p : Params C) (o : Object C) where
  abbrev pub has_finalizer : Bool
  has_finalizer = p.toolkit.contains_finalizer finalizer o.finalizers

  abbrev pub stalled_for : Reason → C → C
  stalled_for reason c =
      p.toolkit.mark_stalled (reason_text reason)
        (p.toolkit.mark_false ready_condition (reason_text reason) c)

  abbrev pub adopting : C → C
  adopting c =
      if is_disabled o.generator
      then p.toolkit.mark_true ready_condition (text "ReconciliationDisabled") c
      else p.toolkit.mark_reconciling progressing
          (p.toolkit.mark_unknown ready_condition progressing c)

  -- The object that a successful run leaves.
  abbrev pub published_as : List ExternalArtifactReference → Text → Object C
  published_as refs digest =
      record_success p refs digest (with_conditions o (mark_in_progress p.toolkit o.conditions))

  pub data Ran : State C → Outcome → Type 0 where
    released :
        {s : State C}
        → o.is_deleting ≡ true
        → s.object ≡ record o { finalizers = p.toolkit.remove_finalizer finalizer o.finalizers }
        → s.stored ≡ o
        → Ran s finished
    adopted :
        {s : State C}
        → o.is_deleting ≡ false
        → has_finalizer ≡ false
        → s.object ≡ record o {
          finalizers = p.toolkit.add_finalizer finalizer o.finalizers;
          conditions = adopting o.conditions;
        }
        → s.stored ≡ o
        → Ran s (requeue millisecond)
    skipped :
        {s : State C}
        → o.is_deleting ≡ false
        → has_finalizer ≡ true
        → s.object ≡ o
        → s.stored ≡ o
        → Ran s finished
    rejected :
        {s : State C} (reason : Reason)
        → o.is_deleting ≡ false
        → has_finalizer ≡ true
        → s.object ≡ with_conditions o (stalled_for reason o.conditions)
        → s.stored ≡ o
        → Ran s (error (terminal reason))
    stopped :
        {s : State C} (outcome : Outcome)
        → o.is_deleting ≡ false
        → has_finalizer ≡ true
        → At (λ e. Unit {0}) o (ended p.toolkit o.conditions outcome) s
        → Ran s outcome
    completed :
        {s : State C} (refs : List ExternalArtifactReference) (digest : Text)
        → o.is_deleting ≡ false
        → has_finalizer ≡ true
        → IsPublished p o refs
        → s.object ≡ published_as refs digest
        → s.stored ≡ with_conditions o s.stored.conditions
        → Ran s (requeue (p.toolkit.jitter (get_requeue_after o.generator)))

  abbrev RanBy : Early C → Type 0
  RanBy e = Ran (e.0) (e.1)

  abbrev pub any : Permits (λ e. Unit {0}) p o
  any = record {
    event_ = λ v reason. tt;
    patch_ = λ s. tt;
    make_dir_ = λ dir. tt;
    fetch_ = λ url digest dir. tt;
    apply_ = λ name wanted. tt;
    artifact_status_ = λ name a wanted. tt;
  }

  pub finalize_external_artifacts-object :
      (refs : List ExternalArtifactReference) (s : State C)
      → ((finalize_external_artifacts p.toolkit refs s).object ≡ s.object)
        × ((finalize_external_artifacts p.toolkit refs s).stored ≡ s.stored)
  unfolding finalize_external_artifacts
  finalize_external_artifacts-object [] s = (refl, refl)
  finalize_external_artifacts-object (ref ∷ refs) s = finalize_external_artifacts-object refs _

  collect_garbage_of-object :
      (refs : List ExternalArtifactReference) (s : State C)
      → ((collect_garbage_of refs s).object ≡ s.object)
        × ((collect_garbage_of refs s).stored ≡ s.stored)
  unfolding collect_garbage_of
  collect_garbage_of-object [] s = (refl, refl)
  collect_garbage_of-object (ref ∷ refs) s = collect_garbage_of-object refs _

  announce-object :
      (refs : List ExternalArtifactReference) (s : State C)
      → ((announce refs s).object ≡ s.object) × ((announce refs s).stored ≡ s.stored)
  announce-object [] s = (refl, refl)
  announce-object (ref ∷ refs) s = (refl, refl)

  -- A run that gets through its stages ends by recording what it published.
  pub conclude-published :
      (remote : Dict ObservedSource) (refs : List ExternalArtifactReference) (s : State C)
      → At (λ e. Unit {0}) o (here (λ e. Unit {0}) p o) s
      → ((conclude p remote refs s).0.object
          ≡ published_as refs (hash_observed_sources p.sha256 remote))
        × ((conclude p remote refs s).0.stored
            ≡ with_conditions o (conclude p remote refs s).0.stored.conditions)
        × ((conclude p remote refs s).1
            ≡ requeue (p.toolkit.jitter (get_requeue_after o.generator)))
  unfolding conclude notify
  conclude-published remote refs s held =
      let orphans = find_orphaned_references s.object.generator.inventory refs in
      let cleaned = finalize_external_artifacts-object orphans s in
      let collected =
        collect_garbage_of-object refs (finalize_external_artifacts p.toolkit orphans s) in
      let digest = hash_observed_sources p.sha256 remote in
      let announced = announce-object (changed_references s.object.generator refs) (
        emit (event trace ready_condition) (
          with_object (record_success p refs digest)
            (collect_garbage_of refs (finalize_external_artifacts p.toolkit orphans s)))) in
      (
        announced.0 ∙ ap (record_success p refs digest) (collected.0 ∙ cleaned.0 ∙ held.kept),
        subst (λ x. x ≡ with_conditions o x.conditions)
            (sym (announced.1 ∙ collected.1 ∙ cleaned.1)) held.synced,
        ap (λ x. requeue (p.toolkit.jitter (get_requeue_after x.generator))) held.kept,
      )

  concluded-Ran :
      (m : Stage C (Dict ObservedSource × List ExternalArtifactReference))
      → o.is_deleting ≡ false
      → has_finalizer ≡ true
      → Ends
          (λ e. Unit {0})
          o
          (here (λ e. Unit {0}) p o)
          (end_at (λ e. Unit {0}) p o any)
          (λ x. IsPublished p o (x.1))
          m
      → Ran ((concluded p m).0) ((concluded p m).1)
  concluded-Ran (err (s, outcome)) d f ends = stopped outcome d f ends
  concluded-Ran (ok (s, (remote, refs))) d f ends =
      let end = conclude-published remote refs s ends.0 in
      subst (Ran ((conclude p remote refs s).0)) (sym end.2)
        (completed refs (hash_observed_sources p.sha256 remote) d f ends.1 end.0 end.1)

  validated-Ran :
      (r : Result Rejection (Unit {0}))
      → o.is_deleting ≡ false
      → has_finalizer ≡ true
      → Ran ((validated p r (initial o)).0) ((validated p r (initial o)).1)
  unfolding new_terminal_error_for reconcile
  validated-Ran (err rejection) d f = rejected (reason_of rejection) d f refl refl
  validated-Ran (ok u) d f =
      concluded-Ran (prepare p (initial o)) d f
        (prepare-Ends (λ e. Unit {0}) p o any (initial o) (started (λ e. Unit {0}) p o))

  pub dispatch-Ran : Ran ((dispatch p (initial o)).0) ((dispatch p (initial o)).1)
  unfolding dispatch finalize add_finalizer reconcile_valid
  dispatch-Ran =
      if_cases RanBy o.is_deleting
        (λ d.
          let cleaned = finalize_external_artifacts-object o.generator.inventory (initial o) in
          released d (rw cleaned.0 refl) cleaned.1)
        (λ d.
          if_cases RanBy (not has_finalizer) (λ f. adopted d (ground arith) refl refl)
            (λ f.
              if_cases RanBy (is_disabled o.generator) (λ e. skipped d (ground arith) refl refl)
                (λ e. validated-Ran (validate_spec p.validator o.generator) d (ground arith))))

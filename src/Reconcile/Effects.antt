-- ===== src/Reconcile/Effects.antt =====
-- What one run may send: a predicate that holds of every request that the parts of a run make holds
-- of all its effects.
use flux_dev.Api.{ExternalArtifactReference, is_disabled}
use flux_dev.Base.{
  All, Bool, List, Result, [], ap, arith, err, if_cases, is_ok, not, ok, refl, sym, true, ◌&&◌, ◌∷◌,
  ◌≡◌,
}
use flux_dev.Controller.Inventory.{changed_references, find_orphaned_references}
use flux_dev.Controller.Sources.{ObservedSource}
use flux_dev.Controller.Validation.{Rejection, validate_spec}
use flux_dev.Dict.{Dict}
use flux_dev.Reconcile.Ends.{At, Ends, IsNamed}
use flux_dev.Reconcile.Finalize.{add_finalizer, finalize, finalize_external_artifacts, finalizer}
use flux_dev.Reconcile.Phases.{end_at}
use flux_dev.Reconcile.Prepare.{prepare-Ends}
use flux_dev.Reconcile.Publish.{Params, Stage}
use flux_dev.Reconcile.Run.{
  announce, collect_garbage_of, conclude, concluded, dispatch, initial, notify, prepare, reconcile,
  reconcile_valid, validated,
}
use flux_dev.Reconcile.Stages.{Permits, here}
use flux_dev.Reconcile.State.{
  Early, Effect, Object, Severity, State, collect_garbage, delete_artifact, event, patch_status,
  remove_from_storage,
}
use flux_dev.Reconcile.Status.{new_terminal_error_for}
use flux_dev.Reconcile.Toolkit.{Toolkit}
use flux_dev.Text.{Text}
use mathlib.Core.Path.{subst}

module _ {C : Type 0} (p : Params C) (o : Object C) where
  -- Whether the run gets as far as reconcile.
  unfoldable pub reconciles : Bool
  reconciles =
      not o.is_deleting
      && p.toolkit.contains_finalizer finalizer o.finalizers
      && not (is_disabled o.generator)
      && is_ok (validate_spec p.validator o.generator)

  abbrev pub IsPublished : List ExternalArtifactReference → Type 0
  IsPublished refs = IsNamed o.generator.namespace o.generator.spec.artifacts refs

module _ {C : Type 0} (P : Effect C → Type 0) where
  -- The two requests that delete an artifact.
  abbrev pub Deletes : ExternalArtifactReference → Type 0
  Deletes ref =
      P (remove_from_storage ref.namespace ref.name) × P (delete_artifact ref.namespace ref.name)

  finalize_external_artifacts-All :
      (t : Toolkit C) (refs : List ExternalArtifactReference) (s : State C)
      → All Deletes refs
      → All P s.effects
      → All P (finalize_external_artifacts t refs s).effects
  unfolding finalize_external_artifacts
  finalize_external_artifacts-All t [] s h held = held
  finalize_external_artifacts-All t (ref ∷ refs) s h held =
      finalize_external_artifacts-All t refs _ h.1 (h.0.1, (h.0.0, held))

  collect_garbage_of-All :
      (refs : List ExternalArtifactReference) (s : State C)
      → All (λ ref. P (collect_garbage ref.namespace ref.name)) refs
      → All P s.effects
      → All P (collect_garbage_of refs s).effects
  unfolding collect_garbage_of
  collect_garbage_of-All [] s h held = held
  collect_garbage_of-All (ref ∷ refs) s h held = collect_garbage_of-All refs _ h.1 (h.0, held)

  module _ (p : Params C) (o : Object C) where
    pub record Allows : Type 0 where
      pub event_ : (v : Severity) (reason : Text) → P (event v reason)
      pub patch_ : (later : Object C) → P (patch_status later)
      pub runs : reconciles p o ≡ true → Permits P p o
      pub finalizes : o.is_deleting ≡ true → All Deletes o.generator.inventory
      pub orphans :
          reconciles p o ≡ true
          → (refs : List ExternalArtifactReference) → IsPublished p o refs
          → All Deletes (find_orphaned_references o.generator.inventory refs)
      pub garbage :
          reconciles p o ≡ true
          → (refs : List ExternalArtifactReference) → IsPublished p o refs
          → All (λ ref. P (collect_garbage ref.namespace ref.name)) refs

    pub started : At P o o.conditions (initial o)
    started = record { allowed = tt; kept = refl; synced = refl }

    abbrev Q : Early C → Type 0
    Q e = All P (e.0).effects

    module _ (w : Allows) where
      announce-All :
          (changed : List ExternalArtifactReference) (s : State C)
          → All P s.effects
          → All P (announce changed s).effects
      announce-All [] s held = held
      announce-All (ref ∷ changed) s held = (w.event_ _ _, held)

      conclude-All :
          (remote : Dict ObservedSource) (refs : List ExternalArtifactReference) (s : State C)
          → reconciles p o ≡ true
          → IsPublished p o refs
          → s.object.generator.inventory ≡ o.generator.inventory
          → All P s.effects
          → All P (conclude p remote refs s).0.effects
      unfolding conclude notify
      conclude-All remote refs s h named same held =
          announce-All (changed_references s.object.generator refs) _ (
            w.event_ _ _,
            collect_garbage_of-All refs _ (w.garbage h refs named) (
                finalize_external_artifacts-All p.toolkit _ s
                  (subst (λ inv. All Deletes (find_orphaned_references inv refs)) (sym same)
                    (w.orphans h refs named))
                  held),
          )

      concluded-All :
          (m : Stage C (Dict ObservedSource × List ExternalArtifactReference))
          → (h : reconciles p o ≡ true)
          → Ends P o (here P p o) (end_at P p o (w.runs h)) (λ x. IsPublished p o (x.1)) m
          → All P (concluded p m).0.effects
      concluded-All (ok (s, (remote, refs))) h ends =
          conclude-All remote refs s h ends.1 (ap (λ x. x.generator.inventory) ends.0.kept)
            ends.0.allowed
      concluded-All (err e) h ends = ends.allowed

      validated-All :
          (r : Result Rejection (Unit {0}))
          → (is_ok r ≡ true → reconciles p o ≡ true)
          → All P (validated p r (initial o)).0.effects
      unfolding new_terminal_error_for reconcile
      validated-All (err rejection) h = (w.event_ _ _, tt)
      validated-All (ok u) h =
          concluded-All (prepare p (initial o)) (h refl)
            (prepare-Ends P p o (w.runs (h refl)) (initial o) started)

      pub dispatch-All : All P (dispatch p (initial o)).0.effects
      unfolding dispatch reconciles finalize add_finalizer reconcile_valid
      dispatch-All =
          if_cases Q o.is_deleting
            (λ d.
              finalize_external_artifacts-All p.toolkit o.generator.inventory (initial o)
                (w.finalizes d) tt)
            (λ d.
              if_cases Q (not (p.toolkit.contains_finalizer finalizer o.finalizers)) (λ f. tt)
                (λ f.
                  if_cases Q (is_disabled o.generator) (λ e. (w.event_ _ _, tt))
                    (λ e.
                      validated-All (validate_spec p.validator o.generator) (λ v. ground arith))))

-- ===== src/Reconcile/Finalize.antt =====
-- internal/controller/manifestgenerator_finalize.go: the finalizer, and the deletion of published
-- artifacts.
use flux_dev.Api.{ExternalArtifactReference, is_disabled}
use flux_dev.Base.{List, [], if◌then◌else◌, ℕ, ◌∷◌}
use flux_dev.Reconcile.State.{
  Early, State, delete_artifact, emit, finished, on_conditions, remove_from_storage, requeue,
  with_object,
}
use flux_dev.Reconcile.Toolkit.{Toolkit, progressing, ready_condition}
use flux_dev.Text.{Text, text}

abbrev pub finalizer : Text
finalizer = text "manifests.fluxcd.tooling/finalizer"

abbrev pub millisecond : ℕ
millisecond = 1000000

module _ {C : Type 0} (t : Toolkit C) where
  -- The errors of both requests are only logged.
  unfoldable pub finalize_external_artifacts : List ExternalArtifactReference → State C → State C
  finalize_external_artifacts [] s = s
  finalize_external_artifacts (ref ∷ refs) s = finalize_external_artifacts refs (
      emit (delete_artifact ref.namespace ref.name)
        (emit (remove_from_storage ref.namespace ref.name) s))

  unfoldable pub finalize : State C → Early C
  unfolding finalize_external_artifacts
  finalize s =
      let cleaned = finalize_external_artifacts s.object.generator.inventory s in
      (
        with_object (λ o. record o { finalizers = t.remove_finalizer finalizer o.finalizers })
            cleaned,
        finished,
      )

  unfoldable pub add_finalizer : State C → Early C
  add_finalizer s =
      let added =
        with_object (λ o. record o { finalizers = t.add_finalizer finalizer o.finalizers }) s in
      (
        on_conditions
            (λ c.
              if is_disabled s.object.generator
              then t.mark_true ready_condition (text "ReconciliationDisabled") c
              else t.mark_reconciling progressing (t.mark_unknown ready_condition progressing c))
            added,
        requeue millisecond,
      )

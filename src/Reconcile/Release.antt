-- ===== src/Reconcile/Release.antt =====
-- The run that releases an object that is being deleted.
use flux_dev.Api.{ExternalArtifactReference}
use flux_dev.Base.{List, [], ap, false, refl, sym, true, ◌++◌, ◌∙◌, ◌∷◌, ◌≡◌}
use flux_dev.Reconcile.Finalize.{finalize, finalize_external_artifacts, finalizer}
use flux_dev.Reconcile.Lifecycle.{settled, settled-lifecycle}
use flux_dev.Reconcile.Publication.{patched-effects, patched-object}
use flux_dev.Reconcile.Publish.{Params}
use flux_dev.Reconcile.Ran.{finalize_external_artifacts-object}
use flux_dev.Reconcile.Run.{dispatch, initial, reconcile_object}
use flux_dev.Reconcile.State.{
  Object, State, Trace, delete_artifact, patch_status, remove_from_storage,
}
use flux_dev.Reconcile.Status.{patch_status_of, summarize_status}
use flux_dev.Reconcile.Toolkit.{IsToolkit, Toolkit}
use mathlib.Core.List.{append-nil}
use mathlib.Core.List.{append_assoc}

module _ {C : Type 0} where
  -- The two requests for each artifact, the latest first.
  abbrev pub deletions : List ExternalArtifactReference → Trace C
  deletions [] = []
  deletions (ref ∷ refs) =
      deletions refs
      ++ delete_artifact ref.namespace ref.name ∷ remove_from_storage ref.namespace ref.name ∷ []

  finalize_external_artifacts-effects :
      (t : Toolkit C) (refs : List ExternalArtifactReference) (s : State C)
      → (finalize_external_artifacts t refs s).effects ≡ deletions refs ++ s.effects
  unfolding finalize_external_artifacts
  finalize_external_artifacts-effects t [] s = refl
  finalize_external_artifacts-effects t (ref ∷ refs) s =
      finalize_external_artifacts-effects t refs _
      ∙ sym (
          append_assoc (deletions refs)
            (delete_artifact ref.namespace ref.name
              ∷ remove_from_storage ref.namespace ref.name
              ∷ [])
            s.effects)

  releasing :
      (p : Params C) (o : Object C)
      → o.is_deleting ≡ true
      → dispatch p (initial o) ≡ finalize p.toolkit (initial o)
  unfolding dispatch
  releasing p o d = rw d refl

  -- A run on an object that is being deleted asks for the deletion of every artifact of the
  -- inventory, in its order and from the storage first, then patches the object without the
  -- finalizer, and sends nothing else.
  pub reconcile_object-deletions :
      (p : Params C) (o : Object C)
      → IsToolkit p.toolkit
      → o.is_deleting ≡ true
      → ((reconcile_object p o).0.effects
          ≡ patch_status (reconcile_object p o).0.object ∷ deletions o.generator.inventory)
        × (p.toolkit.contains_finalizer finalizer (reconcile_object p o).0.object.finalizers
            ≡ false)
  unfolding reconcile_object finalize summarize_status patch_status_of
  reconcile_object-deletions p o laws d =
      let ran = (dispatch p (initial o)).0 in
      let released_ = releasing p o d in
      let same = patched-object p.toolkit p.environment (settled p o ran) in
      (
        patched-effects p.toolkit p.environment (settled p o ran)
            ∙ ap (λ x. patch_status x ∷ ran.effects) (sym same)
            ∙ ap (λ es. patch_status (reconcile_object p o).0.object ∷ es)
                (ap (λ e. e.0.effects) released_
                  ∙ finalize_external_artifacts-effects p.toolkit o.generator.inventory (initial o)
                  ∙ append-nil (deletions o.generator.inventory)),
        ap (λ x. p.toolkit.contains_finalizer finalizer x.finalizers) same
            ∙ ap (λ l. l.protected) (settled-lifecycle p o ran)
            ∙ ap (λ e. p.toolkit.contains_finalizer finalizer e.0.object.finalizers) released_
            ∙ ap
                (λ x.
                  p.toolkit.contains_finalizer finalizer
                    (p.toolkit.remove_finalizer finalizer x.finalizers))
                (finalize_external_artifacts-object p o o.generator.inventory (initial o)).0
            ∙ laws.contains-remove finalizer o.finalizers,
      )

-- ===== src/Reconcile/Lifecycle.antt =====
-- The life of one ManifestGenerator, abstractly, and the runs of the reconciler as its moves.
use flux_dev.Api.{ExternalArtifactReference}
use flux_dev.Base.{All, Bool, List, Option, false, inl, inr, none, refl, some, sym, true, ◌≡◌, ◌⊎◌}
use flux_dev.Reconcile.Ends.{artifact_names, reference_names}
use flux_dev.Reconcile.Finalize.{finalizer}
use flux_dev.Reconcile.Publish.{Params}
use flux_dev.Reconcile.Ran.{
  Ran, adopted, completed, dispatch-Ran, rejected, released, skipped, stopped,
}
use flux_dev.Reconcile.Run.{dispatch, initial, reconcile_object, record_success}
use flux_dev.Reconcile.State.{
  Object, Outcome, State, done, failed, on_conditions, patch_status, with_object,
}
use flux_dev.Reconcile.Status.{
  end_reconciling, handled_request, mark_retrying, patch_status_of, patched, set_last_handled,
  store_on, summarize_status,
}
use flux_dev.Reconcile.Toolkit.{IsToolkit, Toolkit}
use flux_dev.Text.{Text}
use mathlib.Core.Path.{subst}

-- Whether the object is being deleted and has the finalizer, what its spec calls for, and what its
-- inventory lists.
pub record Lifecycle : Type 0 where
  pub is_deleting : Bool
  pub protected : Bool
  pub namespace : Text
  pub wanted : List Text
  pub owned : List ExternalArtifactReference

pub data Move : Lifecycle → Lifecycle → Type 0 where
  idle : (l : Lifecycle) → Move l l
  protects :
      (l : Lifecycle)
      → l.is_deleting ≡ false
      → l.protected ≡ false
      → Move l (record l { protected = true })
  publishes :
      (l : Lifecycle) (refs : List ExternalArtifactReference)
      → l.is_deleting ≡ false
      → l.protected ≡ true
      → reference_names refs ≡ l.wanted
      → All (λ ref. ref.namespace ≡ l.namespace) refs
      → Move l (record l { owned = refs })
  releases : (l : Lifecycle) → l.is_deleting ≡ true → Move l (record l { protected = false })

-- A move changes nothing, or leaves the finalizer in place, or is of an object that is being deleted
-- and keeps its inventory.
pub Move-cases :
    {l m : Lifecycle}
    → Move l m
    → (m ≡ l)
      ⊎ ((m.protected ≡ true)
          ⊎ ((l.is_deleting ≡ true) × (m.is_deleting ≡ true) × (m.owned ≡ l.owned)))
Move-cases (idle l) = inl refl
Move-cases (protects l d f) = inr (inl refl)
Move-cases (publishes l refs d f names own) = inr (inl f)
Move-cases (releases l d) = inr (inr (d, d, refl))

module _ {C : Type 0} (t : Toolkit C) where
  abbrev pub lifecycle : Object C → Lifecycle
  lifecycle o = record {
    is_deleting = o.is_deleting;
    protected = t.contains_finalizer finalizer o.finalizers;
    namespace = o.generator.namespace;
    wanted = artifact_names o.generator.spec.artifacts;
    owned = o.generator.inventory;
  }

module _ {C : Type 0} (p : Params C) (o : Object C) where
  abbrev pub settled : State C → State C
  settled s =
      on_conditions
        (λ c. end_reconciling p.toolkit p.environment (mark_retrying p.toolkit p.environment c))
        (with_object (handled_request p.toolkit p.environment) s)

  set_last_handled-lifecycle :
      (v : Option Text) (x : Object C)
      → lifecycle p.toolkit (set_last_handled p.toolkit p.environment v x) ≡ lifecycle p.toolkit x
  set_last_handled-lifecycle none x = refl
  set_last_handled-lifecycle (some v) x = refl

  pub settled-lifecycle :
      (s : State C) → lifecycle p.toolkit (settled s).object ≡ lifecycle p.toolkit s.object
  unfolding handled_request
  settled-lifecycle s =
      set_last_handled-lifecycle
        (p.toolkit.reconcile_annotation_value s.object.generator.annotations) s.object

  stored-lifecycle :
      (s : State C)
      → Move (lifecycle p.toolkit o) (lifecycle p.toolkit s.object)
      → Move (lifecycle p.toolkit o) (lifecycle p.toolkit s.stored)
      → Move
          (lifecycle p.toolkit o)
          (lifecycle p.toolkit (summarize_status p.toolkit p.environment s).0.stored)
  unfolding summarize_status patch_status_of patched
  stored-lifecycle s h k =
      elim (p.environment s.effects (patch_status (settled s).object))
        as (λ a.
          Move (lifecycle p.toolkit o)
            (lifecycle p.toolkit (store_on p.toolkit p.environment a (settled s)).stored)) [
              | done ↦ subst (Move (lifecycle p.toolkit o)) (sym (settled-lifecycle s)) h
              | failed e es ↦ k
            ]

  Move-to :
      {x y : Object C}
      → x ≡ y
      → Move (lifecycle p.toolkit o) (lifecycle p.toolkit y)
      → Move (lifecycle p.toolkit o) (lifecycle p.toolkit x)
  Move-to e h = subst (λ z. Move (lifecycle p.toolkit o) (lifecycle p.toolkit z)) (sym e) h

  released-Move :
      IsToolkit p.toolkit
      → o.is_deleting ≡ true
      → Move (lifecycle p.toolkit o) (
          lifecycle p.toolkit
            (record o { finalizers = p.toolkit.remove_finalizer finalizer o.finalizers }))
  released-Move laws d =
      rw (laws.contains-remove finalizer o.finalizers) (releases (lifecycle p.toolkit o) d)

  Ran-Move :
      IsToolkit p.toolkit
      → {s : State C} {outcome : Outcome} → Ran p o s outcome
      → Move (lifecycle p.toolkit o) (lifecycle p.toolkit s.object)
        × Move (lifecycle p.toolkit o) (lifecycle p.toolkit s.stored)
  unfolding record_success
  Ran-Move laws (released d x y) = (Move-to x (released-Move laws d), Move-to y (idle _))
  Ran-Move laws (adopted d f x y) = (
    Move-to x
        (rw (laws.contains-add finalizer o.finalizers) (protects (lifecycle p.toolkit o) d f)),
    Move-to y (idle _),
  )
  Ran-Move laws (skipped d f x y) = (Move-to x (idle _), Move-to y (idle _))
  Ran-Move laws (rejected reason d f x y) = (Move-to x (idle _), Move-to y (idle _))
  Ran-Move laws (stopped outcome d f held) =
      (Move-to held.kept (idle _), Move-to held.synced (idle _))
  Ran-Move laws (completed refs digest d f named x y) =
      (Move-to x (publishes (lifecycle p.toolkit o) refs d f named.0 named.1), Move-to y (idle _))

  -- A run of the reconciler makes a move of the abstract life: what the server holds behind it is
  -- what it held before, or the object with the finalizer added, with the references of the spec's
  -- artifacts as its inventory, or, while it is being deleted, without the finalizer.
  pub reconcile_object-Move :
      IsToolkit p.toolkit
      → Move (lifecycle p.toolkit o) (lifecycle p.toolkit (reconcile_object p o).0.stored)
  unfolding reconcile_object
  reconcile_object-Move laws =
      let moves = Ran-Move laws (dispatch-Ran p o) in
      stored-lifecycle ((dispatch p (initial o)).0) moves.0 moves.1

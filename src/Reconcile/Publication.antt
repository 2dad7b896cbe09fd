-- ===== src/Reconcile/Publication.antt =====
-- What a run may fetch and publish.
use flux_dev.Api.{ExternalArtifactReference}
use flux_dev.Base.{All, Bool, List, [], ap, arith, refl, sym, true, ◌&&◌, ◌∷◌, ◌≡◌}
use flux_dev.Reconcile.Effects.{Allows, Deletes, dispatch-All, reconciles}
use flux_dev.Reconcile.Ends.{artifact_names, reference_names}
use flux_dev.Reconcile.Publish.{Params, labels_of}
use flux_dev.Reconcile.Run.{reconcile_object}
use flux_dev.Reconcile.State.{
  Answer, Effect, Environment, Object, State, apply_artifact, collect_garbage, done, failed, fetch,
  patch_artifact_status, patch_status,
}
use flux_dev.Reconcile.Status.{patch_status_of, patched, store_on, summarize_status}
use flux_dev.Reconcile.Toolkit.{Toolkit}
use flux_dev.Text.{Text, has, ◌==◌}
use flux_dev.Text.Equality.{eq_iff}
use mathlib.Core.Path.{subst}

module _ {C : Type 0} where
  store_on-effects :
      (t : Toolkit C) (env : Environment C) (a : Answer) (s : State C)
      → (store_on t env a s).effects ≡ s.effects
  store_on-effects t env done s = refl
  store_on-effects t env (failed e es) s = refl

  store_on-object :
      (t : Toolkit C) (env : Environment C) (a : Answer) (s : State C)
      → (store_on t env a s).object ≡ s.object
  store_on-object t env done s = refl
  store_on-object t env (failed e es) s = refl

  pub patched-object :
      (t : Toolkit C) (env : Environment C) (s : State C) → (patched t env s).object ≡ s.object
  unfolding patched
  patched-object t env s = store_on-object t env (env s.effects (patch_status s.object)) s

  pub patched-effects :
      (t : Toolkit C) (env : Environment C) (s : State C)
      → (patched t env s).effects ≡ patch_status s.object ∷ s.effects
  unfolding patched
  patched-effects t env s =
      ap (λ es. patch_status s.object ∷ es)
        (store_on-effects t env (env s.effects (patch_status s.object)) s)

  module _ (P : Effect C → Type 0) (p : Params C) (o : Object C) (w : Allows P p o) where
    pub reconcile_object-All : All P (reconcile_object p o).0.effects
    unfolding reconcile_object summarize_status patch_status_of
    reconcile_object-All =
        subst (All P) (sym (patched-effects p.toolkit p.environment _))
          (w.patch_ _, dispatch-All P p o w)

  module _ (p : Params C) (o : Object C) where
    -- The artifacts that the spec calls for.
    abbrev pub wants : Text → Text → Bool
    wants namespace name =
        namespace == o.generator.namespace && has name (artifact_names o.generator.spec.artifacts)

    -- A request to publish concerns an artifact that the spec calls for, and is made only if the
    -- object is to be reconciled.
    abbrev pub PublishesWanted : Effect C → Type 0
    PublishesWanted (apply_artifact namespace name labels) =
        (reconciles p o ≡ true) × (wants namespace name ≡ true) × (labels ≡ labels_of p o)
    PublishesWanted (patch_artifact_status namespace name a) =
        (reconciles p o ≡ true) × (wants namespace name ≡ true)
    PublishesWanted (collect_garbage namespace name) =
        (reconciles p o ≡ true) × (wants namespace name ≡ true)
    PublishesWanted (fetch url digest dir) = reconciles p o ≡ true
    PublishesWanted e = Unit

    wants_own :
        (name : Text)
        → has name (artifact_names o.generator.spec.artifacts) ≡ true
        → wants o.generator.namespace name ≡ true
    wants_own name h = ground (arith, eq_iff o.generator.namespace o.generator.namespace)

    wanted_refs :
        (refs : List ExternalArtifactReference)
        → All (λ ref. ref.namespace ≡ o.generator.namespace) refs
        → ((name : Text)
            → has name (reference_names refs) ≡ true
            → has name (artifact_names o.generator.spec.artifacts) ≡ true)
        → reconciles p o ≡ true
        → All (λ ref. PublishesWanted (collect_garbage ref.namespace ref.name)) refs
    unfolding has
    wanted_refs [] own h r = tt
    wanted_refs (ref ∷ refs) own h r = (
      (
        r,
        subst (λ ns. wants ns ref.name ≡ true) (sym own.0)
            (wants_own ref.name (h ref.name (ground (arith, eq_iff ref.name ref.name)))),
      ),
      wanted_refs refs own.1 (λ name found. h name (ground arith)) r,
    )

    trivial-Deletes : (refs : List ExternalArtifactReference) → All (Deletes PublishesWanted) refs
    trivial-Deletes [] = tt
    trivial-Deletes (ref ∷ refs) = ((tt, tt), trivial-Deletes refs)

    -- All that a run publishes is in the object's own namespace, under the name of an artifact of
    -- its spec and with the labels of the object; and it publishes or fetches only if the object is
    -- not being deleted, has its finalizer, is not disabled and has a valid spec.
    pub reconcile_object-PublishesWanted : All PublishesWanted (reconcile_object p o).0.effects
    reconcile_object-PublishesWanted = reconcile_object-All PublishesWanted p o (record {
      event_ = λ v reason. tt;
      patch_ = λ later. tt;
      runs = λ h. record {
        event_ = λ v reason. tt;
        patch_ = λ s. tt;
        make_dir_ = λ dir. tt;
        fetch_ = λ url digest dir. h;
        apply_ = λ name wanted. (h, wants_own name wanted, refl);
        artifact_status_ = λ name a wanted. (h, wants_own name wanted);
      };
      finalizes = λ d. trivial-Deletes o.generator.inventory;
      orphans = λ h refs named. trivial-Deletes _;
      garbage = λ h refs named.
          wanted_refs refs named.1
            (subst
              (λ names.
                (name : Text)
                → has name names ≡ true
                → has name (artifact_names o.generator.spec.artifacts) ≡ true)
              (sym named.0) (λ name found. found))
            h;
    })

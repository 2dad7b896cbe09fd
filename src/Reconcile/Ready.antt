-- ===== src/Reconcile/Ready.antt =====
-- When nothing fails, an object becomes ready.
use flux_dev.Api.{ExternalArtifactReference, is_disabled}
use flux_dev.Base.{List, Option, [], ap, false, found, none, ok, refl, some, sym, true, ◌∙◌, ◌≡◌}
use flux_dev.Controller.Pipeline.{resolve_values, run_pipeline, template_data}
use flux_dev.Controller.Sources.{ObservedSource, hash_observed_sources, observe_sources}
use flux_dev.Controller.Validation.{validate_spec}
use flux_dev.Dict.{Dict}
use flux_dev.Reconcile.Effects.{IsPublished, started}
use flux_dev.Reconcile.Ends.{Ends, IsNamed, with_conditions}
use flux_dev.Reconcile.Failed.{summarize_status-frame}
use flux_dev.Reconcile.Finalize.{add_finalizer, finalizer}
use flux_dev.Reconcile.Liveness.{Favourable, dispatch_prepared, patched-stored, prepare-Goes}
use flux_dev.Reconcile.Phases.{end_at}
use flux_dev.Reconcile.Prepare.{prepare-Ends}
use flux_dev.Reconcile.Progress.{AllBuild, AllDone, source_dirs}
use flux_dev.Reconcile.Publication.{patched-object}
use flux_dev.Reconcile.Publish.{Params}
use flux_dev.Reconcile.Ran.{any, conclude-published, has_finalizer, published_as}
use flux_dev.Reconcile.Run.{
  conclude, concluded, dispatch, initial, mark_in_progress, reconcile_object, record_success,
  values_resolver,
}
use flux_dev.Reconcile.Settle.{settle, settle-done}
use flux_dev.Reconcile.Stages.{here}
use flux_dev.Reconcile.State.{Object, State}
use flux_dev.Reconcile.Status.{handled_request, patch_status_of, set_last_handled, summarize_status}
use flux_dev.Reconcile.Toolkit.{
  IsToolkit, is_true, ready, ready_condition, reconciling_condition, succeeded,
}
use flux_dev.Text.{Text, ◌==◌}
use flux_dev.Tree.{Fields, Value, entries}
use mathlib.Core.Path.{subst}

module _ {C : Type 0} (p : Params C) (laws : IsToolkit p.toolkit) (all_done : AllDone p.environment)
    (dir : Text) (remote : Dict ObservedSource) (values : Fields) (outputs : Dict Value) where
  summarized-stored :
      (s : State C)
      → (summarize_status p.toolkit p.environment s).0.stored
        ≡ (summarize_status p.toolkit p.environment s).0.object
  unfolding summarize_status patch_status_of
  summarized-stored s =
      patched-stored p laws all_done dir remote values outputs _
      ∙ sym (patched-object p.toolkit p.environment _)

  -- The object has published what the spec of `o` calls for, and says so.
  abbrev pub IsReady : Object C → Object C → Type 0
  IsReady o x =
      (p.toolkit.find ready_condition x.conditions ≡ some (ready is_true succeeded))
      × (p.toolkit.find reconciling_condition x.conditions ≡ none)
      × IsPublished p o x.generator.inventory
      × (x.observed_generation ≡ o.generation)

  settle-succeeded :
      (c : C)
      → (p.toolkit.find ready_condition (
            settle p.toolkit laws p.environment
              (p.toolkit.mark_true ready_condition succeeded (mark_in_progress p.toolkit c)))
          ≡ some (ready is_true succeeded))
        × (p.toolkit.find reconciling_condition (
              settle p.toolkit laws p.environment
                (p.toolkit.mark_true ready_condition succeeded (mark_in_progress p.toolkit c)))
            ≡ none)
  unfolding ◌==◌
  settle-succeeded c =
      let begun = mark_in_progress p.toolkit c in
      let r = laws.find-mark_true ready_condition ready_condition succeeded begun in
      let done =
        settle-done p.toolkit laws p.environment
          (p.toolkit.mark_true ready_condition succeeded begun) (rw r refl) (rw r refl) in
      (done.0 ∙ r, done.1)

  published-IsReady :
      (o : Object C) (refs : List ExternalArtifactReference) (digest : Text) (s : State C)
      → IsPublished p o refs
      → s.object ≡ published_as p o refs digest
      → IsReady o (summarize_status p.toolkit p.environment s).0.stored
  unfolding record_success
  published-IsReady o refs digest s named e =
      let frame = summarize_status-frame p o laws s in
      let settled = settle-succeeded o.conditions in
      let conditions = frame.0 ∙ ap (λ x. settle p.toolkit laws p.environment x.conditions) e in
      subst (IsReady o) (sym (summarized-stored s)) (
        ap (p.toolkit.find ready_condition) conditions ∙ settled.0,
        ap (p.toolkit.find reconciling_condition) conditions ∙ settled.1,
        subst (IsPublished p o) (sym (ap (λ g. g.inventory) (frame.1 ∙ ap (λ x. x.generator) e)))
            named,
        frame.2 ∙ ap (λ x. x.observed_generation) e,
      )

  run-IsReady :
      (o : Object C)
      → Favourable p laws all_done dir remote values outputs o.generator
      → p.temp_dir ≡ ok dir
      → o.is_deleting ≡ false
      → has_finalizer p o ≡ true
      → IsReady o (reconcile_object p o).0.stored
  unfolding reconcile_object
  run-IsReady o fav t d f =
      let (s, found, e, same) = prepare-Goes p laws all_done dir remote values outputs o fav t in
      let all =
        prepare-Ends (λ e. Unit {0}) p o (any p o) (initial o) (started (λ e. Unit {0}) p o) in
      let ends : Ends (λ e. Unit {0}) o (here (λ e. Unit {0}) p o)
          (end_at (λ e. Unit {0}) p o (any p o)) (λ x. IsPublished p o (x.1)) (ok (s, found)) =
        subst
          (Ends (λ e. Unit {0}) o (here (λ e. Unit {0}) p o) (end_at (λ e. Unit {0}) p o (any p o))
            (λ x. IsPublished p o (x.1)))
          e all in
      let whole : dispatch p (initial o) ≡ conclude p (found.0) (found.1) s =
        dispatch_prepared p laws all_done dir remote values outputs o fav t d f
        ∙ ap (concluded p) e in
      published-IsReady o (found.1) (hash_observed_sources p.sha256 (found.0))
        ((dispatch p (initial o)).0) ends.1
        (ap (λ x. x.0.object) whole ∙ (conclude-published p o (found.0) (found.1) s ends.0).0)

  set_last_handled-keeps :
      {A : Type 0} (h : Object C → A)
      → ((x : Object C) (v : Text) → h (record x { last_handled_reconcile_at = v }) ≡ h x)
      → (v : Option Text) (x : Object C) → h (set_last_handled p.toolkit p.environment v x) ≡ h x
  set_last_handled-keeps h k none x = refl
  set_last_handled-keeps h k (some v) x = k x v

  summarize_status-keeps :
      {A : Type 0} (h : Object C → A)
      → ((x : Object C) (v : Text) → h (record x { last_handled_reconcile_at = v }) ≡ h x)
      → ((x : Object C) (c : C) → h (with_conditions x c) ≡ h x)
      → (s : State C) → h (summarize_status p.toolkit p.environment s).0.stored ≡ h s.object
  unfolding summarize_status patch_status_of handled_request
  summarize_status-keeps h k l s =
      ap h (patched-stored p laws all_done dir remote values outputs _)
      ∙ l _ _
      ∙ set_last_handled-keeps h k
          (p.toolkit.reconcile_annotation_value s.object.generator.annotations) s.object

  module _ (o : Object C) where
    abbrev first : Object C
    first = (reconcile_object p o).0.stored

    adopts_fresh :
        o.is_deleting ≡ false
        → has_finalizer p o ≡ false
        → dispatch p (initial o) ≡ add_finalizer p.toolkit (initial o)
    unfolding dispatch
    adopts_fresh d f = rw (d, f) refl

    first-keeps :
        {A : Type 0} (h : Object C → A)
        → ((x : Object C) (v : Text) → h (record x { last_handled_reconcile_at = v }) ≡ h x)
        → ((x : Object C) (c : C) → h (with_conditions x c) ≡ h x)
        → o.is_deleting ≡ false
        → has_finalizer p o ≡ false
        → h first ≡ h (record o { finalizers = p.toolkit.add_finalizer finalizer o.finalizers })
    unfolding reconcile_object add_finalizer
    first-keeps h k l d f =
        let adopts : dispatch p (initial o) ≡ add_finalizer p.toolkit (initial o) =
          adopts_fresh d f in
        summarize_status-keeps h k l ((dispatch p (initial o)).0)
        ∙ ap (λ x. h x.0.object) adopts
        ∙ l (record o { finalizers = p.toolkit.add_finalizer finalizer o.finalizers }) _

    -- Two runs make a new object ready, if every request is answered by success, the object is not
    -- being deleted, is not disabled and has a valid spec, its sources are there, its values resolve,
    -- its pipeline runs and each of its artifacts can be built.
    pub reconcile_object-IsReady :
        is_disabled o.generator ≡ false
        → validate_spec p.validator o.generator ≡ ok tt
        → observe_sources p.cluster o.generator ≡ ok remote
        → resolve_values (values_resolver p) o.generator ≡ ok values
        → run_pipeline p.validator.libraries p.context o.generator
            (source_dirs dir remote [])
            (entries values)
          ≡ ok outputs
        → AllBuild p dir
            (source_dirs dir remote [])
            (template_data outputs values)
            o.generator.namespace
            o.generator.spec.artifacts
        → p.temp_dir ≡ ok dir
        → o.is_deleting ≡ false
        → has_finalizer p o ≡ false
        → IsReady o (reconcile_object p (reconcile_object p o).0.stored).0.stored
    reconcile_object-IsReady e v s r u b t d f =
        let same : first.generator ≡ o.generator =
          first-keeps (λ x. x.generator) (λ x w. refl) (λ x c. refl) d f in
        let ran =
          run-IsReady first
            (subst (Favourable p laws all_done dir remote values outputs) (sym same)
              (e, v, s, r, u, b))
            t (first-keeps (λ x. x.is_deleting) (λ x w. refl) (λ x c. refl) d f ∙ d)
            (first-keeps (has_finalizer p) (λ x w. refl) (λ x c. refl) d f
              ∙ laws.contains-add finalizer o.finalizers) in
        let inventory = (reconcile_object p first).0.stored.generator.inventory in
        (
          ran.0,
          ran.1,
          subst (λ g. IsNamed g.namespace g.spec.artifacts inventory) same ran.2,
          ran.3 ∙ first-keeps (λ x. x.generation) (λ x w. refl) (λ x c. refl) d f,
        )

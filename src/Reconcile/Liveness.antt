-- ===== src/Reconcile/Liveness.antt =====
-- When nothing fails, reconcile gets as far as its end.
use flux_dev.Api.{ManifestGenerator, is_disabled}
use flux_dev.Base.{[], ap, false, ok, refl, sym, true, wrap, ◌>>=◌, ◌∙◌, ◌≡◌}
use flux_dev.Controller.Pipeline.{resolve_values, run_pipeline, template_data}
use flux_dev.Controller.Sources.{ObservedSource, observe_sources}
use flux_dev.Controller.Validation.{validate_spec}
use flux_dev.Dict.{Dict}
use flux_dev.Reconcile.Progress.{
  >>=-Goes, >>=-Goes_at, AllBuild, AllDone, Goes, fetch_sources-ok, publish-Goes, source_dirs,
}
use flux_dev.Reconcile.Publication.{patched-object}
use flux_dev.Reconcile.Publish.{Params}
use flux_dev.Reconcile.Ran.{has_finalizer}
use flux_dev.Reconcile.Run.{
  begin, concluded, dispatch, fetch_all, initial, mark_in_progress, observe, past_patch,
  pipeline_failed, pipeline_stage, prepare, reconcile, reconcile_valid, retry_fetch, values_failed,
  values_resolver, values_stage,
}
use flux_dev.Reconcile.State.{Object, State, error, not_evaluated, on_conditions, patch_status}
use flux_dev.Reconcile.Status.{patch_errors, patch_status_of, patched, store_on, warn}
use flux_dev.Reconcile.Toolkit.{IsToolkit}
use flux_dev.Text.{Text}
use flux_dev.Tree.{Fields, Value, entries}
use mathlib.Core.Path.{subst}

module _ {C : Type 0} (p : Params C) (laws : IsToolkit p.toolkit) (all_done : AllDone p.environment)
    (dir : Text) (remote : Dict ObservedSource) (values : Fields) (outputs : Dict Value) where
  -- Everything that a run asks for beside its requests is there, and the artifacts can be built.
  abbrev pub Favourable : ManifestGenerator → Type 0
  Favourable mg =
      (is_disabled mg ≡ false)
      × (validate_spec p.validator mg ≡ ok tt)
      × (observe_sources p.cluster mg ≡ ok remote)
      × (resolve_values (values_resolver p) mg ≡ ok values)
      × (run_pipeline p.validator.libraries p.context mg (source_dirs dir remote [])
            (entries values)
          ≡ ok outputs)
      × AllBuild p dir (source_dirs dir remote []) (template_data outputs values) mg.namespace
          mg.spec.artifacts

  pub patched-stored : (s : State C) → (patched p.toolkit p.environment s).stored ≡ s.object
  unfolding patched
  patched-stored s = ap (λ a. (store_on p.toolkit p.environment a s).stored) (all_done _ _)

  begin-ok :
      (s : State C)
      → p.temp_dir ≡ ok dir
      → begin p s
        ≡ ok (patched p.toolkit p.environment (on_conditions (mark_in_progress p.toolkit) s), dir)
  unfolding begin patch_status_of patch_errors
  begin-ok s t =
      let marked = on_conditions (mark_in_progress p.toolkit) s in
      rw t (
        ap
          (λ a.
            past_patch dir
              (patched p.toolkit p.environment marked, patch_errors s.object.is_deleting a))
          (all_done s.effects (patch_status marked.object)))

  module _ (o : Object C) (fav : Favourable o.generator) (t : p.temp_dir ≡ ok dir) where
    observe-ok : (s : State C) → s.object.generator ≡ o.generator → observe p s ≡ ok (s, remote)
    unfolding observe
    observe-ok s e =
        ap (λ m. wrap (λ e. retry_fetch p s) m >>= λ r. ok (s, r))
          (ap (observe_sources p.cluster) e ∙ fav.2)

    values_stage-ok :
        (s : State C) → s.object.generator ≡ o.generator → values_stage p s ≡ ok (s, values)
    unfolding values_stage
    values_stage-ok s e =
        ap (λ m. wrap (values_failed p s) m >>= λ r. ok (s, r))
          (ap (resolve_values (values_resolver p)) e ∙ fav.3)

    pipeline_stage-ok :
        (s : State C)
        → s.object.generator ≡ o.generator
        → pipeline_stage p (source_dirs dir remote []) values s ≡ ok (s, outputs)
    unfolding pipeline_stage
    pipeline_stage-ok s e =
        ap
          (λ m.
            wrap (λ e. (warn p.toolkit p.environment pipeline_failed s, error (not_evaluated e))) m
            >>= λ r. ok (s, r))
          (ap
              (λ mg.
                run_pipeline p.validator.libraries p.context mg (source_dirs dir remote [])
                  (entries values))
              e
            ∙ fav.4)

    abbrev pub begun : State C
    begun = patched p.toolkit p.environment (on_conditions (mark_in_progress p.toolkit) (initial o))

    begun-generator : begun.object.generator ≡ o.generator
    begun-generator =
        ap (λ x. x.generator)
          (patched-object p.toolkit p.environment
            (on_conditions (mark_in_progress p.toolkit) (initial o)))

    pub prepare-Goes : Goes begun (prepare p (initial o))
    unfolding prepare fetch_all
    prepare-Goes =
        let (fetched, e, same) = fetch_sources-ok p all_done dir remote begun [] in
        let gen = ap (λ x. x.generator) same ∙ begun-generator in
        let local = source_dirs dir remote [] in
        let scope = template_data outputs values in
        let publication =
          publish-Goes p all_done dir remote local scope fetched.object.generator.spec.artifacts
            fetched
            (subst (λ mg. AllBuild p dir local scope mg.namespace mg.spec.artifacts) (sym gen)
              fav.5) in
        >>=-Goes_at begun _ (begin-ok (initial o) t) (
          >>=-Goes_at begun _ (observe-ok begun begun-generator) (
            >>=-Goes begun _ (fetched, source_dirs dir remote [], ap (wrap _) e, same)
              (>>=-Goes_at fetched _ (values_stage-ok fetched gen) (
                >>=-Goes_at fetched _ (pipeline_stage-ok fetched gen) (
                  >>=-Goes fetched _ publication
                    (publication.0, (remote, publication.1), refl, refl))))))

    pub dispatch_prepared :
        o.is_deleting ≡ false
        → has_finalizer p o ≡ true
        → dispatch p (initial o) ≡ concluded p (prepare p (initial o))
    unfolding dispatch reconcile_valid reconcile
    dispatch_prepared d f = rw (d, f, fav.0, fav.1) refl

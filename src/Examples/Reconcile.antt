-- ===== src/Examples/Reconcile.antt =====
-- The theorems on the reconciler, at a concrete object.
use flux_dev.Api.{is_disabled}
use flux_dev.Base.{All, [], false, ok, refl, some, true, ◌++◌, ◌∷◌, ◌≡◌}
use flux_dev.Builder.Apply.{apply_artifact}
use flux_dev.Builder.Build.{build}
use flux_dev.Builder.Core.{external}
use flux_dev.Builder.DirHash.{dir_hash_fn}
use flux_dev.Builder.Iterations.{build_iterations}
use flux_dev.Controller.Pipeline.{resolve_values, run_pipeline, run_spec, template_data}
use flux_dev.Controller.Sources.{ObservedSource, observe_from, observe_sources}
use flux_dev.Controller.Validation.{
  check_artifact, check_artifacts, check_pipeline, check_sources, check_values, check_values_from,
  validate_spec,
}
use flux_dev.Dict.{Dict, get, put}
use flux_dev.Examples.Runs.{
  Conditions, cluster, deleting, fresh, generator, params, reference, storage, toolkit,
  toolkit_laws, working,
}
use flux_dev.Examples.Setup.{libraries, live}
use flux_dev.Reconcile.Deletion.{DeletesUnwanted, reconcile_object-DeletesUnwanted}
use flux_dev.Reconcile.Ends.{reference_names, reported}
use flux_dev.Reconcile.Failed.{FailedWith, reconcile_object-FailedWith}
use flux_dev.Reconcile.Finalize.{finalizer}
use flux_dev.Reconcile.Guarded.{
  IsGuarded, Reachable-IsGuarded, created, deletion_requested, reconciled,
}
use flux_dev.Reconcile.Lifecycle.{Move, lifecycle, reconcile_object-Move}
use flux_dev.Reconcile.Progress.{AllBuild, source_dirs}
use flux_dev.Reconcile.Publication.{PublishesWanted, reconcile_object-PublishesWanted}
use flux_dev.Reconcile.Publish.{Params, fetch_sources, publish, publish_artifact}
use flux_dev.Reconcile.Ready.{IsReady, reconcile_object-IsReady}
use flux_dev.Reconcile.Release.{deletions, reconcile_object-deletions}
use flux_dev.Reconcile.Run.{begin, reconcile, reconcile_object, values_resolver}
use flux_dev.Reconcile.State.{Failure, Object, Trace, error, not_built, patch_status}
use flux_dev.Reconcile.Status.{summarize_status}
use flux_dev.Text.{contains_byte, has, text, ◌==◌}
use flux_dev.Text.Order.{sort}
use flux_dev.Tree.{end, entries}

reconcile_object-PublishesWanted_example :
    All (PublishesWanted params working) (reconcile_object params working).0.effects
reconcile_object-PublishesWanted_example = reconcile_object-PublishesWanted params working

home_is_plain : contains_byte (text "home") b'/' ≡ false
unfolding contains_byte
home_is_plain = refl

reconcile_object-DeletesUnwanted_example :
    All (DeletesUnwanted params working) (reconcile_object params working).0.effects
reconcile_object-DeletesUnwanted_example =
    reconcile_object-DeletesUnwanted params working (home_is_plain, tt) home_is_plain

reconcile_object-deletions_example :
    ((reconcile_object params deleting).0.effects
      ≡ patch_status (reconcile_object params deleting).0.object
        ∷ deletions (reference (text "old") ∷ []))
    × (has finalizer (reconcile_object params deleting).0.object.finalizers ≡ false)
reconcile_object-deletions_example = reconcile_object-deletions params deleting toolkit_laws refl

-- A storage with no room.
abbrev full : Params Conditions
full = record params { storage = record storage { make_dir = λ dir. some (text "disk full") } }

abbrev failure : Failure
failure = not_built (text "out") (external (text "disk full"))

full_fails : (reconcile_object full working).1 ≡ error failure
unfolding reconcile_object summarize_status is_disabled validate_spec check_sources has ◌==◌
    check_values check_values_from check_pipeline check_artifacts check_artifact reconcile
    observe_sources observe_from put get fetch_sources resolve_values run_pipeline run_spec publish
    build begin publish_artifact
full_fails = refl

failure-reported : reported failure ≡ some (text "BuildFailed")
unfolding reported
failure-reported = refl

reconcile_object-FailedWith_example :
    FailedWith full working toolkit_laws false
      (text "BuildFailed")
      (reconcile_object full working).0.object
reconcile_object-FailedWith_example =
    reconcile_object-FailedWith full working toolkit_laws failure (text "BuildFailed") full_fails
      failure-reported

reconcile_object-Move_example :
    Move (lifecycle toolkit working) (lifecycle toolkit (reconcile_object params working).0.stored)
reconcile_object-Move_example = reconcile_object-Move params working toolkit_laws

-- The object of the cluster after its first run, and after the second, which publishes.
abbrev adopted_object : Object Conditions
adopted_object = (reconcile_object params fresh).0.stored

abbrev published_object : Object Conditions
published_object = (reconcile_object params adopted_object).0.stored

abbrev condemned : Object Conditions
condemned = record published_object { is_deleting = true }

abbrev whole_history : Trace Conditions
whole_history =
    (reconcile_object params condemned).0.effects
    ++ ((reconcile_object params adopted_object).0.effects
        ++ ((reconcile_object params fresh).0.effects ++ []))

-- Its deletion is asked for, and it is released.
Reachable-IsGuarded_example :
    IsGuarded (lifecycle toolkit (reconcile_object params condemned).0.stored) whole_history
Reachable-IsGuarded_example = Reachable-IsGuarded toolkit toolkit_laws (
    reconciled params condemned _ refl (
      deletion_requested published_object _ (
        reconciled params adopted_object _ refl
          (reconciled params fresh _ refl (created fresh refl refl)))))

abbrev remote : Dict ObservedSource
remote =
    (
      text "main",
      record {
        digest = text "repo";
        revision = text "repo";
        url = text "repo";
        origin_revision = [];
      },
    )
    ∷ []

enabled : is_disabled generator ≡ false
unfolding is_disabled get
enabled = refl

generator_valid : validate_spec params.validator generator ≡ ok tt
unfolding validate_spec check_sources has ◌==◌ check_values check_values_from check_pipeline
    check_artifacts check_artifact
generator_valid = refl

generator_observed : observe_sources cluster generator ≡ ok remote
unfolding observe_sources observe_from put get has ◌==◌
generator_observed = refl

generator_resolved : resolve_values (values_resolver params) generator ≡ ok end
unfolding resolve_values
generator_resolved = refl

generator_ran :
    run_pipeline libraries live generator (source_dirs (text "/tmp/mg") remote []) (entries end)
    ≡ ok []
unfolding run_pipeline run_spec
generator_ran = refl

generator_built :
    AllBuild params
      (text "/tmp/mg")
      (source_dirs (text "/tmp/mg") remote [])
      (template_data [] end)
      (text "home")
      generator.spec.artifacts
unfolding build apply_artifact build_iterations dir_hash_fn sort contains_byte
generator_built = (refl, tt)

fresh_unprotected : has finalizer [] ≡ false
unfolding has
fresh_unprotected = refl

reconcile_object-IsReady_example :
    IsReady params toolkit_laws
      (λ trace e. refl)
      (text "/tmp/mg")
      remote
      end
      []
      fresh
      (reconcile_object params (reconcile_object params fresh).0.stored).0.stored
reconcile_object-IsReady_example =
    reconcile_object-IsReady params toolkit_laws (λ trace e. refl) (text "/tmp/mg") remote end []
      fresh enabled generator_valid generator_observed generator_resolved generator_ran
      generator_built refl refl fresh_unprotected

-- The second run publishes the one artifact of the spec.
published_names : reference_names published_object.generator.inventory ≡ text "out" ∷ []
published_names =
    (reconcile_object-IsReady params toolkit_laws (λ trace e. refl) (text "/tmp/mg") remote end []
      fresh enabled generator_valid generator_observed generator_resolved generator_ran
      generator_built refl refl fresh_unprotected).2.0

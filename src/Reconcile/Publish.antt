-- ===== src/Reconcile/Publish.antt =====
-- fetchSources, reconcileExternalArtifact and the loop over spec.artifacts of reconcile in
-- internal/controller/manifestgenerator_controller.go.
use flux_dev.Api.{ExternalArtifactReference, ManifestArtifact, has_artifact_in_inventory}
use flux_dev.Base.{Bool, List, Result, [], err, false, if◌then◌else◌, ok, true, wrap, ℕ, ◌>>=◌, ◌∷◌}
use flux_dev.Builder.Apply.{Builder, Polls}
use flux_dev.Builder.Build.{Artifact, Storage, build, join_path}
use flux_dev.Builder.Core.{at_partials, at_template, render_error}
use flux_dev.Controller.Sources.{Cluster, ObservedSource, set_artifact_revisions}
use flux_dev.Controller.Validation.{Validator}
use flux_dev.Dict.{Dict, put}
use flux_dev.FilePath.Base.{base}
use flux_dev.Pipeline.Core.{Context}
use flux_dev.Reconcile.State.{
  Answer, ApiError, Early, Effect, Environment, Object, State, apply_artifact, done, emit, error,
  event, failed, fetch, make_dir, not_built, not_published, patch_artifact_status, trace,
}
use flux_dev.Reconcile.Status.{warn}
use flux_dev.Reconcile.Toolkit.{Toolkit, ready_condition, reconciliation_failed}
use flux_dev.Text.{Text, text}
use flux_dev.Tree.{Value}
use flux_dev.Builder.Core as BuilderCore
use flux_dev.Builder.Build as Build

-- errors.As with a render.Error as its target.
abbrev pub is_render : BuilderCore.Error → Bool
is_render (render_error template message) = true
is_render (at_template src dest label e) = is_render e
is_render (at_partials path e) = is_render e
is_render e = false

abbrev pub source_fetch_failed : Text
source_fetch_failed = text "SourceFetchFailed"

abbrev pub build_reason : BuilderCore.Error → Text
build_reason e = if is_render e then text "RenderFailed" else text "BuildFailed"

abbrev pub managed_by : Text
managed_by = text "app.kubernetes.io/managed-by"

abbrev pub generator_label : Text
generator_label = text "manifests.fluxcd.tooling/generator"

-- What the reconciler is set up with, and what the world gives to one run: the outcome of
-- MkdirTemp, and when the context is cancelled.
pub record Params (C : Type 0) : Type 0 where
  pub toolkit : Toolkit C
  pub environment : Environment C
  pub cluster : Cluster
  pub validator : Validator
  pub builder : Builder
  pub storage : Storage
  pub sha256 : Text → Text
  pub controller_name : Text
  pub dependency_requeue_interval : ℕ
  pub temp_dir : Result Text Text
  pub context : Context
  pub polls : Text → Polls

-- A stage goes on with a value, or returns early.
abbrev pub Stage : Type 0 → Type 0 → Type 0
Stage C A = Result (Early C) (State C × A)

-- A failed request ends its function.
abbrev pub Requested : Type 0 → Type 0 → Type 0
Requested C A = Result (State C × List ApiError) A

module _ {C : Type 0} where
  abbrev pub answered : Answer → State C → Requested C (State C × Unit {0})
  answered done s = ok (s, tt)
  answered (failed e es) s = err (s, e ∷ es)

  unfoldable pub request : Environment C → Effect C → State C → Requested C (State C × Unit {0})
  request env e s = answered (env s.effects e) (emit e s)

  unfoldable pub fetch_sources :
      Environment C
      → Text
      → Dict ObservedSource
      → State C
      → Dict Text
      → Requested C (State C × Dict Text)
  unfolding request
  fetch_sources env tmp [] s dirs = ok (s, dirs)
  fetch_sources env tmp ((alias, src) ∷ sources) s dirs = do
    (made, _) ← request env (make_dir (join_path tmp alias)) s
    (fetched, _) ← request env (fetch src.url src.digest (join_path tmp alias)) made
    fetch_sources env tmp sources fetched (put alias (join_path tmp alias) dirs)

  unfoldable pub labels_of : Params C → Object C → Dict Text
  labels_of p o = (managed_by, p.controller_name) ∷ (generator_label, o.uid) ∷ []

  unfoldable pub reference_of : Object C → ManifestArtifact → Artifact → ExternalArtifactReference
  reference_of o spec a = record {
    name = spec.name;
    namespace = o.generator.namespace;
    digest = a.digest;
    filename = base a.path;
  }

  -- The event of an artifact that the inventory does not have yet.
  abbrev pub announce_new : ManifestArtifact → Artifact → State C → State C
  announce_new spec a s =
      if has_artifact_in_inventory s.object.generator spec.name s.object.generator.namespace
        a.digest
      then s
      else emit (event trace ready_condition) s

  unfoldable pub reconcile_external_artifact :
      Params C
      → ManifestArtifact
      → Artifact
      → State C
      → Requested C (State C × ExternalArtifactReference)
  unfolding request reference_of labels_of
  reconcile_external_artifact p spec a s = do
    (applied, _) ←
        request p.environment
          (apply_artifact s.object.generator.namespace spec.name (labels_of p s.object)) s
    (updated, _) ←
        request p.environment (patch_artifact_status s.object.generator.namespace spec.name a)
          applied
    ok (announce_new spec a updated, reference_of updated.object spec a)

  unfoldable pub build_failed : Params C → State C → ManifestArtifact → BuilderCore.Error → Early C
  build_failed p s spec e =
      (warn p.toolkit p.environment (build_reason e) s, error (not_built spec.name e))

  unfoldable pub publish_failed : Params C → ManifestArtifact → State C × List ApiError → Early C
  publish_failed p spec (s, es) =
      (warn p.toolkit p.environment reconciliation_failed s, error (not_published spec.name es))

  module _ (p : Params C) (tmp : Text) (remote : Dict ObservedSource) (local : Dict Text)
      (scope : Dict Value) where
    unfoldable pub publish_artifact : ManifestArtifact → State C → Stage C ExternalArtifactReference
    unfolding build_failed publish_failed
    publish_artifact spec s = do
      a ← wrap (build_failed p s spec) (
          Build.build p.builder p.storage (p.polls spec.name) spec local scope
            s.object.generator.namespace tmp)
      wrap (publish_failed p spec) (
          reconcile_external_artifact p spec
            (record a { info = set_artifact_revisions a.info spec remote }) s)

    -- The loop over spec.artifacts.
    unfoldable pub publish :
        List ManifestArtifact → State C → Stage C (List ExternalArtifactReference)
    publish [] s = ok (s, [])
    publish (spec ∷ specs) s = do
      (published, ref) ← publish_artifact spec s
      (last, refs) ← publish specs published
      ok (last, ref ∷ refs)

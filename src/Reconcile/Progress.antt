-- ===== src/Reconcile/Progress.antt =====
-- When nothing fails, a run gets through every stage.
use flux_dev.Api.{ManifestArtifact, has_artifact_in_inventory}
use flux_dev.Base.{
  All, List, Result, [], ap, if_cases, is_ok, is_ok-value, ok, refl, sym, true, wrap, ◌>>=◌, ◌∙◌,
  ◌∷◌, ◌≡◌,
}
use flux_dev.Builder.Build.{Artifact, build, join_path}
use flux_dev.Controller.Sources.{ObservedSource, set_artifact_revisions}
use flux_dev.Dict.{Dict, put}
use flux_dev.Reconcile.Publish.{
  Params, announce_new, answered, fetch_sources, labels_of, publish, publish_artifact,
  publish_failed, reconcile_external_artifact, reference_of, request,
}
use flux_dev.Reconcile.State.{
  Effect, Environment, State, Trace, apply_artifact, done, emit, event, fetch, make_dir,
  patch_artifact_status, trace,
}
use flux_dev.Reconcile.Toolkit.{ready_condition}
use flux_dev.Text.{Text}
use flux_dev.Tree.{Value}
use flux_dev.Builder.Build as Build
use mathlib.Core.Path.{subst}

-- The directories that fetchSources returns.
unfoldable pub source_dirs : Text → Dict ObservedSource → Dict Text → Dict Text
source_dirs tmp [] dirs = dirs
source_dirs tmp ((alias, src) ∷ sources) dirs =
    source_dirs tmp sources (put alias (join_path tmp alias) dirs)

-- Every request is answered by success.
abbrev pub AllDone : {C : Type 0} → Environment C → Type 0
AllDone {C = C} env = (trace : Trace C) (e : Effect C) → env trace e ≡ done

-- Every artifact of these can be built.
abbrev pub AllBuild :
    {C : Type 0} → Params C → Text → Dict Text → Dict Value → Text → List ManifestArtifact → Type 0
AllBuild p tmp local scope namespace specs =
    All
      (λ spec.
        is_ok (Build.build p.builder p.storage (p.polls spec.name) spec local scope namespace tmp)
        ≡ true)
      specs

module _ {C : Type 0} where
  -- A stage goes on, and leaves the object.
  abbrev pub Goes : {B A : Type 0} → State C → Result (State C × B) (State C × A) → Type 0
  Goes {A = A} s m = (later : State C) × (a : A) × (m ≡ ok (later, a)) × (later.object ≡ s.object)

  pub >>=-Goes :
      {B A A' : Type 0} (s : State C) {m : Result (State C × B) (State C × A)}
      (k : State C × A → Result (State C × B) (State C × A'))
      → (g : Goes s m) → Goes (g.0) (k (g.0, g.1))
      → Goes s (m >>= k)
  >>=-Goes s k (later, a, e, same) (last, b, f, same1) =
      (last, b, ap (λ n. n >>= k) e ∙ f, same1 ∙ same)

  pub >>=-Goes_at :
      {B A A' : Type 0} (s : State C) {m : Result (State C × B) (State C × A)}
      (k : State C × A → Result (State C × B) (State C × A')) {x : State C × A}
      → m ≡ ok x
      → Goes s (k x)
      → Goes s (m >>= k)
  >>=-Goes_at s k e (last, b, f, same) = (last, b, ap (λ n. n >>= k) e ∙ f, same)

  pub wrap-Goes :
      {B B' A : Type 0} (s : State C) (f : State C × B → State C × B')
      {m : Result (State C × B) (State C × A)}
      → Goes s m
      → Goes s (wrap f m)
  wrap-Goes s f (later, a, e, same) = (later, a, ap (wrap f) e, same)

  announce_new-object :
      (spec : ManifestArtifact) (a : Artifact) (s : State C)
      → (announce_new spec a s).object ≡ s.object
  announce_new-object spec a s =
      if_cases (λ x. x.object ≡ s.object)
        (has_artifact_in_inventory s.object.generator spec.name s.object.generator.namespace
          a.digest)
        {x = s} {y = emit (event trace ready_condition) s} (λ h. refl) (λ h. refl)

module _ {C : Type 0} (p : Params C) (all_done : AllDone p.environment) where
  request-ok : (e : Effect C) (s : State C) → request p.environment e s ≡ ok (emit e s, tt)
  unfolding request
  request-ok e s = ap (λ a. answered a (emit e s)) (all_done s.effects e)

  pub fetch_sources-ok :
      (tmp : Text) (sources : Dict ObservedSource) (s : State C) (dirs : Dict Text)
      → (later : State C) × (fetch_sources p.environment tmp sources s dirs
          ≡ ok (later, source_dirs tmp sources dirs))
        × (later.object ≡ s.object)
  unfolding fetch_sources source_dirs
  fetch_sources-ok tmp [] s dirs = (s, refl, refl)
  fetch_sources-ok tmp ((alias, src) ∷ sources) s dirs =
      let made = emit (make_dir (join_path tmp alias)) s in
      let fetched = emit (fetch src.url src.digest (join_path tmp alias)) made in
      let rest = fetch_sources-ok tmp sources fetched (put alias (join_path tmp alias) dirs) in
      (
        rest.0,
        rw
            (
              request-ok (make_dir (join_path tmp alias)) s,
              request-ok (fetch src.url src.digest (join_path tmp alias)) made,
            )
            rest.1,
        rest.2,
      )

  reconcile_external_artifact-Goes :
      (spec : ManifestArtifact) (a : Artifact) (s : State C)
      → Goes s (reconcile_external_artifact p spec a s)
  unfolding reconcile_external_artifact
  reconcile_external_artifact-Goes spec a s =
      let namespace = s.object.generator.namespace in
      let applied = emit (apply_artifact namespace spec.name (labels_of p s.object)) s in
      let updated = emit (patch_artifact_status namespace spec.name a) applied in
      >>=-Goes s _ (applied, tt, request-ok _ s, refl)
        (>>=-Goes applied _ (updated, tt, request-ok _ applied, refl)
          (
            announce_new spec a updated,
            reference_of updated.object spec a,
            refl,
            announce_new-object spec a updated,
          ))

  publish_artifact-Goes :
      (tmp : Text) (remote : Dict ObservedSource) (local : Dict Text) (scope : Dict Value)
      (spec : ManifestArtifact) (s : State C)
      → is_ok (
          Build.build p.builder p.storage
            (p.polls spec.name)
            spec
            local
            scope
            s.object.generator.namespace
            tmp)
        ≡ true
      → Goes s (publish_artifact p tmp remote local scope spec s)
  unfolding publish_artifact
  publish_artifact-Goes tmp remote local scope spec s b =
      let (a, e) = is_ok-value _ b in
      rw e (
        wrap-Goes s (publish_failed p spec) (
          reconcile_external_artifact-Goes spec
            (record a { info = set_artifact_revisions a.info spec remote }) s))

  pub publish-Goes :
      (tmp : Text) (remote : Dict ObservedSource) (local : Dict Text) (scope : Dict Value)
      (specs : List ManifestArtifact) (s : State C)
      → AllBuild p tmp local scope s.object.generator.namespace specs
      → Goes s (publish p tmp remote local scope specs s)
  unfolding publish
  publish-Goes tmp remote local scope [] s b = (s, [], refl, refl)
  publish-Goes tmp remote local scope (spec ∷ specs) s b =
      let first = publish_artifact-Goes tmp remote local scope spec s b.0 in
      let rest =
        publish-Goes tmp remote local scope specs (first.0)
          (subst (λ x. AllBuild p tmp local scope x.generator.namespace specs) (sym first.3) b.1) in
      >>=-Goes s _ first (>>=-Goes (first.0) _ rest (rest.0, _, refl, refl))

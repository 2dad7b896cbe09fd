-- ===== src/Reconcile/Stages.antt =====
-- The stages of reconcile, one by one: each sends allowed requests only, changes the conditions of
-- the object only, and reports its failure there.
use flux_dev.Api.{ManifestArtifact, has_artifact_in_inventory}
use flux_dev.Base.{[], ap, false, if◌then◌else◌, refl, true, ◌∷◌, ◌≡◌}
use flux_dev.Builder.Build.{Artifact, join_path}
use flux_dev.Controller.Sources.{ObservedSource}
use flux_dev.Dict.{Dict}
use flux_dev.Reconcile.Ends.{At, Ends, Ends->>=, artifact_names}
use flux_dev.Reconcile.Publish.{
  Params, announce_new, answered, fetch_sources, labels_of, reconcile_external_artifact,
  reference_of, request,
}
use flux_dev.Reconcile.Run.{mark_in_progress}
use flux_dev.Reconcile.State.{
  Effect, Object, Severity, State, apply_artifact, done, emit, event, failed, fetch, make_dir,
  on_conditions, patch_artifact_status, patch_status, trace,
}
use flux_dev.Reconcile.Status.{warn}
use flux_dev.Reconcile.Toolkit.{ready_condition}
use flux_dev.Text.{Text, has}

module _ {C : Type 0} (P : Effect C → Type 0) (p : Params C) (o : Object C) where
  -- What the stages send, for an object of this generator.
  pub record Permits : Type 0 where
    pub event_ : (v : Severity) (reason : Text) → P (event v reason)
    pub patch_ : (s : State C) → P (patch_status s.object)
    pub make_dir_ : (dir : Text) → P (make_dir dir)
    pub fetch_ : (url digest dir : Text) → P (fetch url digest dir)
    pub apply_ :
        (name : Text)
        → has name (artifact_names o.generator.spec.artifacts) ≡ true
        → P (apply_artifact o.generator.namespace name (labels_of p o))
    pub artifact_status_ :
        (name : Text) (a : Artifact)
        → has name (artifact_names o.generator.spec.artifacts) ≡ true
        → P (patch_artifact_status o.generator.namespace name a)

  -- The conditions while the run is in progress.
  abbrev pub here : C
  here = mark_in_progress p.toolkit o.conditions

  pub At-emit : (c : C) (e : Effect C) (s : State C) → P e → At P o c s → At P o c (emit e s)
  At-emit c e s h w = record { allowed = (h, w.allowed); kept = w.kept; synced = w.synced }

  module _ (w : Permits) where
    pub request-Ends :
        (e : Effect C) (s : State C)
        → P e
        → At P o here s
        → Ends P o here (λ es. here) (λ _. Unit {0}) (request p.environment e s)
    unfolding request
    request-Ends e s h held =
        elim (p.environment s.effects e)
          as (λ x. Ends P o here (λ es. here) (λ _. Unit {0}) (answered x (emit e s))) [
            | done ↦ (At-emit here e s h held, tt)
            | failed x es ↦ At-emit here e s h held
          ]

    pub fetch_sources-Ends :
        (tmp : Text) (sources : Dict ObservedSource) (s : State C) (dirs : Dict Text)
        → At P o here s
        → Ends P o here
            (λ es. here)
            (λ _. Unit {0})
            (fetch_sources p.environment tmp sources s dirs)
    unfolding fetch_sources
    fetch_sources-Ends tmp [] s dirs held = (held, tt)
    fetch_sources-Ends tmp ((alias, src) ∷ sources) s dirs held =
        Ends->>= P o here _ (λ _. Unit {0}) _ _ _
          (request-Ends (make_dir (join_path tmp alias)) s (w.make_dir_ _) held)
          (λ made u at1 _.
            Ends->>= P o here _ (λ _. Unit {0}) _ _ _
              (request-Ends (fetch src.url src.digest (join_path tmp alias)) made (w.fetch_ _ _ _)
                at1)
              (λ fetched u2 at2 _. fetch_sources-Ends tmp sources fetched _ at2))

    announce_new-At :
        (spec : ManifestArtifact) (a : Artifact) (s : State C)
        → At P o here s
        → At P o here (announce_new spec a s)
    announce_new-At spec a s held =
        elim (has_artifact_in_inventory s.object.generator spec.name s.object.generator.namespace
            a.digest)
          as (λ b. At P o here (if b then s else emit (event trace ready_condition) s)) [
            | true ↦ held
            | false ↦ At-emit here _ s (w.event_ _ _) held
          ]

    pub reconcile_external_artifact-Ends :
        (spec : ManifestArtifact) (a : Artifact) (s : State C)
        → has spec.name (artifact_names o.generator.spec.artifacts) ≡ true
        → At P o here s
        → Ends P o here
            (λ es. here)
            (λ ref. (ref.name ≡ spec.name) × (ref.namespace ≡ o.generator.namespace))
            (reconcile_external_artifact p spec a s)
    unfolding reconcile_external_artifact reference_of
    reconcile_external_artifact-Ends spec a s h held =
        Ends->>= P o here _ (λ _. Unit {0}) _ _ _
          (request-Ends _ s (rw held.kept (w.apply_ spec.name h)) held)
          (λ applied u at1 _.
            Ends->>= P o here _ (λ _. Unit {0}) _ _ _
              (request-Ends _ applied (rw held.kept (w.artifact_status_ spec.name a h)) at1)
              (λ updated u2 at2 _. (
                announce_new-At spec a updated at2,
                (refl, ap (λ x. x.generator.namespace) at2.kept),
              )))

    pub At-mark : (f : C → C) (c : C) (s : State C) → At P o c s → At P o (f c) (on_conditions f s)
    At-mark f c s held = record {
      allowed = held.allowed;
      kept = rw held.kept refl;
      synced = held.synced;
    }

    pub At-warn :
        (reason : Text) (s : State C)
        → At P o here s
        → At P o
            (p.toolkit.mark_false ready_condition reason here)
            (warn p.toolkit p.environment reason s)
    At-warn reason s held =
        At-emit _ _ _ (w.event_ _ _)
          (At-mark (p.toolkit.mark_false ready_condition reason) here s held)

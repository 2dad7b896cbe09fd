-- ===== src/Reconcile/Prepare.antt =====
-- The part of reconcile that may return early, as a whole.
use flux_dev.Api.{ExternalArtifactReference, ManifestArtifact}
use flux_dev.Base.{All, List, [], ap, arith, err, ok, refl, sym, true, ◌>>=◌, ◌∷◌, ◌≡◌}
use flux_dev.Controller.Pipeline.{template_data}
use flux_dev.Controller.Sources.{ObservedSource}
use flux_dev.Dict.{Dict}
use flux_dev.Reconcile.Ends.{
  At, Ends, Ends->>=, IsNamed, artifact_names, ended, failed_as, reported,
}
use flux_dev.Reconcile.Phases.{
  IsReferenceOf, end_at, fetch_all-Ends, observe-Ends, pipeline_stage-Ends, publish_artifact-Ends,
  values_stage-Ends,
}
use flux_dev.Reconcile.Publish.{Params, publish, publish_artifact}
use flux_dev.Reconcile.Run.{
  begin, fetch_all, mark_in_progress, observe, past_patch, pipeline_stage, prepare, values_stage,
}
use flux_dev.Reconcile.Stages.{At-emit, At-mark, Permits, here}
use flux_dev.Reconcile.State.{
  ApiError, Effect, Object, State, done, emit, error, failed, no_temp_dir, on_conditions,
  patch_status,
}
use flux_dev.Reconcile.Status.{patch_status_of, patched, store_on}
use flux_dev.Text.{Text, has}
use flux_dev.Text.Equality.{eq_iff}
use flux_dev.Tree.{Value}
use mathlib.Core.Path.{subst}

module _ {C : Type 0} (P : Effect C → Type 0) (p : Params C) (o : Object C)
    (w : Permits P p o) where
  -- Every name of these artifacts is one of the spec's.
  abbrev AreWanted : List ManifestArtifact → Type 0
  AreWanted specs =
      All (λ spec. has spec.name (artifact_names o.generator.spec.artifacts) ≡ true) specs

  publish-Ends :
      (tmp : Text) (remote : Dict ObservedSource) (local : Dict Text) (scope : Dict Value)
      (specs : List ManifestArtifact) (s : State C)
      → AreWanted specs
      → At P o (here P p o) s
      → Ends P o
          (here P p o)
          (end_at P p o w)
          (IsNamed o.generator.namespace specs)
          (publish p tmp remote local scope specs s)
  unfolding publish
  publish-Ends tmp remote local scope [] s h held = (held, (refl, tt))
  publish-Ends tmp remote local scope (spec ∷ specs) s h held =
      Ends->>= P o (here P p o) (end_at P p o w) (IsReferenceOf P p o w spec)
        (IsNamed o.generator.namespace (spec ∷ specs))
        (publish_artifact p tmp remote local scope spec s) _
        (publish_artifact-Ends P p o w tmp remote local scope spec s h.0 held)
        (λ published ref at1 is_ref.
          Ends->>= P o (here P p o) (end_at P p o w) (IsNamed o.generator.namespace specs)
            (IsNamed o.generator.namespace (spec ∷ specs))
            (publish p tmp remote local scope specs published) _
            (publish-Ends tmp remote local scope specs published h.1 at1)
            (λ last refs at2 named. (at2, (rw (is_ref.0, named.0) refl, (is_ref.1, named.1)))))

  names_wanted :
      (specs all : List ManifestArtifact)
      → ((name : Text)
          → has name (artifact_names specs) ≡ true
          → has name (artifact_names all) ≡ true)
      → All (λ spec. has spec.name (artifact_names all) ≡ true) specs
  unfolding has
  names_wanted [] all h = tt
  names_wanted (spec ∷ specs) all h = (
    h spec.name (ground (arith, eq_iff spec.name spec.name)),
    names_wanted specs all (λ name found. h name (ground arith)),
  )

  At-patch : (c : C) (s : State C) → At P o c s → At P o c (patched p.toolkit p.environment s)
  unfolding patched
  At-patch c s held =
      elim (p.environment s.effects (patch_status s.object))
        as (λ x. At P o c (emit (patch_status s.object) (store_on p.toolkit p.environment x s))) [
          | done ↦ record {
            allowed = (w.patch_ s, held.allowed);
            kept = held.kept;
            synced = rw held.kept refl;
          }
          | failed e es ↦ At-emit P p o c (patch_status s.object) s (w.patch_ s) held
        ]

  past_patch-Ends :
      (dir : Text) (s : State C) (es : List ApiError)
      → At P o (here P p o) s
      → Ends P o (here P p o) (end_at P p o w) (λ _. Unit {0}) (past_patch dir (s, es))
  unfolding ended failed_as reported
  past_patch-Ends dir s [] held = (held, tt)
  past_patch-Ends dir s (e ∷ es) held = held

  begin-Ends :
      (s : State C)
      → At P o o.conditions s
      → Ends P o (here P p o) (end_at P p o w) (λ _. Unit {0}) (begin p s)
  unfolding begin patch_status_of ended failed_as reported
  begin-Ends s held =
      elim p.temp_dir
        as (λ x.
          Ends P o (here P p o) (end_at P p o w) (λ _. Unit {0})
            (elim x [
              | err message ↦ err (s, error (no_temp_dir message))
              | ok dir ↦ past_patch dir (
                  patch_status_of p.toolkit p.environment
                    (on_conditions (mark_in_progress p.toolkit) s))
            ])) [
              | err message ↦ held
              | ok dir ↦ past_patch-Ends dir _ _ (
                  At-patch (here P p o) _
                    (At-mark P p o w (mark_in_progress p.toolkit) o.conditions s held))
            ]

  abbrev pub Named : Dict ObservedSource × List ExternalArtifactReference → Type 0
  Named x = IsNamed o.generator.namespace o.generator.spec.artifacts (x.1)

  -- The last stage, on the artifacts of the object as it is by then.
  publishing-Ends :
      (tmp : Text) (remote : Dict ObservedSource) (local : Dict Text) (scope : Dict Value)
      (s : State C)
      → At P o (here P p o) s
      → Ends P o (here P p o) (end_at P p o w) Named (do
        (published, refs) ← publish p tmp remote local scope s.object.generator.spec.artifacts s
        ok (published, (remote, refs)))
  publishing-Ends tmp remote local scope s held =
      Ends->>= P o (here P p o) (end_at P p o w)
        (IsNamed o.generator.namespace o.generator.spec.artifacts) Named
        (publish p tmp remote local scope s.object.generator.spec.artifacts s) _
        (subst
          (λ specs.
            Ends P o (here P p o) (end_at P p o w)
              (IsNamed o.generator.namespace o.generator.spec.artifacts)
              (publish p tmp remote local scope specs s))
          (sym (ap (λ x. x.generator.spec.artifacts) held.kept))
          (publish-Ends tmp remote local scope o.generator.spec.artifacts s
            (names_wanted o.generator.spec.artifacts o.generator.spec.artifacts (λ name h. h))
            held))
        (λ published refs at1 named. (at1, named))

  pub prepare-Ends :
      (s : State C)
      → At P o o.conditions s
      → Ends P o (here P p o) (end_at P p o w) Named (prepare p s)
  unfolding prepare
  prepare-Ends s held =
      Ends->>= P o (here P p o) (end_at P p o w) (λ _. Unit {0}) Named (begin p s) _
        (begin-Ends s held)
        (λ begun dir at1 _.
          Ends->>= P o (here P p o) (end_at P p o w) (λ _. Unit {0}) Named (observe p begun) _
            (observe-Ends P p o w begun at1)
            (λ observed remote at2 _.
              Ends->>= P o (here P p o) (end_at P p o w) (λ _. Unit {0}) Named
                (fetch_all p dir remote observed) _ (fetch_all-Ends P p o w dir remote observed at2)
                (λ fetched local at3 _.
                  Ends->>= P o (here P p o) (end_at P p o w) (λ _. Unit {0}) Named
                    (values_stage p fetched) _ (values_stage-Ends P p o w fetched at3)
                    (λ resolved values at4 _.
                      Ends->>= P o (here P p o) (end_at P p o w) (λ _. Unit {0}) Named
                        (pipeline_stage p local values resolved) _
                        (pipeline_stage-Ends P p o w local values resolved at4)
                        (λ evaluated outputs at5 _.
                          publishing-Ends dir remote local (template_data outputs values) evaluated
                            at5)))))

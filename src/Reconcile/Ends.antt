-- ===== src/Reconcile/Ends.antt =====
-- How the stages of reconcile end: what holds of the effects and of the object behind a stage that
-- goes on, and behind one that returns early.
use flux_dev.Api.{ExternalArtifactReference, ManifestArtifact}
use flux_dev.Base.{All, List, Option, Result, [], err, none, ok, refl, some, wrap, ◌>>=◌, ◌∷◌, ◌≡◌}
use flux_dev.Reconcile.Publish.{build_reason, source_fetch_failed}
use flux_dev.Reconcile.Run.{mark_in_progress, pipeline_failed}
use flux_dev.Reconcile.State.{
  Effect, Failure, Object, Outcome, State, aggregate, error, finished, no_temp_dir, not_built,
  not_evaluated, not_published, requeue, terminal,
}
use flux_dev.Reconcile.Status.{reason_text}
use flux_dev.Reconcile.Toolkit.{Toolkit, ready_condition, reconciliation_failed}
use flux_dev.Text.{Text}

-- The reason that Ready is false for, by the error of a run.
unfoldable pub reported : Failure → Option Text
reported (not_evaluated e) = some pipeline_failed
reported (not_built name e) = some (build_reason e)
reported (not_published name es) = some reconciliation_failed
reported (terminal reason) = some (reason_text reason)
reported (aggregate f g) = reported f
reported f = none

abbrev pub artifact_names : List ManifestArtifact → List Text
artifact_names [] = []
artifact_names (spec ∷ specs) = spec.name ∷ artifact_names specs

abbrev pub reference_names : List ExternalArtifactReference → List Text
reference_names [] = []
reference_names (ref ∷ refs) = ref.name ∷ reference_names refs

-- The references name the artifacts of a spec, in order, in one namespace.
abbrev pub IsNamed : Text → List ManifestArtifact → List ExternalArtifactReference → Type 0
IsNamed namespace specs refs =
    (reference_names refs ≡ artifact_names specs) × All (λ ref. ref.namespace ≡ namespace) refs

module _ {C : Type 0} where
  abbrev pub failed_with : Toolkit C → Option Text → C → C
  failed_with t none c = c
  failed_with t (some reason) c = t.mark_false ready_condition reason c

  -- The conditions behind a failure, from those that the object came with.
  unfoldable pub failed_as : Toolkit C → C → Failure → C
  unfolding reported
  failed_as t c (no_temp_dir message) = c
  failed_as t c (terminal reason) =
      t.mark_stalled (reason_text reason)
        (failed_with t (some (reason_text reason)) (mark_in_progress t c))
  failed_as t c (aggregate f g) = failed_as t c f
  failed_as t c f = failed_with t (reported f) (mark_in_progress t c)

  -- The same, behind any early return.
  unfoldable pub ended : Toolkit C → C → Outcome → C
  unfolding failed_as
  ended t c (error f) = failed_as t c f
  ended t c (requeue after) = failed_with t (some source_fetch_failed) (mark_in_progress t c)
  ended t c finished = mark_in_progress t c

  -- The part of an object that a stage leaves.
  abbrev pub with_conditions : Object C → C → Object C
  with_conditions o c = record o { conditions = c }

  -- Every effect so far is allowed, the object has changed in its conditions only, and so has the
  -- stored one.
  pub record At (P : Effect C → Type 0) (o : Object C) (c : C) (s : State C) : Type 0 where
    pub allowed : All P s.effects
    pub kept : s.object ≡ with_conditions o c
    pub synced : s.stored ≡ with_conditions o s.stored.conditions

  module _ (P : Effect C → Type 0) (o : Object C) (held_at : C) where
    abbrev pub Ends :
        {B A : Type 0} → (B → C) → (A → Type 0) → Result (State C × B) (State C × A) → Type 0
    Ends f Q (ok (s, a)) = At P o held_at s × Q a
    Ends f Q (err (s, b)) = At P o (f b) s

    pub Ends->>= :
        {B A A' : Type 0} (f : B → C) (Q : A → Type 0) (R : A' → Type 0)
        (m : Result (State C × B) (State C × A))
        (k : State C × A → Result (State C × B) (State C × A'))
        → Ends f Q m
        → ((s : State C) (a : A) → At P o held_at s → Q a → Ends f R (k (s, a)))
        → Ends f R (m >>= k)
    Ends->>= f Q R (ok (s, a)) k h go = go s a h.0 h.1
    Ends->>= f Q R (err (s, b)) k h go = h

    pub Ends-wrap :
        {B B' A : Type 0} (f : B → C) (g : B' → C) (Q : A → Type 0) (w : State C × B → State C × B')
        (m : Result (State C × B) (State C × A))
        → Ends f Q m
        → ((s : State C) (b : B) → At P o (f b) s → At P o (g ((w (s, b)).1)) ((w (s, b)).0))
        → Ends g Q (wrap w m)
    Ends-wrap f g Q w (ok (s, a)) h go = h
    Ends-wrap f g Q w (err (s, b)) h go = go s b h

    -- A step that does not touch the state.
    pub Ends-pure :
        {B A A' E : Type 0} (f : B → C) (R : A' → Type 0) (w : E → State C × B) (m : Result E A)
        (k : A → Result (State C × B) (State C × A'))
        → ((e : E) → m ≡ err e → At P o (f ((w e).1)) ((w e).0))
        → ((a : A) → m ≡ ok a → Ends f R (k a))
        → Ends f R (wrap w m >>= k)
    Ends-pure f R w (ok a) k fails goes = goes a refl
    Ends-pure f R w (err e) k fails goes = fails e refl

-- ===== src/Reconcile/Report.antt =====
-- How a failed run is reported in the conditions of the object.
use flux_dev.Base.{Bool, Option, false, none, refl, some, some-injective, true, ◌∙◌, ◌≡◌}
use flux_dev.Reconcile.Ends.{failed_as, reported}
use flux_dev.Reconcile.Publish.{build_reason}
use flux_dev.Reconcile.Run.{mark_in_progress, pipeline_failed}
use flux_dev.Reconcile.Settle.{in_progress, settle, settle-done, settle-failed}
use flux_dev.Reconcile.State.{
  Environment, Failure, aggregate, no_temp_dir, not_built, not_evaluated, not_published,
  object_unreadable, status_not_updated, terminal,
}
use flux_dev.Reconcile.Status.{reason_text}
use flux_dev.Reconcile.Toolkit.{
  IsToolkit, Toolkit, is_false, progressing_with_retry, ready, ready_condition,
  reconciliation_failed, reconciling, reconciling_condition, stalled, stalled_condition,
}
use flux_dev.Text.{Text, ◌==◌}
use mathlib.Core.Path.{subst}

abbrev pub is_terminal : Failure → Bool
is_terminal (terminal reason) = true
is_terminal (aggregate f g) = is_terminal f
is_terminal f = false

module _ {C : Type 0} (t : Toolkit C) (laws : IsToolkit t) where
  -- A terminal failure stalls the object. Any other leaves it to be retried.
  abbrev pub Reports : Bool → Text → C → Type 0
  Reports true reason c =
      (t.find ready_condition c ≡ some (ready is_false reason))
      × (t.find reconciling_condition c ≡ none)
      × (t.find stalled_condition c ≡ some (stalled reason))
  Reports false reason c =
      (t.find ready_condition c ≡ some (ready is_false reason))
      × (t.find reconciling_condition c ≡ some (reconciling progressing_with_retry))
      × (t.find stalled_condition c ≡ none)

  module _ (env : Environment C) (c : C) where
    retried :
        (reason : Text)
        → Reports false reason
            (settle t laws env (t.mark_false ready_condition reason (mark_in_progress t c)))
    unfolding ◌==◌
    retried reason =
        let begun = mark_in_progress t c in
        settle-failed t laws env (t.mark_false ready_condition reason begun) reason
          (laws.find-mark_false ready_condition ready_condition reason begun)
          (laws.find-mark_false reconciling_condition ready_condition reason begun
            ∙ (in_progress t laws c).1)
          (laws.find-mark_false stalled_condition ready_condition reason begun
            ∙ (in_progress t laws c).2)

    pub stalls :
        (reason : Text)
        → Reports true reason
            (settle t laws env (t.mark_stalled reason (t.mark_false ready_condition reason c)))
    unfolding ◌==◌
    stalls reason =
        let failed_ = t.mark_false ready_condition reason c in
        let all = t.mark_stalled reason failed_ in
        let r =
          laws.find-mark_stalled ready_condition reason failed_
          ∙ laws.find-mark_false ready_condition ready_condition reason c in
        let x = laws.find-mark_stalled reconciling_condition reason failed_ in
        let s = laws.find-mark_stalled stalled_condition reason failed_ in
        let done = settle-done t laws env all (rw (r, x) refl) (rw (r, s) refl) in
        (done.0 ∙ r, done.1, done.2 ∙ s)

    retried_as :
        (kept : Text) {reason : Text}
        → ◌≡◌ {A = Option Text} (some kept) (some reason)
        → Reports false reason
            (settle t laws env (t.mark_false ready_condition kept (mark_in_progress t c)))
    retried_as kept h =
        subst
          (λ r.
            Reports false r
              (settle t laws env (t.mark_false ready_condition kept (mark_in_progress t c))))
          (some-injective h) (retried kept)

    pub stalls_as :
        (kept : Text) {reason : Text}
        → ◌≡◌ {A = Option Text} (some kept) (some reason)
        → Reports true reason
            (settle t laws env (t.mark_stalled kept (t.mark_false ready_condition kept c)))
    stalls_as kept h =
        subst
          (λ r.
            Reports true r
              (settle t laws env (t.mark_stalled kept (t.mark_false ready_condition kept c))))
          (some-injective h) (stalls kept)

  pub failed_as-Reports :
      (env : Environment C) (c : C) (f : Failure) {reason : Text}
      → reported f ≡ some reason
      → Reports (is_terminal f) reason (settle t laws env (failed_as t c f))
  unfolding failed_as reported
  failed_as-Reports env c (no_temp_dir message) h = cc
  failed_as-Reports env c (object_unreadable e) h = cc
  failed_as-Reports env c (status_not_updated es) h = cc
  failed_as-Reports env c (not_evaluated e) h = retried_as env c pipeline_failed h
  failed_as-Reports env c (not_built name e) h = retried_as env c (build_reason e) h
  failed_as-Reports env c (not_published name es) h = retried_as env c reconciliation_failed h
  failed_as-Reports env c (terminal reason) h =
      stalls_as env (mark_in_progress t c) (reason_text reason) h
  failed_as-Reports env c (aggregate f g) h = failed_as-Reports env c f h

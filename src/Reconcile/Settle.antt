-- ===== src/Reconcile/Settle.antt =====
-- What summarizeStatus makes of the conditions.
use flux_dev.Base.{ap, false, is_some, none, refl, some, true, ◌&&◌, ◌||◌, ◌∙◌, ◌≡◌}
use flux_dev.Reconcile.Run.{mark_in_progress}
use flux_dev.Reconcile.State.{Environment}
use flux_dev.Reconcile.Status.{end_reconciling, mark_retrying}
use flux_dev.Reconcile.Toolkit.{
  Condition, IsToolkit, Toolkit, has_status, is_false, is_true, progressing, progressing_with_retry,
  ready, ready_condition, reconciling, reconciling_condition, stalled_condition, unknown,
}
use flux_dev.Text.{Text, ◌==◌}

module _ {C : Type 0} (t : Toolkit C) (laws : IsToolkit t) where
  -- The conditions once the status is summarized.
  abbrev pub settle : Environment C → C → C
  settle env c = end_reconciling t env (mark_retrying t env c)

  pub in_progress :
      (c : C)
      → (t.find ready_condition (mark_in_progress t c) ≡ some (ready unknown progressing))
        × (t.find reconciling_condition (mark_in_progress t c) ≡ some (reconciling progressing))
        × (t.find stalled_condition (mark_in_progress t c) ≡ none)
  unfolding ◌==◌
  in_progress c =
      let marked = t.mark_reconciling progressing c in
      (
        laws.find-mark_unknown ready_condition ready_condition progressing marked,
        laws.find-mark_unknown reconciling_condition ready_condition progressing marked
            ∙ laws.find-mark_reconciling reconciling_condition progressing c,
        laws.find-mark_unknown stalled_condition ready_condition progressing marked
            ∙ laws.find-mark_reconciling stalled_condition progressing c,
      )

  module _ (env : Environment C) (c : C) where
    end_reconciling_idle :
        has_status is_true (t.find ready_condition c) ≡ false
        → has_status is_true (t.find stalled_condition c) ≡ false
        → end_reconciling t env c ≡ c
    unfolding end_reconciling
    end_reconciling_idle r s = rw (r, s) refl

    end_reconciling_done :
        (has_status is_true (t.find ready_condition c)
            || has_status is_true (t.find stalled_condition c))
          ≡ true
        → end_reconciling t env c ≡ t.delete reconciling_condition c
    unfolding end_reconciling
    end_reconciling_done h = rw h refl

    mark_retrying_idle :
        (has_status is_false (t.find ready_condition c) && is_some (t.find reconciling_condition c))
          ≡ false
        → mark_retrying t env c ≡ c
    unfolding mark_retrying
    mark_retrying_idle h = rw h refl

    mark_retrying_done :
        (rc : Condition)
        → has_status is_false (t.find ready_condition c) ≡ true
        → t.find reconciling_condition c ≡ some rc
        → mark_retrying t env c ≡ t.set (record rc { reason = progressing_with_retry }) c
    unfolding mark_retrying
    mark_retrying_done rc r x = rw (r, x) refl

  pub settle-failed :
      (env : Environment C) (c : C) (reason : Text)
      → t.find ready_condition c ≡ some (ready is_false reason)
      → t.find reconciling_condition c ≡ some (reconciling progressing)
      → t.find stalled_condition c ≡ none
      → (t.find ready_condition (settle env c) ≡ some (ready is_false reason))
        × (t.find reconciling_condition (settle env c) ≡ some (reconciling progressing_with_retry))
        × (t.find stalled_condition (settle env c) ≡ none)
  unfolding ◌==◌
  settle-failed env c reason r x s =
      let retry = reconciling progressing_with_retry in
      let r1 = laws.find-set ready_condition retry c ∙ r in
      let x1 = laws.find-set reconciling_condition retry c in
      let s1 = laws.find-set stalled_condition retry c ∙ s in
      let e : settle env c ≡ t.set retry c =
        ap (end_reconciling t env)
          (mark_retrying_done env c (reconciling progressing) (ap (has_status is_false) r) x)
        ∙ end_reconciling_idle env (t.set retry c) (ap (has_status is_true) r1)
            (ap (has_status is_true) s1) in
      (
        ap (t.find ready_condition) e ∙ r1,
        ap (t.find reconciling_condition) e ∙ x1,
        ap (t.find stalled_condition) e ∙ s1,
      )

  pub settle-done :
      (env : Environment C) (c : C)
      → (has_status is_false (t.find ready_condition c) && is_some (t.find reconciling_condition c))
        ≡ false
      → (has_status is_true (t.find ready_condition c)
          || has_status is_true (t.find stalled_condition c))
        ≡ true
      → (t.find ready_condition (settle env c) ≡ t.find ready_condition c)
        × (t.find reconciling_condition (settle env c) ≡ none)
        × (t.find stalled_condition (settle env c) ≡ t.find stalled_condition c)
  unfolding ◌==◌
  settle-done env c f d =
      let e : settle env c ≡ t.delete reconciling_condition c =
        ap (end_reconciling t env) (mark_retrying_idle env c f) ∙ end_reconciling_done env c d in
      (
        ap (t.find ready_condition) e ∙ laws.find-delete ready_condition reconciling_condition c,
        ap (t.find reconciling_condition) e
            ∙ laws.find-delete reconciling_condition reconciling_condition c,
        ap (t.find stalled_condition) e
            ∙ laws.find-delete stalled_condition reconciling_condition c,
      )

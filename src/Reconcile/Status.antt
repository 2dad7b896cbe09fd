-- ===== src/Reconcile/Status.antt =====
-- internal/controller/manifestgenerator_status.go: the patch of the status, its summary, and the
-- errors that stop the retries.
use flux_dev.Base.{Bool, List, Option, [], if◌then◌else◌, is_some, none, some, ◌&&◌, ◌||◌, ◌∷◌}
use flux_dev.Controller.Validation.{Reason, access_denied, validation_failed}
use flux_dev.Reconcile.State.{
  Answer, ApiError, Early, Environment, Object, State, done, emit, error, event, failed, not_found,
  on_conditions, other, patch_status, terminal, warning, with_object,
}
use flux_dev.Reconcile.Toolkit.{
  Condition, Toolkit, has_status, is_false, is_true, progressing_with_retry, ready_condition,
  reconciling_condition, stalled_condition,
}
use flux_dev.Text.{Text, text}

-- kerrors.FilterOut with IsNotFound.
unfoldable pub drop_not_found : List ApiError → List ApiError
drop_not_found [] = []
drop_not_found (not_found message ∷ es) = drop_not_found es
drop_not_found (other message ∷ es) = other message ∷ drop_not_found es

-- The errors that patchStatus returns: while the object is deleted, that it is gone is none.
unfoldable pub patch_errors : Bool → Answer → List ApiError
unfolding drop_not_found
patch_errors is_deleting done = []
patch_errors is_deleting (failed e es) = if is_deleting then drop_not_found (e ∷ es) else e ∷ es

abbrev pub reason_text : Reason → Text
reason_text validation_failed = text "ValidationFailed"
reason_text access_denied = text "AccessDenied"

module _ {C : Type 0} (t : Toolkit C) (env : Environment C) where
  -- A patch that succeeds makes the object the stored one.
  abbrev pub store_on : Answer → State C → State C
  store_on done s = record s { stored = s.object }
  store_on (failed e es) s = s

  unfoldable pub patched : State C → State C
  patched s = emit (patch_status s.object) (store_on (env s.effects (patch_status s.object)) s)

  unfoldable pub patch_status_of : State C → State C × List ApiError
  unfolding patched patch_errors
  patch_status_of s =
      (patched s, patch_errors s.object.is_deleting (env s.effects (patch_status s.object)))

  abbrev retrying : Option Condition → C → C
  retrying none c = c
  retrying (some rc) c = t.set (record rc { reason = progressing_with_retry }) c

  -- The first `if` of summarizeStatus, on the conditions.
  unfoldable pub mark_retrying : C → C
  mark_retrying c =
      if has_status is_false (t.find ready_condition c) && is_some (t.find reconciling_condition c)
      then retrying (t.find reconciling_condition c) c
      else c

  -- The second.
  unfoldable pub end_reconciling : C → C
  end_reconciling c =
      if has_status is_true (t.find ready_condition c)
        || has_status is_true (t.find stalled_condition c)
      then t.delete reconciling_condition c
      else c

  -- SetLastHandledReconcileAt, where there is a request.
  abbrev pub set_last_handled : Option Text → Object C → Object C
  set_last_handled none o = o
  set_last_handled (some v) o = record o { last_handled_reconcile_at = v }

  unfoldable pub handled_request : Object C → Object C
  handled_request o = set_last_handled (t.reconcile_annotation_value o.generator.annotations) o

  unfoldable pub summarize_status : State C → State C × List ApiError
  unfolding mark_retrying end_reconciling handled_request patch_status_of
  summarize_status s =
      patch_status_of
        (on_conditions (λ c. end_reconciling (mark_retrying c)) (with_object handled_request s))

  -- `MarkFalse` of Ready, and a warning.
  abbrev pub warn : Text → State C → State C
  warn reason s =
      emit (event warning reason) (on_conditions (t.mark_false ready_condition reason) s)

  -- newTerminalErrorFor
  unfoldable pub new_terminal_error_for : Reason → State C → Early C
  new_terminal_error_for reason s =
      let marked =
        on_conditions
          (λ c.
            t.mark_stalled (reason_text reason)
              (t.mark_false ready_condition (reason_text reason) c))
          s in
      (emit (event warning (reason_text reason)) marked, error (terminal reason))

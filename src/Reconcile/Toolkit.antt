-- ===== src/Reconcile/Toolkit.antt =====
-- The libraries that the reconciler keeps an object with: fluxcd/pkg/runtime/conditions, the
-- finalizers of controller-runtime, and the annotations and the jitter of fluxcd/pkg. They are
-- parameters, with what they document as laws.
use flux_dev.Base.{Bool, List, Option, false, if◌then◌else◌, none, some, true, ℕ, ◌≡◌}
use flux_dev.Dict.{Dict}
use flux_dev.Text.{Text, text, ◌==◌}

pub data Status : Type 0 where
  is_true is_false unknown : Status

-- A condition without its message, its times and its generation.
pub record Condition : Type 0 where
  pub kind : Text
  pub status : Status
  pub reason : Text

abbrev pub ready_condition : Text
ready_condition = text "Ready"

abbrev pub reconciling_condition : Text
reconciling_condition = text "Reconciling"

abbrev pub stalled_condition : Text
stalled_condition = text "Stalled"

abbrev pub progressing_with_retry : Text
progressing_with_retry = text "ProgressingWithRetry"

abbrev pub progressing : Text
progressing = text "Progressing"

abbrev pub succeeded : Text
succeeded = text "Succeeded"

abbrev pub reconciliation_failed : Text
reconciliation_failed = text "ReconciliationFailed"

abbrev pub ready : Status → Text → Condition
ready status reason = record { kind = ready_condition; status = status; reason = reason }

abbrev pub stalled : Text → Condition
stalled reason = record { kind = stalled_condition; status = is_true; reason = reason }

abbrev pub reconciling : Text → Condition
reconciling reason = record { kind = reconciling_condition; status = is_true; reason = reason }

-- `C` holds the conditions of an object. The marks take a kind and a reason.
pub record Toolkit (C : Type 0) : Type 0 where
  pub find : Text → C → Option Condition
  pub set : Condition → C → C
  pub delete : Text → C → C
  pub mark_true : Text → Text → C → C
  pub mark_false : Text → Text → C → C
  pub mark_unknown : Text → Text → C → C
  pub mark_reconciling : Text → C → C
  pub mark_stalled : Text → C → C
  pub contains_finalizer : Text → List Text → Bool
  pub add_finalizer : Text → List Text → List Text
  pub remove_finalizer : Text → List Text → List Text
  pub reconcile_annotation_value : Dict Text → Option Text
  pub jitter : ℕ → ℕ

abbrev same_status : Status → Status → Bool
same_status is_true is_true = true
same_status is_false is_false = true
same_status unknown unknown = true
same_status s t = false

-- conditions.IsTrue and conditions.IsFalse, of what Get finds.
abbrev pub has_status : Status → Option Condition → Bool
has_status s none = false
has_status s (some c) = same_status s c.status

-- What the libraries document. MarkReconciling removes a Stalled condition, and MarkStalled a
-- Reconciling one.
pub record IsToolkit {C : Type 0} (t : Toolkit C) : Type 0 where
  pub find-set :
      (k : Text) (x : Condition) (c : C)
      → t.find k (t.set x c) ≡ (if x.kind == k then some x else t.find k c)
  pub find-delete :
      (k j : Text) (c : C) → t.find k (t.delete j c) ≡ (if j == k then none else t.find k c)
  pub find-mark_true :
      (k j reason : Text) (c : C)
      → t.find k (t.mark_true j reason c) ≡ (
          if j == k
          then some (record { kind = j; status = is_true; reason = reason })
          else t.find k c)
  pub find-mark_false :
      (k j reason : Text) (c : C)
      → t.find k (t.mark_false j reason c) ≡ (
          if j == k
          then some (record { kind = j; status = is_false; reason = reason })
          else t.find k c)
  pub find-mark_unknown :
      (k j reason : Text) (c : C)
      → t.find k (t.mark_unknown j reason c) ≡ (
          if j == k
          then some (record { kind = j; status = unknown; reason = reason })
          else t.find k c)
  pub find-mark_reconciling :
      (k reason : Text) (c : C)
      → t.find k (t.mark_reconciling reason c) ≡ (
          if k == reconciling_condition
          then some (record { kind = reconciling_condition; status = is_true; reason = reason })
          else if k == stalled_condition
          then none
          else t.find k c)
  pub find-mark_stalled :
      (k reason : Text) (c : C)
      → t.find k (t.mark_stalled reason c) ≡ (
          if k == stalled_condition
          then some (record { kind = stalled_condition; status = is_true; reason = reason })
          else if k == reconciling_condition
          then none
          else t.find k c)
  pub contains-add :
      (f : Text) (fs : List Text) → t.contains_finalizer f (t.add_finalizer f fs) ≡ true
  pub contains-remove :
      (f : Text) (fs : List Text) → t.contains_finalizer f (t.remove_finalizer f fs) ≡ false

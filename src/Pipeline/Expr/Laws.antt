-- ===== src/Pipeline/Expr/Laws.antt =====
-- What a template of the pipeline sees.
use flux_dev.Base.{[], arith, if◌then◌else◌, none, some, ◌≡◌}
use flux_dev.Dict.{Dict, get, get-overlay, get-put, keys, overlay, put}
use flux_dev.Pipeline.Core.{Scope, values_key}
use flux_dev.Pipeline.Expr.{with_outputs}
use flux_dev.Text.{Distinct, Text, ◌==◌}
use flux_dev.Tree.{Value, object}

-- In the scope of a template, a binding of the item wins over `.values`, and `.values` over the
-- output of a step; every other name is that of an output. Neither the bindings nor the outputs have
-- a key twice.
pub get-with_outputs :
    (k : Text) (bindings : Dict Value) (scope : Scope)
    → Distinct (keys bindings)
    → Distinct (keys scope.outputs)
    → get k (with_outputs bindings scope) ≡ elim (get k bindings) [
      | some v ↦ some v
      | none ↦ if values_key == k then some (object scope.values) else get k scope.outputs
    ]
unfolding with_outputs get
get-with_outputs k bindings scope b d = ground (
  arith,
  get-overlay k (put values_key (object scope.values) (overlay [] scope.outputs)) bindings b,
  get-put values_key k (object scope.values) (overlay [] scope.outputs),
  get-overlay k [] scope.outputs d,
)

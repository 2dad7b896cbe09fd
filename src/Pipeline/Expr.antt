-- ===== src/Pipeline/Expr.antt =====
-- internal/pipeline/template.go: the per-item template fragments and the data that they see.
pub mod Laws
use flux_dev.Base.{[], ◌++◌, Result, ok, err, wrap, ◌>>=◌, if◌then◌else◌}
use flux_dev.Text.{Text, text, ◌==◌}
use flux_dev.Text.Trim.{trim_space}
use flux_dev.Dict.{Dict, put, overlay}
use flux_dev.Tree.{Value, object}
use flux_dev.Pipeline.Core.{
  Error, external, empty_fragment, empty_key, Template, Libraries, Scope, values_key,
}

unfoldable pub new_item_template : Libraries → Text → Text → Text → Result Error Template
new_item_template lib label step_name expr =
    if expr == []
    then err (empty_fragment label)
    else wrap external (lib.parse_template (label ++ text "[" ++ step_name ++ text "]") expr)

unfoldable pub render : Template → Dict Value → Result Error Text
render tmpl bindings = wrap external (tmpl bindings)

-- A compiled `keyExpr` is its template.
unfoldable pub new_key_expr : Libraries → Text → Text → Result Error Template
unfolding new_item_template
new_key_expr lib step_name expr = new_item_template lib (text "keyExpr") step_name expr

-- The prior outputs, then `.values`, then the bindings of the item: later entries win.
unfoldable pub with_outputs : Dict Value → Scope → Dict Value
with_outputs bindings scope =
    overlay (put values_key (object scope.values) (overlay [] scope.outputs)) bindings

unfoldable pub eval_key : Template → Dict Value → Scope → Result Error Text
unfolding render with_outputs
eval_key tmpl bindings scope = do
  out ← render tmpl (with_outputs bindings scope)
  let key = trim_space out
  if key == [] then err empty_key else ok key

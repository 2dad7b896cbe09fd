-- ===== src/Pipeline/Group.antt =====
-- internal/pipeline/group.go: bucketing the items of a list by a key.
pub mod Laws
use flux_dev.Base.{
  ℕ, suc, Option, none, some, List, [], ◌∷◌, ◌++◌, Result, ok, wrap, guard, ◌>>=◌, ◌>>◌,
}
use flux_dev.Text.{Text, text, has}
use flux_dev.Dict.{Dict, get, put}
use flux_dev.Tree.{Value, list, items_of, as_list, object}
use flux_dev.Api.{GroupStep}
use flux_dev.Pipeline.Core.{
  Error, at_field, at_index, not_a_prior_step, Template, Libraries, poll, Scope, list_input,
}
use flux_dev.Pipeline.Expr.{new_key_expr, eval_key}
use flux_dev.Pipeline.Filter.{item_bindings}

-- `groupStep`
pub record CompiledGroup : Type 0 where
  pub name : Text
  pub from : Text
  pub key_expr : Template

unfoldable pub compile_group : Libraries → Text → GroupStep → List Text → Result Error CompiledGroup
compile_group lib name gs seen = do
  guard (has gs.from seen) (not_a_prior_step gs.from)
  ke ← wrap (at_field (text "keyExpr")) (new_key_expr lib name gs.key_expr)
  ok (record { name = name; from = gs.from; key_expr = ke })

-- `bucket, _ := result[key].([]any)`: empty where the key is missing.
abbrev pub bucket_of : Option Value → List Value
bucket_of none = []
bucket_of (some v) = elim (as_list v) [ none ↦ [] | some vs ↦ vs ]

-- `result[key] = append(bucket, item)`
unfoldable pub add_to_bucket : Text → Value → Dict Value → Dict Value
add_to_bucket key v result = put key (list (items_of (bucket_of (get key result) ++ v ∷ []))) result

unfoldable pub group_items :
    (ℕ → Option Text) → Template → Scope → ℕ → List Value → Dict Value → Result Error (Dict Value)
group_items polls key_expr scope i [] result = ok result
group_items polls key_expr scope i (v ∷ vs) result = do
  poll (polls i)
  key ← wrap (at_index (text "keyExpr") i) (eval_key key_expr (item_bindings v i) scope)
  group_items polls key_expr scope (suc i) vs (add_to_bucket key v result)

unfoldable pub eval_group : (ℕ → Option Text) → CompiledGroup → Scope → Result Error Value
unfolding group_items
eval_group polls s scope = do
  vs ← list_input scope.outputs s.from
  result ← group_items polls s.key_expr scope 0 vs []
  ok (object result)

-- ===== src/Pipeline/MapVerb.antt =====
-- internal/pipeline/mapverb.go: rendering each item and reading the result as YAML.
pub mod Laws
use flux_dev.Base.{ℕ, suc, Option, List, [], ◌∷◌, Result, ok, err, found, wrap, guard, ◌>>=◌, ◌>>◌}
use flux_dev.Text.{Text, text, has}
use flux_dev.Dict.{Dict, get, put}
use flux_dev.Tree.{Value, list, map, items, items_of, entries, object}
use flux_dev.Api.{MapStep}
use flux_dev.Pipeline.Core.{
  Error, external, at_field, at_index, at_key, not_a_prior_step, undefined, not_a_collection,
  Template, Libraries, poll, Scope, value_at, sorted_keys,
}
use flux_dev.Pipeline.Expr.{new_item_template, render, with_outputs}
use flux_dev.Pipeline.Filter.{item_bindings, entry_bindings}

-- `mapStep`
pub record CompiledMap : Type 0 where
  pub name : Text
  pub from : Text
  pub expr : Template

unfoldable pub compile_map : Libraries → Text → MapStep → List Text → Result Error CompiledMap
compile_map lib name ms seen = do
  guard (has ms.from seen) (not_a_prior_step ms.from)
  tmpl ← wrap (at_field (text "expr")) (new_item_template lib (text "expr") name ms.expr)
  ok (record { name = name; from = ms.from; expr = tmpl })

unfoldable pub render_item : Libraries → Template → Dict Value → Scope → Result Error Value
render_item lib expr bindings scope = do
  raw ← render expr (with_outputs bindings scope)
  wrap external (lib.parse_yaml raw)

unfoldable pub map_items :
    Libraries → (ℕ → Option Text) → Template → Scope → ℕ → List Value → Result Error (List Value)
map_items lib polls expr scope i [] = ok []
map_items lib polls expr scope i (v ∷ vs) = do
  poll (polls i)
  val ← wrap (at_index (text "expr") i) (render_item lib expr (item_bindings v i) scope)
  rest ← map_items lib polls expr scope (suc i) vs
  ok (val ∷ rest)

unfoldable pub map_entries :
    Libraries
    → (ℕ → Option Text)
    → Template
    → Scope
    → Dict Value
    → ℕ
    → List Text
    → Dict Value
    → Result Error (Dict Value)
map_entries lib polls expr scope m i [] out = ok out
map_entries lib polls expr scope m i (k ∷ ks) out = do
  poll (polls i)
  val ← wrap (at_key (text "expr") k) (render_item lib expr (entry_bindings (value_at k m) k) scope)
  map_entries lib polls expr scope m (suc i) ks (put k val out)

unfoldable pub map_value :
    Libraries → (ℕ → Option Text) → CompiledMap → Scope → Value → Result Error Value
unfolding map_items map_entries
map_value lib polls s scope (list vs) = do
  out ← map_items lib polls s.expr scope 0 (items vs)
  ok (list (items_of out))
map_value lib polls s scope (map fs) = do
  out ← map_entries lib polls s.expr scope (entries fs) 0 (sorted_keys (entries fs)) []
  ok (object out)
map_value lib polls s scope v = err (not_a_collection s.from)

unfoldable pub eval_map : Libraries → (ℕ → Option Text) → CompiledMap → Scope → Result Error Value
unfolding map_value
eval_map lib polls s scope = do
  src ← found (get s.from scope.outputs) (undefined s.from)
  map_value lib polls s scope src

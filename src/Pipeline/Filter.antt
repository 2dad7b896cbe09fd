-- ===== src/Pipeline/Filter.antt =====
-- internal/pipeline/filter.go: keeping the items for which `where` holds.
pub mod Laws
use flux_dev.Base.{
  ℕ, suc, Bool, true, false, Option, none, some, List, [], ◌∷◌, Result, ok, err, found, wrap, guard,
  ◌>>=◌, ◌>>◌, if◌then◌else◌,
}
use flux_dev.Text.{Text, text, ◌==◌, has}
use flux_dev.Text.Trim.{trim_space}
use flux_dev.Dict.{Dict, get, put}
use flux_dev.Tree.{Value, int, string, list, map, items, items_of, entries, object}
use flux_dev.Api.{FilterStep}
use flux_dev.Pipeline.Core.{
  Error, at_field, at_index, at_key, not_a_prior_step, undefined, not_a_collection, not_a_boolean,
  Template, Libraries, poll, Scope, value_at, sorted_keys,
}
use flux_dev.Pipeline.Expr.{new_item_template, render, with_outputs}

-- `filterStep`
pub record CompiledFilter : Type 0 where
  pub name : Text
  pub from : Text
  pub condition : Template

unfoldable pub compile_filter :
    Libraries → Text → FilterStep → List Text → Result Error CompiledFilter
compile_filter lib name fs seen = do
  guard (has fs.from seen) (not_a_prior_step fs.from)
  tmpl ← wrap (at_field (text "where")) (new_item_template lib (text "where") name fs.condition)
  ok (record { name = name; from = fs.from; condition = tmpl })

abbrev pub true_words : List Text
true_words = text "1" ∷ text "t" ∷ text "T" ∷ text "TRUE" ∷ text "true" ∷ text "True" ∷ []

abbrev pub false_words : List Text
false_words = text "0" ∷ text "f" ∷ text "F" ∷ text "FALSE" ∷ text "false" ∷ text "False" ∷ []

-- strconv.ParseBool
unfoldable pub parse_bool : Text → Option Bool
parse_bool s =
    if has s true_words then some true else if has s false_words then some false else none

unfoldable pub truthy_string : Text → Result Error Bool
unfolding parse_bool
truthy_string raw =
    let s = trim_space raw in if s == [] then ok false else found (parse_bool s) (not_a_boolean s)

-- The bindings of an item of a list and of an entry of a map, here and in the other verbs.
abbrev pub item_bindings : Value → ℕ → Dict Value
item_bindings v i = (text "value", v) ∷ (text "index", int i) ∷ []

abbrev pub entry_bindings : Value → Text → Dict Value
entry_bindings v k = (text "value", v) ∷ (text "key", string k) ∷ []

unfoldable pub eval_predicate : Template → Dict Value → Scope → Result Error Bool
eval_predicate condition bindings scope = do
  raw ← render condition (with_outputs bindings scope)
  truthy_string raw

unfoldable pub filter_items :
    (ℕ → Option Text) → Template → Scope → ℕ → List Value → Result Error (List Value)
filter_items polls condition scope i [] = ok []
filter_items polls condition scope i (v ∷ vs) = do
  poll (polls i)
  keep ← wrap (at_index (text "where") i) (eval_predicate condition (item_bindings v i) scope)
  rest ← filter_items polls condition scope (suc i) vs
  ok (if keep then v ∷ rest else rest)

-- `ks` are the keys that are left, `out` the map so far.
unfoldable pub filter_entries :
    (ℕ → Option Text)
    → Template
    → Scope
    → Dict Value
    → ℕ
    → List Text
    → Dict Value
    → Result Error (Dict Value)
filter_entries polls condition scope m i [] out = ok out
filter_entries polls condition scope m i (k ∷ ks) out = do
  poll (polls i)
  keep ←
      wrap (at_key (text "where") k)
        (eval_predicate condition (entry_bindings (value_at k m) k) scope)
  filter_entries polls condition scope m (suc i) ks (if keep then put k (value_at k m) out else out)

unfoldable pub filter_value :
    (ℕ → Option Text) → CompiledFilter → Scope → Value → Result Error Value
unfolding filter_items filter_entries
filter_value polls s scope (list vs) = do
  out ← filter_items polls s.condition scope 0 (items vs)
  ok (list (items_of out))
filter_value polls s scope (map fs) = do
  out ← filter_entries polls s.condition scope (entries fs) 0 (sorted_keys (entries fs)) []
  ok (object out)
filter_value polls s scope v = err (not_a_collection s.from)

unfoldable pub eval_filter : (ℕ → Option Text) → CompiledFilter → Scope → Result Error Value
unfolding filter_value
eval_filter polls s scope = do
  src ← found (get s.from scope.outputs) (undefined s.from)
  filter_value polls s scope src

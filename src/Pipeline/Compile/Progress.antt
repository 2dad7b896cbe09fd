-- ===== src/Pipeline/Compile/Progress.antt =====
-- Running a compiled pipeline: no reference is left open.
use flux_dev.Pipeline.Compile.LoadSound.{
  expand_glob_sound, read_all_sound, read_decode_sound, shape_items_sound,
}
use flux_dev.Api.{PipelineStep}
use flux_dev.Base.{
  All, Bool-cases, List, Option, [], arith, err, false, found, inl, inr, is_some, length, ok, refl,
  suc, true, wrap, ℕ, ◌∷◌, ◌≡◌,
}
use flux_dev.Dict.{Dict, get, get-put, put}
use flux_dev.Pipeline.Compile.{
  Step, compile, eval_step, filter, group, load, map, merge, run, run_from, step_name,
}
use flux_dev.Pipeline.Compile.Sound.{
  dangling, dangling-bind, dangling-poll, filter_entries_sound, filter_items_sound,
  group_items_sound, map_entries_sound, map_items_sound,
}
use flux_dev.Pipeline.Compile.Wiring.{AllWired, IsWired, compile-AllWired}
use flux_dev.Pipeline.Core.{
  Context, Libraries, Scope, at_step, list_input, no_artifact, not_a_map, not_one_file, poll,
  sorted_keys, undefined,
}
use flux_dev.Pipeline.Filter.{CompiledFilter, eval_filter, filter_value}
use flux_dev.Pipeline.Group.{eval_group, group_items}
use flux_dev.Pipeline.Load.{CompiledLoad, eval_load, expand_glob, read_all, read_decode}
use flux_dev.Pipeline.MapVerb.{CompiledMap, eval_map, map_value}
use flux_dev.Pipeline.MergeVerb.{eval_merge, merge_outputs}
use flux_dev.Pipeline.SourceRef.{has_glob_meta}
use flux_dev.Text.{Text, has}
use flux_dev.Text.Equality.{All-has}
use flux_dev.Tree.{Value, as_fields, end, entries, items, list}
use flux_dev.Tree.Merge.{deep_merge}

-- Every output and every source that a step may refer to is in the scope.
pub record IsStocked (aliases seen : List Text) (s : Scope) : Type 0 where
  pub outputs : (k : Text) → has k seen ≡ true → is_some (get k s.outputs) ≡ true
  pub sources : (k : Text) → has k aliases ≡ true → is_some (get k s.sources) ≡ true

merge_outputs_sound :
    (polls : ℕ → Option Text) (outputs : Dict Value) (seen : List Text) (i : ℕ) (names : List Text)
    (acc : Value)
    → ((k : Text) → has k seen ≡ true → is_some (get k outputs) ≡ true)
    → All (λ n. has n seen ≡ true) names
    → dangling (merge_outputs polls outputs i names acc) ≡ false
unfolding merge_outputs
merge_outputs_sound polls outputs seen i [] acc st h = refl
merge_outputs_sound polls outputs seen i (n ∷ names) acc st h =
    dangling-bind (poll (polls i)) _ (dangling-poll (polls i)) λ _ _.
      dangling-bind (found (get n outputs) (undefined n)) _ (ground (arith, st n h.0)) λ v _.
        dangling-bind (found (as_fields v) (not_a_map n)) _ (ground arith)
          λ _ _. merge_outputs_sound polls outputs seen (suc i) names (deep_merge acc v) st h.1

eval_load_sound :
    (lib : Libraries) (polls : ℕ → Option Text) (aliases seen : List Text) (c : CompiledLoad)
    (s : Scope)
    → IsStocked aliases seen s
    → IsWired aliases seen (load c)
    → dangling (eval_load lib polls c s) ≡ false
unfolding eval_load
eval_load_sound lib polls aliases seen c s st w =
    dangling-bind (found (get c.alias s.sources) (no_artifact c.alias)) _
      (ground (arith, st.sources c.alias w.0))
      λ dir _.
        dangling-bind (expand_glob lib dir c.pattern) _ (expand_glob_sound lib dir c.pattern)
          λ rels _. elim (Bool-cases (has_glob_meta c.pattern)) [
            | inl glob ↦ rw glob (
                dangling-bind (read_all lib polls dir c.format 0 rels) _
                  (read_all_sound lib polls dir c.format 0 rels w.1)
                  λ its _. shape_items_sound c s its w.3)
            | inr literal ↦ rw literal (one_file rels dir)
          ]
  where
    one_file :
        (rels : List Text) (dir : Text)
        → dangling (elim rels [
          | rel ∷ [] ↦ read_decode lib dir rel c.format
          | other ↦ err (not_one_file c.pattern (length other))
        ])
          ≡ false
    one_file [] dir = refl
    one_file (rel ∷ []) dir = read_decode_sound lib dir rel c.format w.1
    one_file (rel ∷ q ∷ rels) dir = refl

filter_value_sound :
    (polls : ℕ → Option Text) (c : CompiledFilter) (s : Scope) (v : Value)
    → dangling (filter_value polls c s v) ≡ false
unfolding filter_value
filter_value_sound polls c s (list vs) =
    ground (arith, filter_items_sound polls c.condition s 0 (items vs))
filter_value_sound polls c s (Value.map fs) =
    ground
      (arith, filter_entries_sound polls c.condition s (entries fs) 0 (sorted_keys (entries fs)) [])
filter_value_sound polls c s v = refl

map_value_sound :
    (lib : Libraries) (polls : ℕ → Option Text) (c : CompiledMap) (s : Scope) (v : Value)
    → dangling (map_value lib polls c s v) ≡ false
unfolding map_value
map_value_sound lib polls c s (list vs) =
    ground (arith, map_items_sound lib polls c.expr s 0 (items vs))
map_value_sound lib polls c s (Value.map fs) =
    ground
      (arith, map_entries_sound lib polls c.expr s (entries fs) 0 (sorted_keys (entries fs)) [])
map_value_sound lib polls c s v = refl

eval_step_sound :
    (lib : Libraries) (polls : ℕ → Option Text) (aliases seen : List Text) (p : Step) (s : Scope)
    → IsStocked aliases seen s
    → IsWired aliases seen p
    → dangling (eval_step lib polls p s) ≡ false
unfolding eval_step eval_filter eval_map eval_group eval_merge list_input
eval_step_sound lib polls aliases seen (load c) s st w =
    eval_load_sound lib polls aliases seen c s st w
eval_step_sound lib polls aliases seen (filter c) s st w =
    dangling-bind (found (get c.from s.outputs) (undefined c.from)) _
      (ground (arith, st.outputs c.from w)) λ v _. filter_value_sound polls c s v
eval_step_sound lib polls aliases seen (map c) s st w =
    dangling-bind (found (get c.from s.outputs) (undefined c.from)) _
      (ground (arith, st.outputs c.from w)) λ v _. map_value_sound lib polls c s v
eval_step_sound lib polls aliases seen (group c) s st w =
    dangling-bind (list_input s.outputs c.from) _ (ground (arith, st.outputs c.from w)) λ vs _.
      dangling-bind (group_items polls c.key_expr s 0 vs []) _
        (group_items_sound polls c.key_expr s 0 vs []) λ _ _. refl
eval_step_sound lib polls aliases seen (merge c) s st w =
    merge_outputs_sound polls s.outputs seen 0 c.from (Value.map end) st.outputs w.0

put-IsStocked :
    (aliases seen : List Text) (name : Text) (v : Value) (s : Scope)
    → IsStocked aliases seen s
    → IsStocked aliases (name ∷ seen) (record s { outputs = put name v s.outputs })
unfolding has
put-IsStocked aliases seen name v s st = record {
  outputs = λ k h. ground (arith, st.outputs k, get-put name k v s.outputs);
  sources = st.sources;
}

run_from_sound :
    (lib : Libraries) (ctx : Context) (aliases seen : List Text) (n : ℕ) (steps : List Step)
    (s : Scope)
    → IsStocked aliases seen s
    → AllWired aliases seen steps
    → dangling (run_from lib ctx n steps s) ≡ false
unfolding run_from
run_from_sound lib ctx aliases seen n [] s st w = refl
run_from_sound lib ctx aliases seen n (p ∷ steps) s st w =
    dangling-bind (poll (ctx.before_step n)) _ (dangling-poll (ctx.before_step n)) λ _ _.
      dangling-bind (wrap (at_step (step_name p)) (eval_step lib (ctx.before_item n) p s)) _
        (ground (arith, eval_step_sound lib (ctx.before_item n) aliases seen p s st w.0))
        λ v _.
          run_from_sound lib ctx aliases (step_name p ∷ seen) (suc n) steps
            (record s { outputs = put (step_name p) v s.outputs })
            (put-IsStocked aliases seen (step_name p) v s st) w.3

-- A pipeline that compiles, run with a directory for every declared alias, never fails on an
-- output that is not defined, on an alias with no artifact, on a missing key template or on an
-- unknown format, whatever the libraries, the files and the context do.
pub run-compile_sound :
    (lib : Libraries) (ctx : Context) (spec : List PipelineStep) (aliases : List Text)
    (steps : List Step) (sources : Dict Text) (values : Dict Value)
    → compile lib spec aliases ≡ ok steps
    → All (λ k. is_some (get k sources) ≡ true) aliases
    → dangling (run lib ctx steps sources values) ≡ false
unfolding run has
run-compile_sound lib ctx spec aliases steps sources values h fetched =
    run_from_sound lib ctx aliases [] 0 steps
      (record { sources = sources; values = values; outputs = [] })
      (record {
        outputs = λ k e. cc;
        sources = λ k there. All-has (λ j. is_some (get j sources) ≡ true) aliases k fetched there;
      })
      (compile-AllWired lib spec aliases steps h).0

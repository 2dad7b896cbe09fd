-- ===== src/Pipeline/Compile.antt =====
-- internal/pipeline/pipeline.go: compiling the steps in order, and running them.
pub mod LoadSound
pub mod Outputs
pub mod Progress
pub mod Sound
pub mod Wiring
use flux_dev.Base.{
  ℕ, suc, not, Option, none, some, List, [], ◌∷◌, Result, ok, err, wrap, guard, ◌>>=◌, ◌>>◌,
}
use flux_dev.Text.{Text, ◌==◌, has}
use flux_dev.Dict.{Dict, put}
use flux_dev.Tree.{Value}
use flux_dev.Api.{PipelineStep}
use flux_dev.Pipeline.Core.{
  Error, at_step, duplicate_step_name, reserved_step_name, no_verb_set, Libraries, Context, poll,
  Scope, values_key,
}
use flux_dev.Pipeline.Load.{CompiledLoad, compile_load, eval_load}
use flux_dev.Pipeline.Filter.{CompiledFilter, compile_filter, eval_filter}
use flux_dev.Pipeline.MapVerb.{CompiledMap, compile_map, eval_map}
use flux_dev.Pipeline.Group.{CompiledGroup, compile_group, eval_group}
use flux_dev.Pipeline.MergeVerb.{CompiledMerge, compile_merge, eval_merge}

-- The implementations of the interface `Step`.
pub data Step : Type 0 where
  load : CompiledLoad → Step
  filter : CompiledFilter → Step
  map : CompiledMap → Step
  group : CompiledGroup → Step
  merge : CompiledMerge → Step

-- Name()
abbrev pub step_name : Step → Text
step_name (load s) = s.name
step_name (filter s) = s.name
step_name (map s) = s.name
step_name (group s) = s.name
step_name (merge s) = s.name

-- Eval()
unfoldable pub eval_step : Libraries → (ℕ → Option Text) → Step → Scope → Result Error Value
eval_step lib polls (load s) scope = eval_load lib polls s scope
eval_step lib polls (filter s) scope = eval_filter polls s scope
eval_step lib polls (map s) scope = eval_map lib polls s scope
eval_step lib polls (group s) scope = eval_group polls s scope
eval_step lib polls (merge s) scope = eval_merge polls s scope

module _ (lib : Libraries) where
  -- The first verb that is set, in the order of the source.
  unfoldable pub compile_step : PipelineStep → List Text → List Text → Result Error Step
  compile_step ps aliases seen = elim ps.load [
    | some ls ↦ (do s ← compile_load lib ps.name ls aliases; ok (load s))
    | none ↦ elim ps.filter [
      | some fs ↦ (do s ← compile_filter lib ps.name fs seen; ok (filter s))
      | none ↦ elim ps.map [
        | some ms ↦ (do s ← compile_map lib ps.name ms seen; ok (map s))
        | none ↦ elim ps.group [
          | some gs ↦ (do s ← compile_group lib ps.name gs seen; ok (group s))
          | none ↦ elim ps.merge [
            | some ms ↦ (do s ← compile_merge ps.name ms seen; ok (merge s))
            | none ↦ err no_verb_set
          ]
        ]
      ]
    ]
  ]

  -- The loop of Compile; `seen` are the names of the steps compiled so far.
  unfoldable pub compile_from : List Text → List Text → List PipelineStep → Result Error (List Step)
  compile_from aliases seen [] = ok []
  compile_from aliases seen (ps ∷ spec) = do
    guard (not (has ps.name seen)) (at_step ps.name duplicate_step_name)
    guard (not (ps.name == values_key)) (at_step ps.name reserved_step_name)
    s ← wrap (at_step ps.name) (compile_step ps aliases seen)
    steps ← compile_from aliases (ps.name ∷ seen) spec
    ok (s ∷ steps)

  unfoldable pub compile : List PipelineStep → List Text → Result Error (List Step)
  unfolding compile_from
  compile spec aliases = compile_from aliases [] spec

  -- The loop of Run, before the n-th step.
  unfoldable pub run_from : Context → ℕ → List Step → Scope → Result Error (Dict Value)
  run_from ctx n [] scope = ok scope.outputs
  run_from ctx n (s ∷ steps) scope = do
    poll (ctx.before_step n)
    val ← wrap (at_step (step_name s)) (eval_step lib (ctx.before_item n) s scope)
    run_from ctx (suc n) steps (record scope { outputs = put (step_name s) val scope.outputs })

  unfoldable pub run : Context → List Step → Dict Text → Dict Value → Result Error (Dict Value)
  unfolding run_from
  run ctx steps sources values =
      run_from ctx 0 steps (record { sources = sources; values = values; outputs = [] })

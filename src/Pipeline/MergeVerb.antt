-- ===== src/Pipeline/MergeVerb.antt =====
-- internal/pipeline/merge.go: the deep merge of earlier outputs.
use flux_dev.Base.{ℕ, suc, not, Option, List, [], ◌∷◌, Result, ok, found, guard, ◌>>=◌, ◌>>◌}
use flux_dev.Text.{Text, has}
use flux_dev.Dict.{Dict, get}
use flux_dev.Tree.{Value, map, end, as_fields}
use flux_dev.Tree.Merge.{deep_merge}
use flux_dev.Api.{MergeStep}
use flux_dev.Pipeline.Core.{
  Error, not_a_prior_step, listed_twice, undefined, not_a_map, poll, Scope,
}

-- `mergeStep`
pub record CompiledMerge : Type 0 where
  pub name : Text
  pub from : List Text

-- The loop of compileMerge; `dedup` are the names so far.
unfoldable pub check_from : List Text → List Text → List Text → Result Error (Unit {0})
check_from seen dedup [] = ok tt
check_from seen dedup (name ∷ names) = do
  guard (has name seen) (not_a_prior_step name)
  guard (not (has name dedup)) (listed_twice name)
  check_from seen (name ∷ dedup) names

unfoldable pub compile_merge : Text → MergeStep → List Text → Result Error CompiledMerge
unfolding check_from
compile_merge name ms seen = do
  check_from seen [] ms.from
  ok (record { name = name; from = ms.from })

unfoldable pub merge_outputs :
    (ℕ → Option Text) → Dict Value → ℕ → List Text → Value → Result Error Value
merge_outputs polls outputs i [] acc = ok acc
merge_outputs polls outputs i (name ∷ names) acc = do
  poll (polls i)
  val ← found (get name outputs) (undefined name)
  _ ← found (as_fields val) (not_a_map name)
  merge_outputs polls outputs (suc i) names (deep_merge acc val)

unfoldable pub eval_merge : (ℕ → Option Text) → CompiledMerge → Scope → Result Error Value
unfolding merge_outputs
eval_merge polls s scope = merge_outputs polls scope.outputs 0 s.from (map end)

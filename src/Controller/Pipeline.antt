-- ===== src/Controller/Pipeline.antt =====
-- From a valid ManifestGenerator to the scope of its templates: runPipeline of
-- internal/controller/manifestgenerator_pipeline.go, resolveValues and handleValuesError of
-- manifestgenerator_values.go, and the template data of manifestgenerator_controller.go.
pub mod Laws
use flux_dev.Api.{PipelineStep, ManifestGenerator, SourceReference}
use flux_dev.Base.{List, Result, [], if◌then◌else◌, none, ok, some, ◌>>=◌, ◌∷◌}
use flux_dev.Dict.{Dict, overlay, put}
use flux_dev.Pipeline.Compile.{compile, run}
use flux_dev.Pipeline.Core.{Context, Libraries, values_key}
use flux_dev.Text.{Text}
use flux_dev.Tree.{Fields, Value, end, map}
use flux_dev.Values.{Error, Resolver, is_access, resolve}
use flux_dev.Values
use flux_dev.Pipeline.Core as PipelineCore

-- How a failed resolution of the values is handled: it stalls, or it is tried again.
pub data Handling : Type 0 where
  stall_access_denied : Handling
  requeue_source_fetch_failed : Handling

unfoldable pub handle_values_error : Values.Error → Handling
handle_values_error e = if is_access e then stall_access_denied else requeue_source_fetch_failed

unfoldable pub resolve_values : Resolver → ManifestGenerator → Result Values.Error Fields
resolve_values r mg = elim mg.spec.values [
  | some raw ↦ resolve r mg
  | none ↦ elim mg.spec.values_from [ [] ↦ ok end | ref ∷ refs ↦ resolve r mg ]
]

unfoldable pub alias_list : List SourceReference → List Text
alias_list [] = []
alias_list (src ∷ srcs) = src.alias ∷ alias_list srcs

-- `compile:` and `evaluate:` errors are the pipeline's own. An empty pipeline is not compiled.
unfoldable pub run_spec :
    Libraries
    → Context
    → List PipelineStep
    → List Text
    → Dict Text
    → Dict Value
    → Result PipelineCore.Error (Dict Value)
run_spec lib ctx [] aliases sources values = ok []
run_spec lib ctx (ps ∷ spec) aliases sources values = do
  steps ← compile lib (ps ∷ spec) aliases
  run lib ctx steps sources values

unfoldable pub run_pipeline :
    Libraries
    → Context
    → ManifestGenerator
    → Dict Text
    → Dict Value
    → Result PipelineCore.Error (Dict Value)
run_pipeline lib ctx mg sources values =
    run_spec lib ctx mg.spec.pipeline (alias_list mg.spec.sources) sources values

-- The scope of the templates: the outputs, and `.values`.
unfoldable pub template_data : Dict Value → Fields → Dict Value
template_data outputs values = put values_key (map values) (overlay [] outputs)

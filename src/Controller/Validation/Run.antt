-- ===== src/Controller/Validation/Run.antt =====
-- After validation, the pipeline of a spec runs without a dangling reference.
use flux_dev.Api.{ManifestGenerator, PipelineStep}
use flux_dev.Base.{All, List, [], ap, false, is_some, ok, refl, true, ◌>>=◌, ◌∙◌, ◌∷◌, ◌≡◌}
use flux_dev.Controller.Pipeline.{alias_list, run_pipeline, run_spec}
use flux_dev.Controller.Validation.{Validator, validate_spec}
use flux_dev.Controller.Validation.Laws.{validate_spec_ok}
use flux_dev.Dict.{Dict, get}
use flux_dev.Pipeline.Compile.{Step, compile, compile_from, run, run_from}
use flux_dev.Pipeline.Compile.Progress.{run-compile_sound}
use flux_dev.Pipeline.Compile.Sound.{dangling}
use flux_dev.Pipeline.Core.{Context, Libraries}
use flux_dev.Text.{Text}
use flux_dev.Tree.{Value}

run_spec-run :
    (lib : Libraries) (ctx : Context) (spec : List PipelineStep) (aliases : List Text)
    (steps : List Step) (dirs : Dict Text) (values : Dict Value)
    → compile lib spec aliases ≡ ok steps
    → run_spec lib ctx spec aliases dirs values ≡ run lib ctx steps dirs values
unfolding run_spec run run_from compile compile_from
run_spec-run lib ctx [] aliases [] dirs values h = refl
run_spec-run lib ctx [] aliases (s ∷ steps) dirs values h = cc
run_spec-run lib ctx (ps ∷ spec) aliases steps dirs values h =
    ap (λ m. m >>= λ st. run lib ctx st dirs values) h

-- The pipeline of a generator that has passed the validation compiles against the aliases of its
-- sources, and runPipeline is the run of the steps that it is compiled to. With a directory for each
-- of the sources, this run never fails on an output that is not defined, on an alias with no
-- artifact, on a missing key template or on an unknown format.
pub validate_spec-run_pipeline :
    (v : Validator) (ctx : Context) (mg : ManifestGenerator) (dirs : Dict Text)
    (values : Dict Value)
    → validate_spec v mg ≡ ok tt
    → All (λ k. is_some (get k dirs) ≡ true) (alias_list mg.spec.sources)
    → (steps : List Step) × (compile v.libraries mg.spec.pipeline (alias_list mg.spec.sources)
        ≡ ok steps)
      × (run_pipeline v.libraries ctx mg dirs values ≡ run v.libraries ctx steps dirs values)
      × (dangling (run_pipeline v.libraries ctx mg dirs values) ≡ false)
unfolding run_pipeline
validate_spec-run_pipeline v ctx mg dirs values valid fetched =
    let (steps, compiled) = (validate_spec_ok v mg valid).pipeline in
    let aliases = alias_list mg.spec.sources in
    let same = run_spec-run v.libraries ctx mg.spec.pipeline aliases steps dirs values compiled in
    (
      steps,
      compiled,
      same,
      ap dangling same
          ∙ run-compile_sound v.libraries ctx mg.spec.pipeline aliases steps dirs values compiled
              fetched,
    )

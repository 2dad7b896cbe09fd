-- ===== src/Controller/Validation/Steps.antt =====
-- The pipeline part of the validation: the order of the aliases does not matter to it.
use flux_dev.Api.{LoadStep, PipelineStep}
use flux_dev.Base.{
  >>=-eq-ok, List, Option-cases, [], inl, inr, ok, ok-injective, refl, sym, wrap, wrap-eq-ok, ◌∷◌,
  ◌≡◌,
}
use flux_dev.Controller.Validation.{bad_pipeline, check_pipeline}
use flux_dev.Pipeline.Compile.{Step, compile, compile_from, compile_step}
use flux_dev.Pipeline.Core.{Libraries}
use flux_dev.Pipeline.Load.{compile_load}
use flux_dev.Pipeline.SourceRef.{split_source_ref}
use flux_dev.Text.{Text, has}
use mathlib.Core.List

compile_load-aliases :
    (lib : Libraries) (name : Text) (ls : LoadStep) (xs ys : List Text)
    → ((k : Text) → has k xs ≡ has k ys)
    → compile_load lib name ls xs ≡ compile_load lib name ls ys
unfolding compile_load
compile_load-aliases lib name ls xs ys same = elim (Option-cases (split_source_ref ls.from)) [
  | inl e ↦ rw e refl
  | inr (p, e) ↦ rw (e, same p.0) refl
]

compile_step-aliases :
    (lib : Libraries) (ps : PipelineStep) (seen xs ys : List Text)
    → ((k : Text) → has k xs ≡ has k ys)
    → compile_step lib ps xs seen ≡ compile_step lib ps ys seen
unfolding compile_step
compile_step-aliases lib ps seen xs ys same = elim (Option-cases ps.load) [
  | inl e ↦ rw e refl
  | inr (ls, e) ↦ rw (e, compile_load-aliases lib ps.name ls xs ys same) refl
]

compile_from-aliases :
    (lib : Libraries) (xs ys seen : List Text) (spec : List PipelineStep)
    → ((k : Text) → has k xs ≡ has k ys)
    → compile_from lib xs seen spec ≡ compile_from lib ys seen spec
unfolding compile_from
compile_from-aliases lib xs ys seen [] same = refl
compile_from-aliases lib xs ys seen (ps ∷ spec) same =
    rw
      (
        compile_step-aliases lib ps seen xs ys same,
        compile_from-aliases lib xs ys (ps.name ∷ seen) spec same,
      )
      refl

-- Compile reads the aliases as a set.
pub compile-aliases :
    (lib : Libraries) (xs ys : List Text) (spec : List PipelineStep)
    → ((k : Text) → has k xs ≡ has k ys)
    → compile lib spec xs ≡ compile lib spec ys
unfolding compile
compile-aliases lib xs ys spec same = compile_from-aliases lib xs ys [] spec same

pub check_pipeline_ok :
    (lib : Libraries) (spec : List PipelineStep) (aliases step_names : List Text)
    → check_pipeline lib spec aliases ≡ ok step_names
    → ((steps : List Step) × (compile lib spec aliases ≡ ok steps))
      × (step_names ≡ List.map (λ s. s.name) spec)
unfolding check_pipeline compile compile_from
check_pipeline_ok lib [] aliases step_names h = (([], refl), sym (ok-injective h))
check_pipeline_ok lib (ps ∷ spec) aliases step_names h =
    let (steps, compiled, h1) =
      >>=-eq-ok (wrap bad_pipeline (compile lib (ps ∷ spec) aliases)) _ h in
    ((steps, wrap-eq-ok bad_pipeline _ compiled), sym (ok-injective h1))

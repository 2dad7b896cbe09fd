-- ===== src/Controller/Validation/Laws.antt =====
-- What a spec that passes validateSpec has.
use flux_dev.Api.{ManifestArtifact, ManifestGenerator, TemplateSpec}
use flux_dev.Base.{
  >>=-eq-ok, All, All-map, Bool-cases, List, Result, [], arith, err, inl, inr, ok, sym, true, ◌∙◌,
  ◌∷◌, ◌≡◌, ◌⊎◌,
}
use flux_dev.Builder.Core.{artifact_as_source}
use flux_dev.Builder.Reference.{parse_source_ref}
use flux_dev.Builder.Reference.Laws.{parse_source_ref_iff, parse_source_ref_reserved}
use flux_dev.Controller.Pipeline.{alias_list}
use flux_dev.Controller.Validation.{
  Validator, check_pipeline, check_sources, check_values, check_values_from, validate_spec,
}
use flux_dev.Controller.Validation.Artifacts.{
  FreshNames, IsValidArtifact, IsValidTemplate, check_artifacts_ok,
}
use flux_dev.Controller.Validation.References.{
  FreshAliases, StaysHome, check_sources_ok, check_values_from_ok,
}
use flux_dev.Controller.Validation.Steps.{check_pipeline_ok, compile-aliases}
use flux_dev.Pipeline.Compile.{Step, compile}
use flux_dev.Text.{Text, has, text, trim_prefix, ◌==◌}
use flux_dev.Values.{validate_target_path}
use mathlib.Core.Path.{subst}
use mathlib.Core.List

-- parseSourceRef of the builder reads a declared alias, or refuses the alias `artifact`.
abbrev pub IsParsed : List Text → Text → Type 0
IsParsed aliases ref =
    ((alias : Text) × (path : Text) × (parse_source_ref ref ≡ ok (alias, path))
      × (has alias aliases ≡ true))
    ⊎ (parse_source_ref ref ≡ err artifact_as_source)

valid-IsParsed :
    (parse_dest : Text → Result Text (Unit {0})) (aliases : List Text) (t : TemplateSpec)
    → IsValidTemplate parse_dest aliases t
    → IsParsed aliases t.from
valid-IsParsed parse_dest aliases t ((alias, path, ref, known), dest) =
    elim (Bool-cases (alias == text "artifact")) [
      | inl reserved ↦ inr (parse_source_ref_reserved t.from alias path ref reserved)
      | inr free ↦ inl (alias, path, (parse_source_ref_iff t.from alias path).1 (ref, free), known)
    ]

-- The conditions that validateSpec establishes.
pub record IsValid (v : Validator) (mg : ManifestGenerator) : Type 0 where
  pub aliases : FreshAliases [] mg.spec.sources
  pub sources_stay_home :
      All (λ src. StaysHome v.no_cross_namespace_refs mg.namespace src.namespace) mg.spec.sources
  pub values : check_values v.resolver mg.spec.values ≡ ok tt
  pub values_stay_home :
      All
        (λ ref. StaysHome v.no_cross_namespace_refs mg.namespace ref.namespace)
        mg.spec.values_from
  pub target_paths : All (λ ref. validate_target_path ref.target_path ≡ ok tt) mg.spec.values_from
  pub pipeline :
      (steps : List Step) × (compile v.libraries mg.spec.pipeline (alias_list mg.spec.sources)
        ≡ ok steps)
  pub artifact_names : FreshNames [] mg.spec.artifacts
  pub artifacts :
      All
        (IsValidArtifact v.parse_dest
          (alias_list mg.spec.sources)
          (List.map (λ s. s.name) mg.spec.pipeline))
        mg.spec.artifacts
  pub source_refs :
      All
        (λ a. All (λ t. IsParsed (alias_list mg.spec.sources) t.from) a.templates)
        mg.spec.artifacts

IsValidArtifact-aliases :
    (parse_dest : Text → Result Text (Unit {0})) (xs ys step_names : List Text)
    (a : ManifestArtifact)
    → ((k : Text) → has k xs ≡ has k ys)
    → IsValidArtifact parse_dest xs step_names a
    → IsValidArtifact parse_dest ys step_names a
IsValidArtifact-aliases parse_dest xs ys step_names a same (each, revision, origin, templates) = (
  each,
  rw (← same (trim_prefix a.revision (text "@"))) revision,
  rw (← same (trim_prefix a.origin_revision (text "@"))) origin,
  known a.templates templates,
)
  where
    known :
        (ts : List TemplateSpec)
        → All (IsValidTemplate parse_dest xs) ts
        → All (IsValidTemplate parse_dest ys) ts
    known [] h = tt
    known (t ∷ ts) (((alias, path, ref, there), dest), h) =
        (((alias, path, ref, sym (same alias) ∙ there), dest), known ts h)

-- validateSpec establishes, on the spec as it stands: unique aliases, no reference to another
-- namespace where these are not allowed, target paths that parse, a pipeline that compiles against
-- the declared aliases, unique artifact names, and for every artifact a forEach over a declared
-- step under a binding other than `values`, revision aliases that are declared, and templates with a
-- well-formed reference to a declared source and a destination that parses. Of the reference of each
-- template, parseSourceRef of the builder gives a declared alias and a path, or the error that the
-- alias `artifact` is reserved.
pub validate_spec_ok :
    (v : Validator) (mg : ManifestGenerator) → validate_spec v mg ≡ ok tt → IsValid v mg
unfolding validate_spec has
validate_spec_ok v mg h =
    let (names, sources, h1) =
      >>=-eq-ok (check_sources v.no_cross_namespace_refs mg.namespace mg.spec.sources []) _ h in
    let (u, inline, h2) = >>=-eq-ok (check_values v.resolver mg.spec.values) _ h1 in
    let (w, refs, h3) =
      >>=-eq-ok (check_values_from v.no_cross_namespace_refs mg.namespace 0 mg.spec.values_from) _
        h2 in
    let (step_names, spec, h4) =
      >>=-eq-ok (check_pipeline v.libraries mg.spec.pipeline names) _ h3 in
    let (fresh, home, known) =
      check_sources_ok v.no_cross_namespace_refs mg.namespace mg.spec.sources [] names sources in
    let same : (k : Text) → has k names ≡ has k (alias_list mg.spec.sources) =
      λ k. ground (arith, known k) in
    let ((steps, compiled), named) =
      check_pipeline_ok v.libraries mg.spec.pipeline names step_names spec in
    let (unique, artifacts) =
      check_artifacts_ok v.parse_dest names step_names [] mg.spec.artifacts h4 in
    let valid =
      All-map _ _ mg.spec.artifacts
        (λ a p.
          IsValidArtifact-aliases v.parse_dest names (alias_list mg.spec.sources)
            (List.map (λ s. s.name) mg.spec.pipeline) a same
            (subst (λ ns. IsValidArtifact v.parse_dest names ns a) named p))
        artifacts in
    record {
      aliases = fresh;
      sources_stay_home = home;
      values = inline;
      values_stay_home =
          All-map _ _ mg.spec.values_from (λ ref p. p.0)
            (check_values_from_ok v.no_cross_namespace_refs mg.namespace 0 mg.spec.values_from
              refs);
      target_paths =
          All-map _ _ mg.spec.values_from (λ ref p. p.1)
            (check_values_from_ok v.no_cross_namespace_refs mg.namespace 0 mg.spec.values_from
              refs);
      pipeline = (
        steps,
        sym (compile-aliases v.libraries names (alias_list mg.spec.sources) mg.spec.pipeline same)
            ∙ compiled,
      );
      artifact_names = unique;
      artifacts = valid;
      source_refs =
          All-map _ _ mg.spec.artifacts
            (λ a p.
              All-map _ _ a.templates (valid-IsParsed v.parse_dest (alias_list mg.spec.sources))
                p.3)
            valid;
    }

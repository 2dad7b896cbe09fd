-- ===== src/Controller/Validation.antt =====
-- internal/controller/manifestgenerator_validation.go: which specs are refused, and for what.
pub mod Resolution
pub mod Artifacts
pub mod Laws
pub mod References
pub mod Run
pub mod Steps
use flux_dev.Api.{
  ForEachSpec, ManifestArtifact, ManifestGenerator, PipelineStep, SourceReference, TemplateSpec,
  ValuesReference,
}
use flux_dev.Base.{
  Bool, List, Option, Result, [], drop, eqb, found, guard, if◌then◌else◌, length, none, not, ok,
  some, suc, take, wrap, ℕ, ◌&&◌, ◌>>=◌, ◌>>◌, ◌||◌, ◌∷◌,
}
use flux_dev.Builder.Apply.{Builder}
use flux_dev.Builder.Reference.{validate_dest_template}
use flux_dev.Pipeline.Compile.{compile}
use flux_dev.Pipeline.Core.{Error, Libraries, values_key}
use flux_dev.Text.{Text, has, index_byte, starts_with, text, trim_prefix, ◌==◌}
use flux_dev.Tree.{map}
use flux_dev.Values.{Resolver, validate_inline, validate_target_path}
use mathlib.Core.List
use flux_dev.Values
use flux_dev.Pipeline.Core as PipelineCore
use flux_dev.Builder.Core as BuilderCore

-- The Ready reasons of a terminal error.
pub data Reason : Type 0 where
  validation_failed access_denied : Reason

-- What newTerminalErrorFor is called with: its reason is `reason_of`.
pub data Rejection : Type 0 where
  duplicate_alias cross_namespace_source : Text → Rejection
  bad_values : Values.Error → Rejection
  bad_target_path : ℕ → Values.Error → Rejection
  cross_namespace_values : Text → Rejection
  bad_pipeline : PipelineCore.Error → Rejection
  duplicate_artifact : Text → Rejection
  for_each_from for_each_as revision_alias origin_alias template_source template_alias :
      Text → Text → Rejection
  template_destination : Text → Text → BuilderCore.Error → Rejection

abbrev pub reason_of : Rejection → Reason
reason_of (cross_namespace_source alias) = access_denied
reason_of (cross_namespace_values name) = access_denied
reason_of r = validation_failed

-- The libraries: those of the pipeline and the values, and the parser of destination templates.
pub record Validator : Type 0 where
  pub libraries : Libraries
  pub resolver : Resolver
  pub parse_dest : Text → Result Text (Unit {0})
  pub no_cross_namespace_refs : Bool

unfoldable pub template_source_alias : Text → Option Text
template_source_alias ref =
    if not (starts_with ref (text "@")) then none else elim (index_byte (drop 1 ref) b'/') [
      | none ↦ none
      | some i ↦
          if eqb i 0 || eqb (suc i) (length (drop 1 ref)) then none else some (take i (drop 1 ref))
    ]

-- A reference to another namespace where these are not allowed.
abbrev pub crosses : Bool → Text → Text → Bool
crosses strict namespace own = strict && not (namespace == []) && not (namespace == own)

-- The loop over spec.sources; it returns the aliases.
unfoldable pub check_sources :
    Bool → Text → List SourceReference → List Text → Result Rejection (List Text)
check_sources strict own [] seen = ok seen
check_sources strict own (src ∷ srcs) seen = do
  guard (not (has src.alias seen)) (duplicate_alias src.alias)
  guard (not (crosses strict src.namespace own)) (cross_namespace_source src.alias)
  check_sources strict own srcs (src.alias ∷ seen)

unfoldable pub check_values_from :
    Bool → Text → ℕ → List ValuesReference → Result Rejection (Unit {0})
check_values_from strict own i [] = ok tt
check_values_from strict own i (ref ∷ refs) = do
  wrap (bad_target_path i) (validate_target_path ref.target_path)
  guard (not (crosses strict ref.namespace own)) (cross_namespace_values ref.name)
  check_values_from strict own (suc i) refs

unfoldable pub check_values : Resolver → Option (List ℕ) → Result Rejection (Unit {0})
check_values r none = ok tt
check_values r (some raw) = wrap bad_values (validate_inline r raw)

unfoldable pub check_for_each : Text → List Text → Option ForEachSpec → Result Rejection (Unit {0})
check_for_each name step_names none = ok tt
check_for_each name step_names (some each) = do
  guard (has each.from step_names) (for_each_from name each.from)
  guard (not (each.binding == values_key)) (for_each_as name each.binding)

-- `artifact.Revision != "" && !aliasMap[strings.TrimPrefix(artifact.Revision, "@")]`
abbrev pub names_alias : List Text → Text → Bool
names_alias aliases revision = revision == [] || has (trim_prefix revision (text "@")) aliases

module _ (parse_dest : Text → Result Text (Unit {0})) (aliases : List Text) (name : Text) where
  unfoldable pub check_templates : List TemplateSpec → Result Rejection (Unit {0})
  check_templates [] = ok tt
  check_templates (t ∷ ts) = do
    alias ← found (template_source_alias t.from) (template_source name t.from)
    guard (has alias aliases) (template_alias name alias)
    wrap (template_destination name t.to) (validate_dest_template parse_dest t.to)
    check_templates ts

unfoldable pub check_artifact :
    (Text → Result Text (Unit {0}))
    → List Text
    → List Text
    → ManifestArtifact
    → Result Rejection (Unit {0})
unfolding check_templates check_for_each
check_artifact parse_dest aliases step_names a = do
  check_for_each a.name step_names a.for_each
  guard (names_alias aliases a.revision) (revision_alias a.name a.revision)
  guard (names_alias aliases a.origin_revision) (origin_alias a.name a.origin_revision)
  check_templates parse_dest aliases a.name a.templates

-- The loop over spec.artifacts; `seen` are the names so far.
unfoldable pub check_artifacts :
    (Text → Result Text (Unit {0}))
    → List Text
    → List Text
    → List Text
    → List ManifestArtifact
    → Result Rejection (Unit {0})
check_artifacts parse_dest aliases step_names seen [] = ok tt
check_artifacts parse_dest aliases step_names seen (a ∷ artifacts) = do
  guard (not (has a.name seen)) (duplicate_artifact a.name)
  check_artifact parse_dest aliases step_names a
  check_artifacts parse_dest aliases step_names (a.name ∷ seen) artifacts

unfoldable pub check_pipeline :
    Libraries → List PipelineStep → List Text → Result Rejection (List Text)
check_pipeline lib [] aliases = ok []
check_pipeline lib (ps ∷ spec) aliases = do
  steps ← wrap bad_pipeline (compile lib (ps ∷ spec) aliases)
  ok (List.map (λ s. s.name) (ps ∷ spec))

unfoldable pub validate_spec : Validator → ManifestGenerator → Result Rejection (Unit {0})
validate_spec v mg = do
  aliases ← check_sources v.no_cross_namespace_refs mg.namespace mg.spec.sources []
  check_values v.resolver mg.spec.values
  check_values_from v.no_cross_namespace_refs mg.namespace 0 mg.spec.values_from
  step_names ← check_pipeline v.libraries mg.spec.pipeline aliases
  check_artifacts v.parse_dest aliases step_names [] mg.spec.artifacts

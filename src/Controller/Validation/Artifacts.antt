-- ===== src/Controller/Validation/Artifacts.antt =====
-- What a spec that passes the checks of its artifacts has.
use flux_dev.Api.{ForEachSpec, ManifestArtifact, TemplateSpec}
use flux_dev.Base.{
  >>=-eq-ok, All, Bool, List, Option, Option-cases, Result, [], arith, false, found, guard, inl,
  inr, none, not, ok, refl, some, true, wrap, wrap-eq-ok, ◌∷◌, ◌≡◌,
}
use flux_dev.Builder.Reference.{validate_dest_template}
use flux_dev.Builder.Reference.Laws.{template_source_alias-split_source_ref}
use flux_dev.Controller.Validation.{
  Rejection, check_artifact, check_artifacts, check_for_each, check_templates, duplicate_artifact,
  names_alias, origin_alias, revision_alias, template_alias, template_destination, template_source,
  template_source_alias,
}
use flux_dev.Pipeline.Core.{values_key}
use flux_dev.Pipeline.SourceRef.{split_source_ref}
use flux_dev.Pipeline.SourceRef.Laws.{IsSourceRef, split_source_ref_iff}
use flux_dev.Text.{Text, has, ◌==◌}
use flux_dev.Text.Split.{split}

-- A template with a well-formed reference to a declared source and a destination that parses.
abbrev pub IsValidTemplate : (Text → Result Text (Unit {0})) → List Text → TemplateSpec → Type 0
IsValidTemplate parse_dest aliases t =
    ((alias : Text) × (path : Text) × IsSourceRef t.from alias path × (has alias aliases ≡ true))
    × (validate_dest_template parse_dest t.to ≡ ok tt)

abbrev pub IsValidForEach : List Text → Option ForEachSpec → Type 0
IsValidForEach step_names none = Unit {0}
IsValidForEach step_names (some each) =
    (has each.from step_names ≡ true) × ((each.binding == values_key) ≡ false)

abbrev pub IsValidArtifact :
    (Text → Result Text (Unit {0})) → List Text → List Text → ManifestArtifact → Type 0
IsValidArtifact parse_dest aliases step_names a =
    IsValidForEach step_names a.for_each
    × (names_alias aliases a.revision ≡ true)
    × (names_alias aliases a.origin_revision ≡ true)
    × All (IsValidTemplate parse_dest aliases) a.templates

abbrev pub FreshNames : List Text → List ManifestArtifact → Type 0
FreshNames seen [] = Unit {0}
FreshNames seen (a ∷ artifacts) = (has a.name seen ≡ false) × FreshNames (a.name ∷ seen) artifacts

template_alias-IsSourceRef :
    (ref alias : Text)
    → template_source_alias ref ≡ some alias
    → (path : Text) × IsSourceRef ref alias path
template_alias-IsSourceRef ref alias h = elim (Option-cases (split_source_ref ref)) [
  | inl e ↦ absurd (ground (arith, template_source_alias-split_source_ref ref))
  | inr (p, e) ↦ (
    p.1,
    (split_source_ref_iff ref alias p.1).0
        (ground (arith, template_source_alias-split_source_ref ref)),
  )
]

check_templates_ok :
    (parse_dest : Text → Result Text (Unit {0})) (aliases : List Text) (name : Text)
    (ts : List TemplateSpec)
    → check_templates parse_dest aliases name ts ≡ ok tt
    → All (IsValidTemplate parse_dest aliases) ts
unfolding check_templates
check_templates_ok parse_dest aliases name [] h = tt
check_templates_ok parse_dest aliases name (t ∷ ts) h =
    let (alias, ref, h1) =
      >>=-eq-ok (found (template_source_alias t.from) (template_source name t.from)) _ h in
    let (_, known, h2) = >>=-eq-ok (guard (has alias aliases) (template_alias name alias)) _ h1 in
    let (_, dest, h3) =
      >>=-eq-ok (wrap (template_destination name t.to) (validate_dest_template parse_dest t.to)) _
        h2 in
    let (path, split) = template_alias-IsSourceRef t.from alias (ground arith) in
    (
      ((alias, path, split, ground arith), wrap-eq-ok (template_destination name t.to) _ dest),
      check_templates_ok parse_dest aliases name ts h3,
    )

check_for_each_ok :
    (name : Text) (step_names : List Text) (each : Option ForEachSpec)
    → check_for_each name step_names each ≡ ok tt
    → IsValidForEach step_names each
unfolding check_for_each
check_for_each_ok name step_names none h = tt
check_for_each_ok name step_names (some each) h = ground arith

check_artifact_ok :
    (parse_dest : Text → Result Text (Unit {0})) (aliases step_names : List Text)
    (a : ManifestArtifact)
    → check_artifact parse_dest aliases step_names a ≡ ok tt
    → IsValidArtifact parse_dest aliases step_names a
unfolding check_artifact
check_artifact_ok parse_dest aliases step_names a h =
    let (_, each, h1) = >>=-eq-ok (check_for_each a.name step_names a.for_each) _ h in
    let (_, revision, h2) =
      >>=-eq-ok (guard (names_alias aliases a.revision) (revision_alias a.name a.revision)) _ h1 in
    let (_, origin, h3) =
      >>=-eq-ok
        (guard (names_alias aliases a.origin_revision) (origin_alias a.name a.origin_revision)) _
        h2 in
    (
      check_for_each_ok a.name step_names a.for_each each,
      guard_true _ _ revision,
      guard_true _ _ origin,
      check_templates_ok parse_dest aliases a.name a.templates h3,
    )
  where
    guard_true : (b : Bool) (e : Rejection) {u : Unit {0}} → guard b e ≡ ok u → b ≡ true
    guard_true true e h = refl
    guard_true false e h = cc

pub check_artifacts_ok :
    (parse_dest : Text → Result Text (Unit {0})) (aliases step_names seen : List Text)
    (artifacts : List ManifestArtifact)
    → check_artifacts parse_dest aliases step_names seen artifacts ≡ ok tt
    → FreshNames seen artifacts × All (IsValidArtifact parse_dest aliases step_names) artifacts
unfolding check_artifacts
check_artifacts_ok parse_dest aliases step_names seen [] h = (tt, tt)
check_artifacts_ok parse_dest aliases step_names seen (a ∷ artifacts) h =
    let (_, fresh, h1) =
      >>=-eq-ok (guard (not (has a.name seen)) (duplicate_artifact a.name)) _ h in
    let (_, one, h2) = >>=-eq-ok (check_artifact parse_dest aliases step_names a) _ h1 in
    let (new, all) =
      check_artifacts_ok parse_dest aliases step_names (a.name ∷ seen) artifacts h2 in
    ((ground arith, new), (check_artifact_ok parse_dest aliases step_names a one, all))

-- ===== src/Api.antt =====
-- The ManifestGenerator resource: api/v1alpha1/manifestgenerator_types.go. An absent optional
-- string is the empty text, as in Go; a nil pointer is `none`.
use flux_dev.Base.{
  Bool, List, Option, [], drop, eqb, false, if◌then◌else◌, leb, none, some, suc, zero, ℕ, ◌&&◌, ◌*◌,
  ◌+◌, ◌||◌, ◌∷◌,
}
use flux_dev.Dict.{Dict, get}
use flux_dev.Text.{Text, starts_with, text, ◌==◌}

pub record SourceReference : Type 0 where
  pub alias : Text
  pub name : Text
  pub namespace : Text
  pub kind : Text

pub record ValuesReference : Type 0 where
  pub kind : Text
  pub name : Text
  pub namespace : Text
  pub values_key : Text
  pub target_path : Text
  pub optional : Bool

pub record LoadStep : Type 0 where
  pub from : Text
  pub format : Text
  pub shape : Text
  pub key_expr : Text

pub record FilterStep : Type 0 where
  pub from : Text
  pub condition : Text

pub record MapStep : Type 0 where
  pub from : Text
  pub expr : Text

pub record GroupStep : Type 0 where
  pub from : Text
  pub key_expr : Text

pub record MergeStep : Type 0 where
  pub from : List Text

pub record PipelineStep : Type 0 where
  pub name : Text
  pub load : Option LoadStep
  pub filter : Option FilterStep
  pub map : Option MapStep
  pub group : Option GroupStep
  pub merge : Option MergeStep

pub record ForEachSpec : Type 0 where
  pub from : Text
  pub binding : Text

pub record TemplateSpec : Type 0 where
  pub from : Text
  pub to : Text

pub record ManifestArtifact : Type 0 where
  pub name : Text
  pub revision : Text
  pub origin_revision : Text
  pub for_each : Option ForEachSpec
  pub templates : List TemplateSpec

-- `interval` is the positive part of the duration in nanoseconds: the code tells a negative one
-- and zero apart from a positive one only. `values` is the raw JSON.
pub record ManifestGeneratorSpec : Type 0 where
  pub interval : ℕ
  pub suspend : Bool
  pub sources : List SourceReference
  pub values : Option (List ℕ)
  pub values_from : List ValuesReference
  pub pipeline : List PipelineStep
  pub artifacts : List ManifestArtifact

pub record ExternalArtifactReference : Type 0 where
  pub name : Text
  pub namespace : Text
  pub digest : Text
  pub filename : Text

-- The conditions are modelled with the controller.
pub record ManifestGenerator : Type 0 where
  pub name : Text
  pub namespace : Text
  pub annotations : Dict Text
  pub spec : ManifestGeneratorSpec
  pub inventory : List ExternalArtifactReference

abbrev pub load_format_yaml : Text
load_format_yaml = text "yaml"

abbrev pub load_format_json : Text
load_format_json = text "json"

abbrev pub load_format_text : Text
load_format_text = text "text"

abbrev pub load_format_raw : Text
load_format_raw = text "raw"

abbrev pub load_as_list : Text
load_as_list = text "list"

abbrev pub load_as_map : Text
load_as_map = text "map"

-- time.Hour, in nanoseconds.
abbrev hour : ℕ
hour = 3600 * 1000000000

unfoldable pub get_requeue_after : ManifestGenerator → ℕ
get_requeue_after mg = elim mg.spec.interval [ zero ↦ hour | suc n ↦ suc n ]

unfoldable pub holds_artifact : Text → Text → Text → List ExternalArtifactReference → Bool
holds_artifact name namespace digest [] = false
holds_artifact name namespace digest (ref ∷ refs) =
    (ref.name == name && ref.namespace == namespace && ref.digest == digest)
    || holds_artifact name namespace digest refs

-- HasArtifactInInventory
unfoldable pub has_artifact_in_inventory : ManifestGenerator → Text → Text → Text → Bool
unfolding holds_artifact
has_artifact_in_inventory mg name namespace digest =
    holds_artifact name namespace digest mg.inventory

abbrev pub reconcile_annotation : Text
reconcile_annotation = text "manifests.fluxcd.tooling/reconcile"

abbrev pub disabled_value : Text
disabled_value = text "disabled"

-- strings.ToLower, as far as a comparison with an ASCII word tells: beside the ASCII capitals, the
-- dotted capital I (196, 176) and the Kelvin sign (226, 132, 170) are the characters that become an
-- ASCII letter.
unfoldable pub to_lower : Text → Text
to_lower [] = []
to_lower (b ∷ s) =
    let rest = to_lower s in
    if eqb b 196 && starts_with s (176 ∷ [])
    then b'i' ∷ drop 1 rest
    else if eqb b 226 && starts_with s (132 ∷ 170 ∷ [])
    then b'k' ∷ drop 2 rest
    else (if leb b'A' b && leb b b'Z' then b + 32 else b) ∷ rest

-- IsDisabled
unfoldable pub is_disabled : ManifestGenerator → Bool
unfolding to_lower
is_disabled mg = mg.spec.suspend || elim (get reconcile_annotation mg.annotations) [
  | none ↦ false
  | some v ↦ to_lower v == disabled_value
]

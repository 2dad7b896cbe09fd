-- ===== src/Controller/Sources.antt =====
-- Observed sources: observeSources, setArtifactRevisions and hashObservedSources of
-- internal/controller/manifestgenerator_controller.go, and the index keys of
-- manifestgenerator_manager.go.
pub mod Observed
pub mod Laws
use flux_dev.Api.{ManifestArtifact, ManifestGenerator, SourceReference, ValuesReference}
use flux_dev.Base.{
  List, Option, Result, [], found, guard, if◌then◌else◌, none, ok, some, wrap, ◌++◌, ◌>>=◌, ◌>>◌,
  ◌∷◌,
}
use flux_dev.Dict.{Dict, get, put}
use flux_dev.Text.{Text, has, text, trim_prefix, ◌==◌}
use flux_dev.Text.Order.{sort}
use flux_dev.Text.Split.{join}
use flux_dev.Values.{namespace_of}

pub record ObservedSource : Type 0 where
  pub digest : Text
  pub revision : Text
  pub url : Text
  pub origin_revision : Text

-- The artifact of a source object: its metadata may lack the origin annotation.
pub record SourceArtifact : Type 0 where
  pub digest : Text
  pub revision : Text
  pub url : Text
  pub metadata : Dict Text

pub data Error : Type 0 where
  get_failed : Text → Error
  kind_not_supported : Text → Text → Error
  not_ready : Text → Error

abbrev pub origin_annotation : Text
origin_annotation = text "org.opencontainers.image.revision"

abbrev pub source_kinds : List Text
source_kinds =
    text "Bucket"
    ∷ text "GitRepository"
    ∷ text "OCIRepository"
    ∷ text "HelmChart"
    ∷ text "ExternalArtifact"
    ∷ []

-- The client's Get, by kind, namespace and name, with GetArtifact of what it finds.
abbrev pub Cluster : Type 0
Cluster = Text → Text → Text → Result Text (Option SourceArtifact)

abbrev pub get_or_empty : Text → Dict Text → Text
get_or_empty k m = elim (get k m) [ none ↦ [] | some v ↦ v ]

unfoldable pub observe_source : Cluster → Text → SourceReference → Result Error ObservedSource
observe_source cluster own src = do
  guard (has src.kind source_kinds) (kind_not_supported src.name src.kind)
  artifact ← wrap get_failed (cluster src.kind (namespace_of src.namespace own) src.name)
  a ← found artifact (not_ready src.name)
  ok (record {
    digest = a.digest;
    revision = a.revision;
    url = a.url;
    origin_revision = get_or_empty origin_annotation a.metadata;
  })

unfoldable pub observe_from :
    Cluster → Text → List SourceReference → Dict ObservedSource → Result Error (Dict ObservedSource)
unfolding observe_source
observe_from cluster own [] out = ok out
observe_from cluster own (src ∷ srcs) out = do
  os ← observe_source cluster own src
  observe_from cluster own srcs (put src.alias os out)

unfoldable pub observe_sources : Cluster → ManifestGenerator → Result Error (Dict ObservedSource)
observe_sources cluster mg = observe_from cluster mg.namespace mg.spec.sources []

-- The part of an artifact that setArtifactRevisions writes.
pub record ArtifactMeta : Type 0 where
  pub revision : Text
  pub metadata : Dict Text

-- The origin revision of a source, or its revision where it has none.
abbrev pub origin_or_revision : ObservedSource → Text
origin_or_revision rs = if rs.origin_revision == [] then rs.revision else rs.origin_revision

unfoldable pub set_revision : Text → Dict ObservedSource → ArtifactMeta → ArtifactMeta
set_revision revision remote a =
    if revision == [] then a else elim (get (trim_prefix revision (text "@")) remote) [
      | none ↦ a
      | some rs ↦ record a { revision = rs.revision }
    ]

unfoldable pub set_origin : Text → Dict ObservedSource → ArtifactMeta → ArtifactMeta
set_origin origin remote a =
    if origin == [] then a else elim (get (trim_prefix origin (text "@")) remote) [
      | none ↦ a
      | some rs ↦ record a { metadata = put origin_annotation (origin_or_revision rs) a.metadata }
    ]

unfoldable pub set_artifact_revisions :
    ArtifactMeta → ManifestArtifact → Dict ObservedSource → ArtifactMeta
unfolding set_revision set_origin
set_artifact_revisions a spec remote =
    set_origin spec.origin_revision remote (set_revision spec.revision remote a)

-- One line of the digest's input.
unfoldable pub source_line : Text → ObservedSource → Text
source_line alias s =
    alias
    ++ text "=[digest="
    ++ s.digest
    ++ text ",revision="
    ++ s.revision
    ++ text ",url="
    ++ s.url
    ++ text "]"

unfoldable pub source_lines : Dict ObservedSource → List Text
unfolding source_line
source_lines [] = []
source_lines ((alias, s) ∷ sources) = source_line alias s ∷ source_lines sources

-- `sha256` gives the hexadecimal digest of crypto/sha256.
unfoldable pub hash_observed_sources : (Text → Text) → Dict ObservedSource → Text
unfolding source_lines
hash_observed_sources sha256 sources =
    text "sha256:" ++ sha256 (join (sort (source_lines sources)) 10)

-- indexBySourceRef
unfoldable pub source_keys : Text → List SourceReference → List Text
source_keys own [] = []
source_keys own (src ∷ srcs) =
    (src.kind ++ b'/' ∷ namespace_of src.namespace own ++ b'/' ∷ src.name) ∷ source_keys own srcs

unfoldable pub index_by_source_ref : ManifestGenerator → List Text
unfolding source_keys
index_by_source_ref mg = source_keys mg.namespace mg.spec.sources

-- indexByValuesFromRef
unfoldable pub values_keys : Text → List ValuesReference → List Text
values_keys own [] = []
values_keys own (ref ∷ refs) =
    (namespace_of ref.namespace own ++ b'/' ∷ ref.name) ∷ values_keys own refs

unfoldable pub index_by_values_from_ref : ManifestGenerator → List Text
unfolding values_keys
index_by_values_from_ref mg = values_keys mg.namespace mg.spec.values_from

-- ===== src/Controller/Watches.antt =====
-- internal/controller/manifestgenerator_manager.go: which generators are reconciled when a source or
-- a ConfigMap changes.
pub mod Laws
use flux_dev.Api.{ManifestGenerator}
use flux_dev.Base.{Bool, List, Option, Result, [], err, false, none, not, ok, some, true, ◌++◌, ◌∷◌}
use flux_dev.Controller.Sources.{SourceArtifact}
use flux_dev.Text.{Text, text, ◌==◌}
use mathlib.Core.List

-- The client's List with a field selector: an index and a key.
abbrev pub Lister : Type 0
Lister = Text → Text → Result Text (List ManifestGenerator)

abbrev pub source_ref_index_key : Text
source_ref_index_key = text ".metadata.sourceRef"

abbrev pub values_from_ref_index_key : Text
values_from_ref_index_key = text ".metadata.valuesFromRef"

-- A reconcile.Request.
pub record Request : Type 0 where
  pub name : Text
  pub namespace : Text

unfoldable pub requests_of : List ManifestGenerator → List Request
requests_of [] = []
requests_of (mg ∷ mgs) = record { name = mg.name; namespace = mg.namespace } ∷ requests_of mgs

-- The errors of the List are only logged.
abbrev pub listed : Result Text (List ManifestGenerator) → List Request
listed (ok mgs) = requests_of mgs
listed (err message) = []

-- A source as the watch gives it. `kind` is by GroupVersionKindFor.
pub record SourceObject : Type 0 where
  pub kind : Result Text Text
  pub namespace : Text
  pub name : Text
  pub artifact : Option SourceArtifact

-- client.ObjectKeyFromObject(obj).String()
abbrev pub object_key : Text → Text → Text
object_key namespace name = namespace ++ b'/' ∷ name

abbrev pub requests_by_kind : Lister → SourceObject → Result Text Text → List Request
requests_by_kind lister source (err message) = []
requests_by_kind lister source (ok kind) =
    listed (lister source_ref_index_key (kind ++ b'/' ∷ object_key source.namespace source.name))

unfoldable pub requests_for_source_change : Lister → SourceObject → List Request
unfolding requests_of
requests_for_source_change lister source = elim source.artifact [
  | none ↦ []
  | some a ↦ requests_by_kind lister source source.kind
]

unfoldable pub requests_for_config_map_change : Lister → Text → Text → List Request
requests_for_config_map_change lister namespace name =
    listed (lister values_from_ref_index_key (object_key namespace name))

-- The update predicates. An object that is not there, or is no source, is `none`.
abbrev pub revision_moved :
    (SourceArtifact → Text → Bool) → Option SourceArtifact → Option SourceArtifact → Bool
revision_moved has_revision old none = false
revision_moved has_revision none (some new) = true
revision_moved has_revision (some old) (some new) = not (has_revision old new.revision)

unfoldable pub source_change_predicate :
    (SourceArtifact → Text → Bool) → Option SourceObject → Option SourceObject → Bool
source_change_predicate has_revision none new = false
source_change_predicate has_revision (some old) none = false
source_change_predicate has_revision (some old) (some new) =
    revision_moved has_revision old.artifact new.artifact

-- On the resource versions.
unfoldable pub config_map_change_predicate : Option Text → Option Text → Bool
config_map_change_predicate none new = false
config_map_change_predicate (some old) none = false
config_map_change_predicate (some old) (some new) = not (old == new)

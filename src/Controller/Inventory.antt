-- ===== src/Controller/Inventory.antt =====
-- The inventory of published artifacts: findOrphanedReferences and notify of
-- internal/controller/manifestgenerator_controller.go.
pub mod Laws
use flux_dev.Api.{ExternalArtifactReference, ManifestGenerator, has_artifact_in_inventory}
use flux_dev.Base.{List, [], if◌then◌else◌, ◌++◌, ◌∷◌}
use flux_dev.Text.{Text, has}

-- fmt.Sprintf("%s/%s", ref.Namespace, ref.Name)
unfoldable pub ref_key : ExternalArtifactReference → Text
ref_key ref = ref.namespace ++ b'/' ∷ ref.name

unfoldable pub ref_keys : List ExternalArtifactReference → List Text
ref_keys [] = []
ref_keys (ref ∷ refs) = ref_key ref ∷ ref_keys refs

unfoldable pub orphans_of :
    List Text → List ExternalArtifactReference → List ExternalArtifactReference
orphans_of current_set [] = []
orphans_of current_set (ref ∷ inventory) =
    let rest = orphans_of current_set inventory in
    if has (ref_key ref) current_set then rest else ref ∷ rest

unfoldable pub find_orphaned_references :
    List ExternalArtifactReference → List ExternalArtifactReference → List ExternalArtifactReference
unfolding ref_keys orphans_of
find_orphaned_references inventory current = orphans_of (ref_keys current) inventory

-- The references that notify announces.
unfoldable pub changed_references :
    ManifestGenerator → List ExternalArtifactReference → List ExternalArtifactReference
changed_references old [] = []
changed_references old (ref ∷ refs) =
    let rest = changed_references old refs in
    if has_artifact_in_inventory old ref.name ref.namespace ref.digest then rest else ref ∷ rest

-- ===== src/Controller/Inventory/Laws.antt =====
-- Which artifacts of the inventory are deleted as orphans.
use flux_dev.Api.{ExternalArtifactReference}
use flux_dev.Base.{All, Bool, List, [], arith, false, not, refl, true, ◌&&◌, ◌||◌, ◌∷◌, ◌≡◌}
use flux_dev.Controller.Inventory.{find_orphaned_references, orphans_of, ref_key, ref_keys}
use flux_dev.Text.{contains_byte, has, ◌==◌}
use flux_dev.Text.Equality.{eq_comm, eq_iff}
use flux_dev.Text.Split.{drop-append, index_byte-append, take-append}

-- The key of a reference names its namespace and its name.
ref_key-injective :
    (a b : ExternalArtifactReference)
    → contains_byte a.namespace b'/' ≡ false
    → contains_byte b.namespace b'/' ≡ false
    → ref_key a ≡ ref_key b
    → (a.namespace ≡ b.namespace) × (a.name ≡ b.name)
unfolding ref_key
ref_key-injective a b ha hb e = ground (
  arith,
  index_byte-append b'/' a.namespace a.name ha,
  index_byte-append b'/' b.namespace b.name hb,
  take-append a.namespace (b'/' ∷ a.name),
  take-append b.namespace (b'/' ∷ b.name),
  drop-append a.namespace a.name b'/',
  drop-append b.namespace b.name b'/',
  e,
)

abbrev same_artifact : ExternalArtifactReference → ExternalArtifactReference → Bool
same_artifact a b = (a.namespace == b.namespace) && (a.name == b.name)

-- Whether the artifact of this namespace and name is among the references.
abbrev pub lists : ExternalArtifactReference → List ExternalArtifactReference → Bool
lists a [] = false
lists a (b ∷ refs) = same_artifact a b || lists a refs

-- A Kubernetes namespace holds no slash.
abbrev pub IsPlain : ExternalArtifactReference → Type 0
IsPlain a = contains_byte a.namespace b'/' ≡ false

ref_key_cong :
    (a b : ExternalArtifactReference)
    → a.namespace ≡ b.namespace
    → a.name ≡ b.name
    → ref_key a ≡ ref_key b
unfolding ref_key
ref_key_cong a b e f = cc

pub lists_cong :
    (a b : ExternalArtifactReference) (refs : List ExternalArtifactReference)
    → same_artifact a b ≡ true
    → lists a refs ≡ lists b refs
lists_cong a b [] h = refl
lists_cong a b (c ∷ refs) h =
    ground (arith, eq_iff a.namespace b.namespace, eq_iff a.name b.name, lists_cong a b refs h)

ref_key-same_artifact :
    (a b : ExternalArtifactReference)
    → IsPlain a
    → IsPlain b
    → (ref_key a == ref_key b) ≡ same_artifact a b
ref_key-same_artifact a b ha hb = ground (
  arith,
  eq_iff (ref_key a) (ref_key b),
  eq_iff a.namespace b.namespace,
  eq_iff a.name b.name,
  ref_key-injective a b ha hb,
  ref_key_cong a b,
)

has-ref_keys :
    (a : ExternalArtifactReference) (refs : List ExternalArtifactReference)
    → IsPlain a
    → All IsPlain refs
    → has (ref_key a) (ref_keys refs) ≡ lists a refs
unfolding has ref_keys
has-ref_keys a [] h hs = refl
has-ref_keys a (b ∷ refs) h hs = ground (
  arith,
  ref_key-same_artifact a b h hs.0,
  eq_comm (ref_key b) (ref_key a),
  has-ref_keys a refs h hs.1,
)

lists-orphans_of :
    (current inventory : List ExternalArtifactReference) (a : ExternalArtifactReference)
    → All IsPlain current
    → All IsPlain inventory
    → IsPlain a
    → lists a (orphans_of (ref_keys current) inventory)
      ≡ (lists a inventory && not (lists a current))
unfolding orphans_of
lists-orphans_of current [] a hc hi h = refl
lists-orphans_of current (b ∷ inventory) a hc hi h = ground (
  arith,
  lists-orphans_of current inventory a hc hi.1 h,
  has-ref_keys b current hi.0 hc,
  lists_cong a b current,
)

-- An artifact is among the orphans exactly when the inventory lists its namespace and name and the
-- current references do not. No namespace holds a slash.
pub find_orphaned_references_iff :
    (inventory current : List ExternalArtifactReference) (a : ExternalArtifactReference)
    → All IsPlain inventory
    → All IsPlain current
    → IsPlain a
    → lists a (find_orphaned_references inventory current)
      ≡ (lists a inventory && not (lists a current))
unfolding find_orphaned_references
find_orphaned_references_iff inventory current a hi hc h =
    lists-orphans_of current inventory a hc hi h

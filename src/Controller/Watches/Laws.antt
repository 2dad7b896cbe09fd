-- ===== src/Controller/Watches/Laws.antt =====
-- A change reaches exactly the generators that refer to the changed object.
use flux_dev.Api.{ManifestGenerator, SourceReference, ValuesReference}
use flux_dev.Base.{
  All, Bool, List, [], ap, arith, false, if◌then◌else◌, ok, refl, some, ◌&&◌, ◌++◌, ◌||◌, ◌∙◌, ◌∷◌,
  ◌≡◌,
}
use flux_dev.Controller.Sources.{
  SourceArtifact, index_by_source_ref, index_by_values_from_ref, source_keys, values_keys,
}
use flux_dev.Controller.Watches.{
  Lister, SourceObject, listed, object_key, requests_for_config_map_change,
  requests_for_source_change, requests_of, source_ref_index_key, values_from_ref_index_key,
}
use flux_dev.Text.{Text, contains_byte, has, ◌==◌}
use flux_dev.Text.Equality.{eq_iff}
use flux_dev.Text.Split.{drop-append, index_byte-append, take-append}
use flux_dev.Values.{namespace_of}
use mathlib.Core.List.{append_assoc}

abbrev pub those : (ManifestGenerator → Bool) → List ManifestGenerator → List ManifestGenerator
those test [] = []
those test (mg ∷ mgs) = let rest = those test mgs in if test mg then mg ∷ rest else rest

those_cong :
    (f g : ManifestGenerator → Bool) (mgs : List ManifestGenerator)
    → All (λ mg. f mg ≡ g mg) mgs
    → those f mgs ≡ those g mgs
those_cong f g [] h = refl
those_cong f g (mg ∷ mgs) h = rw (h.0, those_cong f g mgs h.1) refl

-- The parts of a key that a slash separates.
slash-injective :
    (a b : Text) {s t : Text}
    → contains_byte a b'/' ≡ false
    → contains_byte b b'/' ≡ false
    → (a ++ b'/' ∷ s) ≡ (b ++ b'/' ∷ t)
    → (a ≡ b) × (s ≡ t)
slash-injective a b {s = s} {t = t} ha hb e = ground (
  arith,
  index_byte-append b'/' a s ha,
  index_byte-append b'/' b t hb,
  take-append a (b'/' ∷ s),
  take-append b (b'/' ∷ t),
  drop-append a s b'/',
  drop-append b t b'/',
  e,
)

slash_cong : (a b s t : Text) → a ≡ b → s ≡ t → (a ++ b'/' ∷ s) ≡ (b ++ b'/' ∷ t)
slash_cong a b s t e f = cc

slash_key :
    (a b s t : Text)
    → contains_byte a b'/' ≡ false
    → contains_byte b b'/' ≡ false
    → ((a ++ b'/' ∷ s) == (b ++ b'/' ∷ t)) ≡ (a == b && s == t)
slash_key a b s t ha hb = ground (
  arith,
  eq_iff (a ++ b'/' ∷ s) (b ++ b'/' ∷ t),
  eq_iff a b,
  eq_iff s t,
  slash-injective a b {s = s} {t = t} ha hb,
  slash_cong a b s t,
)

-- Whether a generator of namespace `own` has this source among its references.
abbrev pub refers_to : Text → Text → Text → Text → List SourceReference → Bool
refers_to own kind namespace name [] = false
refers_to own kind namespace name (src ∷ srcs) =
    (src.kind == kind && (namespace_of src.namespace own == namespace && src.name == name))
    || refers_to own kind namespace name srcs

-- Kinds and namespaces of Kubernetes hold no slash.
abbrev pub HasPlainSources : ManifestGenerator → Type 0
HasPlainSources mg =
    All
      (λ src.
        (contains_byte src.kind b'/' ≡ false)
        × (contains_byte (namespace_of src.namespace mg.namespace) b'/' ≡ false))
      mg.spec.sources

abbrev pub has_source : Text → Text → Text → ManifestGenerator → Bool
has_source kind namespace name mg = refers_to mg.namespace kind namespace name mg.spec.sources

has-source_keys :
    (own kind namespace name : Text) (srcs : List SourceReference)
    → contains_byte kind b'/' ≡ false
    → contains_byte namespace b'/' ≡ false
    → All
        (λ src.
          (contains_byte src.kind b'/' ≡ false)
          × (contains_byte (namespace_of src.namespace own) b'/' ≡ false))
        srcs
    → has (kind ++ b'/' ∷ object_key namespace name) (source_keys own srcs)
      ≡ refers_to own kind namespace name srcs
unfolding source_keys has
has-source_keys own kind namespace name [] k n h = refl
has-source_keys own kind namespace name (src ∷ srcs) k n h =
    let own_key = object_key (namespace_of src.namespace own) src.name in
    let whole = slash_key src.kind kind own_key (object_key namespace name) h.0.0 k in
    let part = slash_key (namespace_of src.namespace own) namespace src.name name h.0.1 n in
    let assoc = append_assoc src.kind (b'/' ∷ namespace_of src.namespace own) (b'/' ∷ src.name) in
    let this =
      ap (λ t. t == (kind ++ b'/' ∷ object_key namespace name)) assoc
      ∙ whole
      ∙ ap (λ b. src.kind == kind && b) part in
    ap (λ b. b || has (kind ++ b'/' ∷ object_key namespace name) (source_keys own srcs)) this
    ∙ ap
        (λ b.
          (src.kind == kind && (namespace_of src.namespace own == namespace && src.name == name))
          || b)
        (has-source_keys own kind namespace name srcs k n h.1)

-- Whether a generator of namespace `own` has this ConfigMap among its references.
abbrev pub reads_from : Text → Text → Text → List ValuesReference → Bool
reads_from own namespace name [] = false
reads_from own namespace name (ref ∷ refs) =
    (namespace_of ref.namespace own == namespace && ref.name == name)
    || reads_from own namespace name refs

abbrev pub HasPlainValues : ManifestGenerator → Type 0
HasPlainValues mg =
    All (λ ref. contains_byte (namespace_of ref.namespace mg.namespace) b'/' ≡ false)
      mg.spec.values_from

abbrev pub has_values : Text → Text → ManifestGenerator → Bool
has_values namespace name mg = reads_from mg.namespace namespace name mg.spec.values_from

has-values_keys :
    (own namespace name : Text) (refs : List ValuesReference)
    → contains_byte namespace b'/' ≡ false
    → All (λ ref. contains_byte (namespace_of ref.namespace own) b'/' ≡ false) refs
    → has (object_key namespace name) (values_keys own refs) ≡ reads_from own namespace name refs
unfolding values_keys has
has-values_keys own namespace name [] n h = refl
has-values_keys own namespace name (ref ∷ refs) n h =
    ap (λ b. b || has (object_key namespace name) (values_keys own refs))
      (slash_key (namespace_of ref.namespace own) namespace ref.name name h.0 n)
    ∙ ap (λ b. (namespace_of ref.namespace own == namespace && ref.name == name) || b)
        (has-values_keys own namespace name refs n h.1)

sources_found :
    (kind namespace name : Text) (mgs : List ManifestGenerator)
    → contains_byte kind b'/' ≡ false
    → contains_byte namespace b'/' ≡ false
    → All HasPlainSources mgs
    → All
        (λ mg.
          has (kind ++ b'/' ∷ object_key namespace name) (index_by_source_ref mg)
          ≡ has_source kind namespace name mg)
        mgs
unfolding index_by_source_ref
sources_found kind namespace name [] k n h = tt
sources_found kind namespace name (mg ∷ mgs) k n h = (
  has-source_keys mg.namespace kind namespace name mg.spec.sources k n h.0,
  sources_found kind namespace name mgs k n h.1,
)

values_found :
    (namespace name : Text) (mgs : List ManifestGenerator)
    → contains_byte namespace b'/' ≡ false
    → All HasPlainValues mgs
    → All
        (λ mg.
          has (object_key namespace name) (index_by_values_from_ref mg)
          ≡ has_values namespace name mg)
        mgs
unfolding index_by_values_from_ref
values_found namespace name [] n h = tt
values_found namespace name (mg ∷ mgs) n h = (
  has-values_keys mg.namespace namespace name mg.spec.values_from n h.0,
  values_found namespace name mgs n h.1,
)

-- A change of a source with an artifact requests exactly the generators whose spec refers to its
-- kind, namespace and name, where the List finds the generators with a key by indexBySourceRef, and
-- no kind or namespace holds a slash.
pub requests_for_source_change_iff :
    (lister : Lister) (mgs : List ManifestGenerator) (source : SourceObject) (kind : Text)
    (a : SourceArtifact)
    → ((key : Text)
        → lister source_ref_index_key key ≡ ok (those (λ mg. has key (index_by_source_ref mg)) mgs))
    → source.artifact ≡ some a
    → source.kind ≡ ok kind
    → contains_byte kind b'/' ≡ false
    → contains_byte source.namespace b'/' ≡ false
    → All HasPlainSources mgs
    → requests_for_source_change lister source
      ≡ requests_of (those (has_source kind source.namespace source.name) mgs)
unfolding requests_for_source_change
requests_for_source_change_iff lister mgs source kind a indexed some_artifact known k n plain =
    rw (some_artifact, known)
      (ap listed (indexed (kind ++ b'/' ∷ object_key source.namespace source.name))
        ∙ ap requests_of (
            those_cong _ (has_source kind source.namespace source.name) mgs
              (sources_found kind source.namespace source.name mgs k n plain)))

-- A change of a ConfigMap requests exactly the generators whose spec.valuesFrom refers to its
-- namespace and name, where the List finds the generators with a key by indexByValuesFromRef, and no
-- namespace holds a slash.
pub requests_for_config_map_change_iff :
    (lister : Lister) (mgs : List ManifestGenerator) (namespace name : Text)
    → ((key : Text)
        → lister values_from_ref_index_key key
          ≡ ok (those (λ mg. has key (index_by_values_from_ref mg)) mgs))
    → contains_byte namespace b'/' ≡ false
    → All HasPlainValues mgs
    → requests_for_config_map_change lister namespace name
      ≡ requests_of (those (has_values namespace name) mgs)
unfolding requests_for_config_map_change
requests_for_config_map_change_iff lister mgs namespace name indexed n plain =
    ap listed (indexed (object_key namespace name))
    ∙ ap requests_of
        (those_cong _ (has_values namespace name) mgs (values_found namespace name mgs n plain))

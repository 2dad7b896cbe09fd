-- ===== src/Values.antt =====
-- internal/values/values.go: the `.values` tree of spec.values and spec.valuesFrom.
pub mod Precedence
pub mod Access
pub mod Place
use flux_dev.Api.{ManifestGenerator, ValuesReference}
use flux_dev.Base.{
  Bool, List, Option, Result, [], err, false, found, if◌then◌else◌, none, not, ok, some, suc, true,
  wrap, ℕ, ◌&&◌, ◌>>=◌, ◌>>◌, ◌∷◌,
}
use flux_dev.Dict.{Dict, get}
use flux_dev.Pipeline.Core.{values_key}
use flux_dev.Text.{Text, has, text, ◌==◌}
use flux_dev.Text.Split.{split}
use flux_dev.Tree.{
  Fields, Value, as_fields, end, entries, field, is_null, map, null, object, string,
}
use flux_dev.Tree.Merge.{merge_fields}

-- A wrapped FetchError is `fetch`, a wrapped AccessError is `access`.
pub data Error : Type 0 where
  fetch : Text → Error
  key_not_found : Text → Error
  access : Text → Text → Error
  unsupported_kind : Text → Error
  decode : Text → Text → Error
  not_an_object empty_segment : Error
  at_reference : ℕ → Error → Error
  at_spec_values : Error → Error

-- errors.As with an AccessError as its target.
abbrev pub is_access : Error → Bool
is_access (at_reference i e) = is_access e
is_access (at_spec_values e) = is_access e
is_access (access namespace name) = true
is_access e = false

-- What the API server answers when an object is not there, and any other failure.
pub data ReadError : Type 0 where
  not_found failed : Text → ReadError

-- The reader gives the `data` of a ConfigMap by namespace and name. `parse_yaml` is
-- sigs.k8s.io/yaml's Unmarshal.
pub record Resolver : Type 0 where
  pub reader : Text → Text → Result ReadError (Dict Text)
  pub no_cross_namespace_refs : Bool
  pub parse_yaml : List ℕ → Result Text Value

-- Whether a dot-separated path has an empty segment.
unfoldable pub validate_target_path : Text → Result Error (Unit {0})
validate_target_path path =
    if path == [] then ok tt else if has [] (split path b'.') then err empty_segment else ok tt

-- The loop that wraps a value from the last segment outwards.
unfoldable pub nest : Text → List Text → Value → Fields
nest part [] value = field part value end
nest part (next ∷ parts) value = field part (map (nest next parts value)) end

unfoldable pub place_at_path : Text → Value → Result Error Fields
place_at_path path value =
    if path == []
    then found (as_fields value) not_an_object
    else if has [] (split path b'.')
    then err empty_segment
    else elim (split path b'.') [
      | [] ↦ err empty_segment
      | part ∷ parts ↦ ok (nest part parts value)
    ]

unfoldable pub strings : Dict Text → Dict Value
strings [] = []
strings ((k, v) ∷ entries) = (k, string v) ∷ strings entries

-- Go's nil result is `null`.
unfoldable pub select_content : Resolver → Dict Text → ValuesReference → Result Error Value
unfolding strings
select_content r content ref = if ref.values_key == [] then ok (object (strings content)) else (do
  raw ← found (get ref.values_key content) (key_not_found ref.values_key)
  wrap (decode ref.values_key) (r.parse_yaml raw))

unfoldable pub decode_inline : Resolver → List ℕ → Result Error (Option Fields)
decode_inline r raw = do
  v ← wrap (decode (text "spec.values")) (r.parse_yaml raw)
  elim v [ null ↦ ok none | map fs ↦ ok (some fs) | _ ↦ err not_an_object ]

unfoldable pub validate_inline : Resolver → List ℕ → Result Error (Unit {0})
validate_inline r [] = ok tt
validate_inline r (b ∷ raw) = do _ ← decode_inline r (b ∷ raw); ok tt

abbrev pub namespace_of : Text → Text → Text
namespace_of namespace own = if namespace == [] then own else namespace

-- The last part of resolveOne, for the selected content.
unfoldable pub place_content : ValuesReference → Value → Result Error (Option Fields)
place_content ref injected =
    if is_null injected && ref.target_path == []
    then ok none
    else (do fs ← place_at_path ref.target_path injected; ok (some fs))

-- What resolveOne does once the ConfigMap is there: an optional reference skips any error of the
-- selection.
unfoldable pub use_content : Resolver → ValuesReference → Dict Text → Result Error (Option Fields)
unfolding place_content
use_content r ref content = elim (select_content r content ref) [
  | err e ↦ if ref.optional then ok none else err e
  | ok injected ↦ place_content ref injected
]

unfoldable pub resolve_one : Resolver → ValuesReference → Text → Result Error (Option Fields)
unfolding use_content
resolve_one r ref own =
    if not (ref.kind == []) && not (ref.kind == text "ConfigMap")
    then err (unsupported_kind ref.kind)
    else if r.no_cross_namespace_refs && not (namespace_of ref.namespace own == own)
    then err (access (namespace_of ref.namespace own) ref.name)
    else elim (r.reader (namespace_of ref.namespace own) ref.name) [
      | err (not_found message) ↦ if ref.optional then ok none else err (fetch message)
      | err (failed message) ↦ err (fetch message)
      | ok content ↦ use_content r ref content
    ]

abbrev pub add_contribution : Fields → Option Fields → Fields
add_contribution out none = out
add_contribution out (some contrib) = merge_fields out contrib

-- The loop over spec.valuesFrom.
unfoldable pub resolve_refs :
    Resolver → Text → ℕ → List ValuesReference → Fields → Result Error Fields
resolve_refs r own i [] out = ok out
resolve_refs r own i (ref ∷ refs) out = do
  contrib ← wrap (at_reference i) (resolve_one r ref own)
  resolve_refs r own (suc i) refs (add_contribution out contrib)

unfoldable pub resolve_inline : Resolver → Option (List ℕ) → Fields → Result Error Fields
resolve_inline r none out = ok out
resolve_inline r (some []) out = ok out
resolve_inline r (some (b ∷ raw)) out = do
  inline ← wrap at_spec_values (decode_inline r (b ∷ raw))
  ok (add_contribution out inline)

unfoldable pub resolve : Resolver → ManifestGenerator → Result Error Fields
unfolding resolve_refs resolve_inline
resolve r mg = do
  out ← resolve_refs r mg.namespace 0 mg.spec.values_from end
  resolve_inline r mg.spec.values out

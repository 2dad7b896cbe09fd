-- ===== src/Examples/Values.antt =====
-- The theorems on the values, at concrete ConfigMaps.
use flux_dev.Api.{ManifestGenerator, ValuesReference}
use flux_dev.Base.{
  All, Result, [], err, false, if◌then◌else◌, ok, refl, some, true, ◌↔◌, ◌∷◌, ◌≡◌, ◌≢◌,
}
use flux_dev.Dict.{Dict, get, keys, put}
use flux_dev.Text.{Text, has, text, ◌==◌}
use flux_dev.Text.Split.{split}
use flux_dev.Tree.{Fields, end, entries, field, fields_of, map, object, string}
use flux_dev.Tree.Merge.{clone_fields, deep_clone, deep_merge, merge_entries, merge_fields}
use flux_dev.Tree.Path.{at, is_silent}
use flux_dev.Tree.Unique.{IsUnique}
use flux_dev.Values.{
  ReadError, Resolver, decode_inline, failed, nest, place_at_path, place_content, resolve,
  resolve_inline, resolve_one, resolve_refs, select_content, use_content, validate_target_path,
}
use flux_dev.Values.Access.{reading, resolve-confined}
use flux_dev.Values.Place.{at-place_at_path, validate_target_path_iff}
use flux_dev.Values.Precedence.{LeavesAlone, resolve-inline_wins, resolve_refs-later_wins}
use flux_dev.Values

-- Every ConfigMap has one key, `k`, that holds the name of the ConfigMap.
abbrev read_name : Text → Text → Result ReadError (Dict Text)
read_name namespace name = ok ((text "k", name) ∷ [])

abbrev read_home : Text → Text → Result ReadError (Dict Text)
read_home namespace name =
    if namespace == text "home"
    then ok ((text "k", name) ∷ [])
    else err (failed (text "unreachable"))

abbrev strings_resolver : Values.Resolver
strings_resolver = record {
  reader = read_name;
  no_cross_namespace_refs = true;
  parse_yaml = λ raw. ok (string raw);
}

abbrev maps_resolver : Values.Resolver
maps_resolver = record {
  reader = read_name;
  no_cross_namespace_refs = true;
  parse_yaml = λ raw. ok (object ((text "a", string raw) ∷ []));
}

abbrev reference : Text → Text → ValuesReference
reference name target_path = record {
  kind = text "ConfigMap";
  name = name;
  namespace = [];
  values_key = text "k";
  target_path = target_path;
  optional = false;
}

abbrev placed : Text → Text → Fields
placed last value = field (text "a") (map (field last (string value) end)) end

abbrev final : Fields
final =
    field (text "a")
      (map (field (text "b") (string (text "two")) (field (text "c") (string (text "three")) end)))
      end

three_resolved :
    resolve_refs strings_resolver
      (text "home")
      0
      (reference (text "one") (text "a.b")
        ∷ reference (text "two") (text "a.b")
        ∷ reference (text "three") (text "a.c")
        ∷ [])
      end
    ≡ ok final
unfolding resolve resolve_refs resolve_one use_content select_content place_content place_at_path
    nest split has ◌==◌ get entries fields_of IsUnique keys is_silent merge_fields merge_entries
    clone_fields deep_merge deep_clone put resolve_inline decode_inline
three_resolved = refl

two_resolved :
    resolve_one strings_resolver (reference (text "two") (text "a.b")) (text "home")
    ≡ ok (some (placed (text "b") (text "two")))
unfolding resolve resolve_refs resolve_one use_content select_content place_content place_at_path
    nest split has ◌==◌ get entries fields_of IsUnique keys is_silent merge_fields merge_entries
    clone_fields deep_merge deep_clone put resolve_inline decode_inline
two_resolved = refl

two-IsUnique : IsUnique (map (placed (text "b") (text "two")))
unfolding IsUnique entries keys has
two-IsUnique = ((refl, tt), (((refl, tt), (tt, tt)), tt))

two_placed :
    at (text "a" ∷ text "b" ∷ []) (map (placed (text "b") (text "two")))
    ≡ some (string (text "two"))
unfolding at get entries ◌==◌
two_placed = refl

three_quiet :
    All
      (LeavesAlone strings_resolver (text "home") (text "a" ∷ text "b" ∷ []))
      (reference (text "three") (text "a.c") ∷ [])
unfolding resolve resolve_refs resolve_one use_content select_content place_content place_at_path
    nest split has ◌==◌ get entries fields_of IsUnique keys is_silent merge_fields merge_entries
    clone_fields deep_merge deep_clone put resolve_inline decode_inline
three_quiet = ((((refl, tt), (((refl, tt), (tt, tt)), tt)), refl), tt)

resolve_refs-later_wins_example :
    at (text "a" ∷ text "b" ∷ []) (map final) ≡ some (string (text "two"))
resolve_refs-later_wins_example =
    resolve_refs-later_wins strings_resolver (text "home") (text "a" ∷ text "b" ∷ []) 0
      (reference (text "one") (text "a.b") ∷ []) (reference (text "three") (text "a.c") ∷ [])
      (reference (text "two") (text "a.b")) end (placed (text "b") (text "two")) final
      (string (text "two")) three_resolved two_resolved two-IsUnique refl two_placed three_quiet

abbrev generator : ManifestGenerator
generator = record {
  name = text "mg";
  namespace = text "home";
  annotations = [];
  spec = record {
    interval = 0;
    suspend = false;
    sources = [];
    values = some (text "inline");
    values_from = reference (text "one") [] ∷ [];
    pipeline = [];
    artifacts = [];
  };
  inventory = [];
}

abbrev inline_tree : Fields
inline_tree = field (text "a") (string (text "inline")) end

generator_resolved : resolve maps_resolver generator ≡ ok inline_tree
unfolding resolve resolve_refs resolve_one use_content select_content place_content place_at_path
    nest split has ◌==◌ get entries fields_of IsUnique keys is_silent merge_fields merge_entries
    clone_fields deep_merge deep_clone put resolve_inline decode_inline
generator_resolved = refl

inline-IsUnique : IsUnique (map inline_tree)
unfolding IsUnique entries keys has
inline-IsUnique = ((refl, tt), (tt, tt))

inline_at_a : at (text "a" ∷ []) (map inline_tree) ≡ some (string (text "inline"))
unfolding at get entries ◌==◌
inline_at_a = refl

inline_parsed : maps_resolver.parse_yaml (text "inline") ≡ ok (map inline_tree)
unfolding fields_of
inline_parsed = refl

resolve-inline_wins_example : at (text "a" ∷ []) (map inline_tree) ≡ some (string (text "inline"))
resolve-inline_wins_example =
    resolve-inline_wins maps_resolver generator b'i' (text "nline") inline_tree inline_tree
      (text "a" ∷ []) (string (text "inline")) refl inline_parsed inline-IsUnique refl inline_at_a
      generator_resolved

home_agrees : (name : Text) → read_name (text "home") name ≡ read_home (text "home") name
unfolding ◌==◌
home_agrees name = refl

resolve-confined_example :
    resolve (reading strings_resolver read_name) generator
    ≡ resolve (reading strings_resolver read_home) generator
resolve-confined_example =
    resolve-confined strings_resolver read_name read_home generator refl home_agrees

path_is_not_empty : text "a.b" ≢ []
path_is_not_empty = cc

value_placed : place_at_path (text "a.b") (string (text "x")) ≡ ok (placed (text "b") (text "x"))
unfolding resolve resolve_refs resolve_one use_content select_content place_content place_at_path
    nest split has ◌==◌ get entries fields_of IsUnique keys is_silent merge_fields merge_entries
    clone_fields deep_merge deep_clone put resolve_inline decode_inline
value_placed = refl

at-place_at_path_example :
    at (split (text "a.b") b'.') (map (placed (text "b") (text "x"))) ≡ some (string (text "x"))
at-place_at_path_example =
    at-place_at_path (text "a.b") (string (text "x")) (placed (text "b") (text "x"))
      path_is_not_empty value_placed

validate_target_path_iff_example :
    (validate_target_path (text "a.b") ≡ ok tt)
    ↔ ((fs : Fields) × (place_at_path (text "a.b") (string (text "x")) ≡ ok fs))
validate_target_path_iff_example =
    validate_target_path_iff (text "a.b") (string (text "x")) path_is_not_empty

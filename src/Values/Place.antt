-- ===== src/Values/Place.antt =====
-- Target paths: where a value is placed, and which paths are accepted.
use flux_dev.Base.{
  Bool-cases, List, Result, [], arith, err, false, found, if◌then◌else◌, inl, inr, ok, refl, some,
  sym, ◌↔◌, ◌∙◌, ◌∷◌, ◌≡◌, ◌≢◌,
}
use flux_dev.Dict.{get, keys}
use flux_dev.Text.{Text, has, ◌==◌}
use flux_dev.Text.Equality.{eq_iff, eq_refl}
use flux_dev.Text.Split.{split, split-ne-nil}
use flux_dev.Tree.{Fields, Value, as_fields, entries, map}
use flux_dev.Tree.Path.{at}
use flux_dev.Tree.Unique.{IsUnique}
use flux_dev.Values.{Error, empty_segment, nest, not_an_object, place_at_path, validate_target_path}
use mathlib.Core.Path.{subst}

at-nest :
    (part : Text) (parts : List Text) (v : Value)
    → at (part ∷ parts) (map (nest part parts v)) ≡ some v
unfolding at nest get entries
at-nest part [] v = ground (arith, eq_refl part)
at-nest part (next ∷ parts) v = ground (arith, eq_refl part, at-nest next parts v)

-- What place_at_path computes from a path's segments.
abbrev place_parts : List Text → Value → Result Error Fields
place_parts parts value =
    if has [] parts
    then err empty_segment
    else elim parts [ [] ↦ err empty_segment | part ∷ parts ↦ ok (nest part parts value) ]

place_at_path-parts :
    (path : Text) (v : Value) → path ≢ [] → place_at_path path v ≡ place_parts (split path b'.') v
unfolding place_at_path
place_at_path-parts path v p = ground (arith, eq_iff path [])

at-place_parts :
    (parts : List Text) (v : Value) (fs : Fields)
    → place_parts parts v ≡ ok fs
    → at parts (map fs) ≡ some v
at-place_parts [] v fs h = ground arith
at-place_parts (part ∷ parts) v fs h = ground (arith, at-nest part parts v)

-- A value placed at a path that is not empty stands there: the segments of the path lead to it.
pub at-place_at_path :
    (path : Text) (v : Value) (fs : Fields)
    → path ≢ []
    → place_at_path path v ≡ ok fs
    → at (split path b'.') (map fs) ≡ some v
at-place_at_path path v fs p h =
    at-place_parts (split path b'.') v fs (sym (place_at_path-parts path v p) ∙ h)

place_parts-ok :
    (parts : List Text) (v : Value)
    → has [] parts ≡ false
    → parts ≢ []
    → (fs : Fields) × (place_parts parts v ≡ ok fs)
place_parts-ok [] v h p = absurd (p refl)
place_parts-ok (part ∷ parts) v h p = (nest part parts v, ground arith)

-- The validator accepts exactly the paths, other than the empty one, at which the resolver can
-- place a value.
pub validate_target_path_iff :
    (path : Text) (v : Value)
    → path ≢ []
    → (validate_target_path path ≡ ok tt) ↔ ((fs : Fields) × (place_at_path path v ≡ ok fs))
unfolding place_at_path validate_target_path
validate_target_path_iff path v p = elim (Bool-cases (has [] (split path b'.'))) [
  | inl empty ↦ (
    λ h. absurd (ground (arith, eq_iff path [])),
    λ placed. absurd (ground (arith, eq_iff path [])),
  )
  | inr full ↦ (
    λ h.
        let (fs, e) = place_parts-ok (split path b'.') v full (split-ne-nil path b'.') in
        (fs, place_at_path-parts path v p ∙ e),
    λ placed. ground (arith, eq_iff path []),
  )
]

nest-IsUnique :
    (part : Text) (parts : List Text) (v : Value) → IsUnique v → IsUnique (map (nest part parts v))
unfolding IsUnique nest entries keys has
nest-IsUnique part [] v u = ((refl, tt), (u, tt))
nest-IsUnique part (next ∷ parts) v u = ((refl, tt), (nest-IsUnique next parts v u, tt))

place_parts-IsUnique :
    (parts : List Text) (v : Value) (fs : Fields)
    → IsUnique v
    → place_parts parts v ≡ ok fs
    → IsUnique (map fs)
place_parts-IsUnique [] v fs u h = absurd (ground arith)
place_parts-IsUnique (part ∷ parts) v fs u h =
    subst (λ w. IsUnique (map w)) (ground arith) (nest-IsUnique part parts v u)

placed_whole : (v : Value) (fs : Fields) → found (as_fields v) not_an_object ≡ ok fs → v ≡ map fs
placed_whole v fs h = ground arith

pub place_at_path-IsUnique :
    (path : Text) (v : Value) (fs : Fields)
    → IsUnique v
    → place_at_path path v ≡ ok fs
    → IsUnique (map fs)
unfolding place_at_path
place_at_path-IsUnique path v fs u h = elim (Bool-cases (path == [])) [
  | inl empty ↦ subst IsUnique (placed_whole v fs (ground arith)) u
  | inr full ↦
      place_parts-IsUnique (split path b'.') v fs u
        (sym (place_at_path-parts path v (λ e. absurd (ground (arith, eq_iff path [])))) ∙ h)
]

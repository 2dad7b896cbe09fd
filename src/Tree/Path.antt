-- ===== src/Tree/Path.antt =====
-- Reading a tree at a path of keys, and what deepMerge leaves at a path.
use flux_dev.Base.{
  ◌≡◌, refl, sym, ap, Bool, true, false, Option, none, some, List, [], ◌∷◌, arith, inl, inr,
  Option-cases,
}
use flux_dev.Text.{Text, Distinct}
use flux_dev.Dict.{get, keys}
use flux_dev.Tree.{Value, map, Fields, entries, fields_of, entries-fields_of, as_fields}
use flux_dev.Tree.Merge.{clone_fields, deep_merge, merge_entries}
use flux_dev.Tree.Merge.Laws.{clone_fields_lem, deep_clone_lem, merged, get-merge_entries}
use flux_dev.Tree.Unique.{IsUnique, get-IsUnique}

-- The tree that stands at a path of keys.
unfoldable pub at : List Text → Value → Option Value
at [] v = some v
at (k ∷ path) (map fs) = elim (get k (entries fs)) [ none ↦ none | some w ↦ at path w ]
at (k ∷ path) v = none

-- Nothing in the tree decides what stands at the path: a map on the way lacks the next key.
unfoldable pub is_silent : List Text → Value → Bool
is_silent [] v = false
is_silent (k ∷ path) (map fs) = elim (get k (entries fs)) [
  | none ↦ true
  | some w ↦ is_silent path w
]
is_silent (k ∷ path) v = false

-- Two maps merged, at a key.
get_in_merge :
    (k : Text) (am bm : Fields)
    → Distinct (keys (entries bm))
    → get k (entries (fields_of (merge_entries (entries (clone_fields am)) bm)))
      ≡ merged (get k (entries am)) (get k (entries bm))
get_in_merge k am bm d =
    rw (entries-fields_of, clone_fields_lem am) (get-merge_entries k (entries am) bm d)

merge_of_scalar : (a v : Value) → as_fields v ≡ none → deep_merge a v ≡ v
unfolding deep_merge
merge_of_scalar a (map fs) n = cc
merge_of_scalar a v n = deep_clone_lem v

merge_into_scalar : (a : Value) (bm : Fields) → as_fields a ≡ none → deep_merge a (map bm) ≡ map bm
unfolding deep_merge
merge_into_scalar a bm n = rw (n, deep_merge) (ap map (clone_fields_lem bm))

merge_maps :
    (a : Value) (am bm : Fields)
    → as_fields a ≡ some am
    → deep_merge a (map bm) ≡ map (fields_of (merge_entries (entries (clone_fields am)) bm))
unfolding deep_merge
merge_maps a am bm n = rw (n, deep_merge)

map_of_as_fields : (a : Value) (am : Fields) → as_fields a ≡ some am → a ≡ map am
map_of_as_fields (map fs) am n = ground arith
map_of_as_fields a am n = cc

-- `at` below a key that may be missing.
abbrev below : List Text → Option Value → Option Value
below path none = none
below path (some w) = at path w

at-map :
    (k : Text) (path : List Text) (fs : Fields)
    → at (k ∷ path) (map fs) ≡ below path (get k (entries fs))
unfolding at
at-map k path fs = ground arith

-- A path through a merge of maps goes through what is merged at its first key.
at-merge_maps :
    (k : Text) (path : List Text) (a : Value) (am bm : Fields)
    → as_fields a ≡ some am
    → Distinct (keys (entries bm))
    → at (k ∷ path) (deep_merge a (map bm))
      ≡ below path (merged (get k (entries am)) (get k (entries bm)))
at-merge_maps k path a am bm both d = rw (merge_maps a am bm both, at-map, get_in_merge k am bm d)

at_scalar : (k : Text) (path : List Text) (a : Value) → as_fields a ≡ none → at (k ∷ path) a ≡ none
unfolding at
at_scalar k path (map fs) h = cc
at_scalar k path a h = refl

module _ (path : List Text) (v : Value) where
  below_override :
      (old new : Option Value)
      → ((c w : Value) → IsUnique w → at path w ≡ some v → at path (deep_merge c w) ≡ some v)
      → ((w : Value) → new ≡ some w → IsUnique w)
      → below path new ≡ some v
      → below path (merged old new) ≡ some v
  below_override old none ih u h = cc
  below_override none (some w) ih u h = h
  below_override (some c) (some w) ih u h = ih c w (u w refl) h

-- What the later tree holds at a path, unless it is a map, is what the merge holds there. Every
-- map of the later tree has distinct keys.
pub deep_merge_override :
    (path : List Text) (a b v : Value)
    → IsUnique b
    → as_fields v ≡ none
    → at path b ≡ some v
    → at path (deep_merge a b) ≡ some v
unfolding at
deep_merge_override [] a b v u n e = ground (arith, merge_of_scalar a b)
deep_merge_override (k ∷ path) a (map bm) v u n e = elim (Option-cases (as_fields a)) [
  | inl scalar ↦ rw (merge_into_scalar a bm scalar) e
  | inr (am, both) ↦ rw (at-merge_maps k path a am bm both (unfold IsUnique in u.0)) (
      below_override path v (get k (entries am)) (get k (entries bm))
        (λ c w uw h. deep_merge_override path c w v uw n h)
        (λ w g. get-IsUnique k bm (unfold IsUnique in u.1) g) (rw (← at-map k path bm) e))
]
deep_merge_override (k ∷ path) a b v u n e = cc

at-is_silent : (path : List Text) (b : Value) → is_silent path b ≡ true → at path b ≡ none
unfolding at is_silent
at-is_silent [] b h = cc
at-is_silent (k ∷ path) (map bm) h = elim (Option-cases (get k (entries bm))) [
  | inl e ↦ ground arith
  | inr (w, e) ↦ ground (arith, at-is_silent path w)
]
at-is_silent (k ∷ path) b h = refl

module _ (path : List Text) where
  abbrev silent_below : Option Value → Bool
  silent_below none = true
  silent_below (some w) = is_silent path w

  below_inherit :
      (old new : Option Value)
      → ((c w : Value)
          → IsUnique w
          → is_silent path w ≡ true
          → at path (deep_merge c w) ≡ at path c)
      → ((w : Value) → new ≡ some w → IsUnique w)
      → silent_below new ≡ true
      → below path (merged old new) ≡ below path old
  below_inherit old none ih u h = refl
  below_inherit none (some w) ih u h = at-is_silent path w h
  below_inherit (some c) (some w) ih u h = ih c w (u w refl) h

-- Where the later tree is silent at a path (a map on the way lacks the next key), the merge holds
-- there what the earlier tree holds. Every map of the later tree has distinct keys.
pub deep_merge_inherit :
    (path : List Text) (a b : Value)
    → IsUnique b
    → is_silent path b ≡ true
    → at path (deep_merge a b) ≡ at path a
unfolding is_silent
deep_merge_inherit [] a b u h = cc
deep_merge_inherit (k ∷ path) a (map bm) u h = elim (Option-cases (as_fields a)) [
  | inl scalar ↦
      rw (merge_into_scalar a bm scalar, at-is_silent (k ∷ path) (map bm) h)
        (sym (at_scalar k path a scalar))
  | inr (am, both) ↦
      rw
        (
          at-merge_maps k path a am bm both (unfold IsUnique in u.0),
          map_of_as_fields a am both,
          at-map,
        )
        (below_inherit path (get k (entries am)) (get k (entries bm))
          (λ c w uw s. deep_merge_inherit path c w uw s)
          (λ w g. get-IsUnique k bm (unfold IsUnique in u.1) g) (ground arith))
]
deep_merge_inherit (k ∷ path) a b u h = cc

-- ===== src/Tree/Merge.antt =====
-- deepMerge and deepClone: internal/pipeline/merge.go, and word for word internal/values/values.go.
-- The copies that the source makes are equal trees here, since these trees are never written to.
pub mod Laws
use flux_dev.Base.{◌≡◌, refl, Bool, Option, none, some, List, [], ◌∷◌}
use flux_dev.Text.{Text}
use flux_dev.Dict.{Dict, get, put}
use flux_dev.Tree.{
  Value, null, bool, int, float, string, bytes, list, map, Items, nil, cons, Fields, end, field,
  entries, fields_of, as_fields,
}

unfoldable mutual
  pub deep_clone : Value → Value
  deep_clone (map fs) = map (clone_fields fs)
  deep_clone (list vs) = list (clone_items vs)
  deep_clone v = v

  pub clone_items : Items → Items
  clone_items nil = nil
  clone_items (cons v vs) = cons (deep_clone v) (clone_items vs)

  pub clone_fields : Fields → Fields
  clone_fields end = end
  clone_fields (field k v fs) = field k (deep_clone v) (clone_fields fs)

-- `merge_entries out bm` is the second loop of deepMerge, over what is left of `bm`.
unfoldable mutual
  pub deep_merge : Value → Value → Value
  deep_merge a (map bm) = elim (as_fields a) [
    | some am ↦ map (fields_of (merge_entries (entries (clone_fields am)) bm))
    | none ↦ map (clone_fields bm)
  ]
  deep_merge a b = deep_clone b

  pub merge_entries : Dict Value → Fields → Dict Value
  merge_entries out end = out
  merge_entries out (field k v bm) =
      merge_entries
        (elim (get k out) [
          | some cur ↦ put k (deep_merge cur v) out
          | none ↦ put k (deep_clone v) out
        ])
        bm

-- deepMerge of two maps, as the map that it is.
unfoldable pub merge_fields : Fields → Fields → Fields
merge_fields am bm = fields_of (merge_entries (entries (clone_fields am)) bm)

-- ===== src/Tree/Unique.antt =====
-- A tree whose maps name each key once, as every Go map does, and what deepMerge does with it.
use mathlib.Core.Path.{subst}
use flux_dev.Base.{Bool-cases, ◌≡◌, refl, ap, ◌∙◌, false, some, ◌∷◌, arith, inl, inr}
use flux_dev.Text.{Text, ◌==◌, has, Distinct}
use flux_dev.Text.Equality.{eq_iff, eq_refl}
use flux_dev.Dict.{Dict, get, keys, put-get}
use flux_dev.Tree.{
  Value, null, list, map, Items, nil, cons, Fields, end, field, entries, fields_of,
  fields_of-entries,
}
use flux_dev.Tree.Merge.{deep_clone, deep_merge, merge_entries}
use flux_dev.Tree.Merge.Laws.{clone_fields_lem, deep_clone_lem}

unfoldable mutual
  pub IsUnique : Value → Type 0
  IsUnique (map fs) = Distinct (keys (entries fs)) × AllUnique fs
  IsUnique (list vs) = AllUniqueItems vs
  IsUnique v = Unit {0}

  pub AllUniqueItems : Items → Type 0
  AllUniqueItems nil = Unit {0}
  AllUniqueItems (cons v vs) = IsUnique v × AllUniqueItems vs

  pub AllUnique : Fields → Type 0
  AllUnique end = Unit {0}
  AllUnique (field k v fs) = IsUnique v × AllUnique fs

pub get-IsUnique :
    (k : Text) (fs : Fields) {v : Value} → AllUnique fs → get k (entries fs) ≡ some v → IsUnique v
unfolding IsUnique get entries
get-IsUnique k end h e = cc
get-IsUnique k (field j w fs) h e = elim (Bool-cases (j == k)) [
  | inl here ↦ subst IsUnique (ground arith) h.0
  | inr other ↦ get-IsUnique k fs h.1 (ground arith)
]

-- Every entry of `bm` stands in `out`.
abbrev Holds : Dict Value → Fields → Type 0
Holds out end = Unit {0}
Holds out (field k v bm) = (get k out ≡ some v) × Holds out bm

Holds-field :
    (k : Text) (v : Value) (out : Dict Value) (bm : Fields)
    → has k (keys (entries bm)) ≡ false
    → Holds out bm
    → Holds ((k, v) ∷ out) bm
unfolding get has keys entries
Holds-field k v out end n h = tt
Holds-field k v out (field j w bm) n h =
    (ground (arith, eq_iff k j, eq_iff j k), Holds-field k v out bm (ground arith) h.1)

Holds-self : (bm : Fields) → Distinct (keys (entries bm)) → Holds (entries bm) bm
unfolding get has keys entries
Holds-self end d = tt
Holds-self (field k v bm) d =
    (ground (arith, eq_refl k), Holds-field k v (entries bm) bm d.0 (Holds-self bm d.1))

mutual
  unfolding deep_merge deep_clone IsUnique

  merge_self : (v : Value) → IsUnique v → deep_merge v v ≡ v
  merge_self (map fs) u = ap map (
      ap fields_of (rw clone_fields_lem (merge_held fs (entries fs) (Holds-self fs u.0) u.1))
      ∙ fields_of-entries fs)
  merge_self (list vs) u = deep_clone_lem (list vs)
  merge_self null u = refl
  merge_self v u = refl

  merge_held :
      (bm : Fields) (out : Dict Value) → Holds out bm → AllUnique bm → merge_entries out bm ≡ out
  merge_held end out h u = refl
  merge_held (field k v bm) out h u =
      ground (arith, h.0, merge_self v u.0, put-get k v out h.0, merge_held bm out h.1 u.1)

-- Merging a tree, whose maps have distinct keys, into itself changes nothing.
pub deep_merge_idem : (v : Value) → IsUnique v → deep_merge v v ≡ v
deep_merge_idem v u = merge_self v u

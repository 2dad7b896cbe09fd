-- ===== src/Tree/Merge/Laws.antt =====
-- What deepMerge and deepClone return, key by key and path by path.
use flux_dev.Base.{◌≡◌, refl, ap, Option, none, some, arith, if◌then◌else◌, inl, inr, Option-cases}
use flux_dev.Text.{Text, ◌==◌, Distinct}
use flux_dev.Text.Equality.{eq_iff}
use flux_dev.Dict.{Dict, get, put, keys, get-put, has-keys, keys-put-Distinct}
use flux_dev.Tree.{
  Value, null, list, map, Items, nil, cons, Fields, end, field, entries, fields_of,
  entries-fields_of,
}
use flux_dev.Tree.Merge.{deep_clone, clone_items, clone_fields, deep_merge, merge_entries}

mutual
  unfolding deep_clone

  clone_eq : (v : Value) → deep_clone v ≡ v
  clone_eq (map fs) = ap map (clone_fields_eq fs)
  clone_eq (list vs) = ap list (clone_items_eq vs)
  clone_eq null = refl
  clone_eq v = refl

  clone_items_eq : (vs : Items) → clone_items vs ≡ vs
  clone_items_eq nil = refl
  clone_items_eq (cons v vs) = cc (clone_eq v, clone_items_eq vs)

  clone_fields_eq : (fs : Fields) → clone_fields fs ≡ fs
  clone_fields_eq end = refl
  clone_fields_eq (field k v fs) = cc (clone_eq v, clone_fields_eq fs)

-- A deep clone is an equal tree.
pub deep_clone_lem : (v : Value) → deep_clone v ≡ v
deep_clone_lem v = clone_eq v

pub clone_fields_lem : (fs : Fields) → clone_fields fs ≡ fs
clone_fields_lem fs = clone_fields_eq fs

-- What the merge holds at a key, from what its two sides hold there.
abbrev pub merged : Option Value → Option Value → Option Value
merged old none = old
merged none (some v) = some v
merged (some cur) (some v) = some (deep_merge cur v)

abbrev pub step : Text → Value → Dict Value → Dict Value
step k v out = elim (get k out) [
  | some cur ↦ put k (deep_merge cur v) out
  | none ↦ put k (deep_clone v) out
]

get-step :
    (k j : Text) (v : Value) (out : Dict Value)
    → get j (step k v out) ≡ (if k == j then merged (get k out) (some v) else get j out)
get-step k j v out = elim (Option-cases (get k out)) [
  | inl e ↦ ground (arith, get-put k j (deep_clone v) out, deep_clone_lem v)
  | inr (cur, e) ↦ ground (arith, get-put k j (deep_merge cur v) out)
]

pub get-merge_entries :
    (k : Text) (out : Dict Value) (bm : Fields)
    → Distinct (keys (entries bm))
    → get k (merge_entries out bm) ≡ merged (get k out) (get k (entries bm))
unfolding merge_entries entries keys get
get-merge_entries k out end d = refl
get-merge_entries k out (field j v bm) d = ground (
  arith,
  get-merge_entries k (step j v out) bm d.1,
  get-step j k v out,
  eq_iff j k,
  has-keys j (entries bm) d.0,
)

-- The merge of two maps, where the later one has distinct keys, is a map that holds at every key
-- the merge of what the two hold there: the later side wins, a key of one side alone is kept, and
-- two values under one key are merged in turn.
pub get-deep_merge :
    (k : Text) (am bm : Fields)
    → Distinct (keys (entries bm))
    → (rm : Fields) × (deep_merge (map am) (map bm) ≡ map rm)
      × (get k (entries rm) ≡ merged (get k (entries am)) (get k (entries bm)))
unfolding deep_merge
get-deep_merge k am bm d = (
  fields_of (merge_entries (entries (clone_fields am)) bm),
  refl,
  rw (entries-fields_of, clone_fields_lem am) (get-merge_entries k (entries am) bm d),
)

pub step-Distinct :
    (k : Text) (v : Value) (out : Dict Value) → Distinct (keys out) → Distinct (keys (step k v out))
step-Distinct k v out d = elim (Option-cases (get k out)) [
  | inl e ↦ ground (arith, keys-put-Distinct k (deep_clone v) out d)
  | inr (cur, e) ↦ ground (arith, keys-put-Distinct k (deep_merge cur v) out d)
]

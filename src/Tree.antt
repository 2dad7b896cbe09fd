-- ===== src/Tree.antt =====
-- The trees that the YAML and JSON decoders return (Go's `any`): what the pipeline, the values
-- and the templates pass around. A list and a map of trees are types of the same block; `items`
-- and `entries` read them as a List and a Dict, `items_of` and `fields_of` build them.
pub mod Merge
pub mod Unique
pub mod Path
use flux_dev.Base.{true, false, ℕ, ◌≡◌, refl, Bool, Option, none, some, List, [], ◌∷◌}
use flux_dev.Text.{Text}
use flux_dev.Dict.{Dict}

mutual
  -- `float` holds a float64 by its bit pattern, `int` a Go int, `bytes` a []byte.
  pub data Value : Type 0 where
    null : Value
    bool : Bool → Value
    int : ℕ → Value
    float : ℕ → Value
    string : Text → Value
    bytes : List ℕ → Value
    list : Items → Value
    map : Fields → Value

  pub data Items : Type 0 where
    nil : Items
    cons : Value → Items → Items

  pub data Fields : Type 0 where
    end : Fields
    field : Text → Value → Fields → Fields

unfoldable pub items : Items → List Value
items nil = []
items (cons v vs) = v ∷ items vs

unfoldable pub items_of : List Value → Items
items_of [] = nil
items_of (v ∷ vs) = cons v (items_of vs)

unfoldable pub entries : Fields → Dict Value
entries end = []
entries (field k v fs) = (k, v) ∷ entries fs

unfoldable pub fields_of : Dict Value → Fields
fields_of [] = end
fields_of ((k, v) ∷ m) = field k v (fields_of m)

pub items-items_of : (vs : List Value) → items (items_of vs) ≡ vs
unfolding items items_of
items-items_of [] = refl
items-items_of (v ∷ vs) = rw (items-items_of vs)

pub items_of-items : (vs : Items) → items_of (items vs) ≡ vs
unfolding items items_of
items_of-items nil = refl
items_of-items (cons v vs) = rw (items_of-items vs)

pub entries-fields_of : (m : Dict Value) → entries (fields_of m) ≡ m
unfolding entries fields_of
entries-fields_of [] = refl
entries-fields_of ((k, v) ∷ m) = rw (entries-fields_of m)

pub fields_of-entries : (fs : Fields) → fields_of (entries fs) ≡ fs
unfolding entries fields_of
fields_of-entries end = refl
fields_of-entries (field k v fs) = rw (fields_of-entries fs)

-- An object literal.
abbrev pub object : Dict Value → Value
object m = map (fields_of m)

-- `v.(map[string]any)`
abbrev pub as_fields : Value → Option Fields
as_fields (map fs) = some fs
as_fields _ = none

-- `v.([]any)`
abbrev pub as_list : Value → Option (List Value)
as_list (list vs) = some (items vs)
as_list _ = none

-- `v == nil`
abbrev pub is_null : Value → Bool
is_null null = true
is_null _ = false

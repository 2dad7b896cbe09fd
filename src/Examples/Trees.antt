-- ===== src/Examples/Trees.antt =====
-- The theorems on merging, at concrete trees.
use flux_dev.Base.{[], refl, some, true, ◌∷◌, ◌≡◌}
use flux_dev.Dict.{get, keys}
use flux_dev.Text.{Distinct, has, text, ◌==◌}
use flux_dev.Tree.{Fields, end, entries, field, int, map}
use flux_dev.Tree.Merge.{deep_merge}
use flux_dev.Tree.Merge.Laws.{get-deep_merge, merged}
use flux_dev.Tree.Path.{at, deep_merge_inherit, deep_merge_override, is_silent}
use flux_dev.Tree.Unique.{IsUnique}

abbrev old_tree : Fields
old_tree = field (text "a") (map (field (text "x") (int 1) end)) (field (text "b") (int 2) end)

abbrev new_tree : Fields
new_tree = field (text "a") (map (field (text "y") (int 3) end)) end

new_tree-keys : Distinct (keys (entries new_tree))
unfolding entries keys has
new_tree-keys = (refl, tt)

new_tree-IsUnique : IsUnique (map new_tree)
unfolding IsUnique entries keys has
new_tree-IsUnique = ((refl, tt), (((refl, tt), (tt, tt)), tt))

get-deep_merge_example :
    (rm : Fields) × (deep_merge (map old_tree) (map new_tree) ≡ map rm)
    × (get (text "a") (entries rm)
        ≡ merged (get (text "a") (entries old_tree)) (get (text "a") (entries new_tree)))
get-deep_merge_example = get-deep_merge (text "a") old_tree new_tree new_tree-keys

new_at_y : at (text "a" ∷ text "y" ∷ []) (map new_tree) ≡ some (int 3)
unfolding at get entries ◌==◌
new_at_y = refl

deep_merge_override_example :
    at (text "a" ∷ text "y" ∷ []) (deep_merge (map old_tree) (map new_tree)) ≡ some (int 3)
deep_merge_override_example =
    deep_merge_override (text "a" ∷ text "y" ∷ []) (map old_tree) (map new_tree) (int 3)
      new_tree-IsUnique refl new_at_y

new_silent_at_x : is_silent (text "a" ∷ text "x" ∷ []) (map new_tree) ≡ true
unfolding is_silent get entries ◌==◌
new_silent_at_x = refl

deep_merge_inherit_example :
    at (text "a" ∷ text "x" ∷ []) (deep_merge (map old_tree) (map new_tree))
    ≡ at (text "a" ∷ text "x" ∷ []) (map old_tree)
deep_merge_inherit_example =
    deep_merge_inherit (text "a" ∷ text "x" ∷ []) (map old_tree) (map new_tree) new_tree-IsUnique
      new_silent_at_x

-- ===== src/Builder/Iterations.antt =====
-- buildIterations and overlayData of internal/builder/builder.go: the forEach of an artifact.
use flux_dev.Api.{ForEachSpec, ManifestArtifact}
use flux_dev.Base.{List, Result, [], err, found, none, ok, some, suc, ℕ, ◌++◌, ◌>>=◌, ◌∷◌}
use flux_dev.Builder.Core.{Error, not_a_collection, undefined}
use flux_dev.Dict.{Dict, get, keys, overlay}
use flux_dev.Pipeline.Core.{value_at}
use flux_dev.Text.{Text, text}
use flux_dev.Text.Decimal.{decimal}
use flux_dev.Text.Order.{sort}
use flux_dev.Tree.{Value, entries, int, items, list, map, object, string}

-- An empty label stands for an artifact without forEach.
pub record Iteration : Type 0 where
  pub label : Text
  pub bindings : Dict Value

abbrev pub list_iteration : Text → ℕ → Value → Iteration
list_iteration name i item = record {
  label = text "list index:" ++ decimal i;
  bindings = (name, object ((text "index", int i) ∷ (text "value", item) ∷ [])) ∷ [];
}

abbrev pub map_iteration : Text → Dict Value → Text → Iteration
map_iteration name m k = record {
  label = text "map key:" ++ k;
  bindings = (name, object ((text "key", string k) ∷ (text "value", value_at k m) ∷ [])) ∷ [];
}

unfoldable pub list_iterations : Text → ℕ → List Value → List Iteration
list_iterations name i [] = []
list_iterations name i (item ∷ vs) = list_iteration name i item ∷ list_iterations name (suc i) vs

unfoldable pub map_iterations : Text → Dict Value → List Text → List Iteration
map_iterations name m [] = []
map_iterations name m (k ∷ ks) = map_iteration name m k ∷ map_iterations name m ks

unfoldable pub iterate : ForEachSpec → Value → Result Error (List Iteration)
unfolding list_iterations map_iterations
iterate spec (list vs) = ok (list_iterations spec.binding 0 (items vs))
iterate spec (map fs) = ok (map_iterations spec.binding (entries fs) (sort (keys (entries fs))))
iterate spec v = err (not_a_collection spec.from)

unfoldable pub build_iterations : ManifestArtifact → Dict Value → Result Error (List Iteration)
unfolding iterate
build_iterations spec scope = elim spec.for_each [
  | none ↦ ok (record { label = []; bindings = [] } ∷ [])
  | some each ↦ (do src ← found (get each.from scope) (undefined each.from); iterate each src)
]

unfoldable pub overlay_data : Dict Value → Dict Value → Dict Value
overlay_data base over = overlay (overlay [] base) over

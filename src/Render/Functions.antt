-- ===== src/Render/Functions.antt =====
-- The functions of a template: FuncMap of internal/template/funcmap.go, addHelmHelpers of
-- internal/render/helpers.go, and those that Render binds.
use flux_dev.Base.{Option, [], arith, if◌then◌else◌, none, ◌∷◌, ◌≡◌}
use flux_dev.Builder.Core.{Lookup}
use flux_dev.Dict.{Dict, get, put}
use flux_dev.Text.{Text, text, ◌==◌}
use flux_dev.Text.Equality.{eq_iff}

-- A function of Sprig, or one of the program's.
pub data Func (F : Type 0) : Type 0 where
  sprig : F → Func F
  to_yaml from_yaml to_json from_json required include tpl : Func F
  lookup_file : Option Lookup → Func F

module _ {ℓ} {V : Type ℓ} where
  -- delete(m, k)
  unfoldable pub remove : Text → Dict V → Dict V
  remove k [] = []
  remove k ((j, v) ∷ m) = let rest = remove k m in if j == k then rest else (j, v) ∷ rest

  pub get-remove :
      (k j : Text) (m : Dict V) → get j (remove k m) ≡ (if k == j then none else get j m)
  unfolding remove get
  get-remove k j [] = ground arith
  get-remove k j ((i, v) ∷ m) = ground (arith, eq_iff k j, eq_iff i k, eq_iff i j, get-remove k j m)

module _ {F : Type 0} where
  unfoldable pub sprigs : Dict F → Dict (Func F)
  sprigs [] = []
  sprigs ((k, f) ∷ fs) = (k, sprig f) ∷ sprigs fs

  -- FuncMap, from Sprig's TxtFuncMap.
  unfoldable pub func_map : Dict F → Dict (Func F)
  func_map functions =
      remove (text "tpl") (
        remove (text "include")
          (remove (text "expandenv") (remove (text "env") (sprigs functions))))

  unfoldable pub add_helm_helpers : Dict (Func F) → Dict (Func F)
  add_helm_helpers fm = put (text "required") required (
      put (text "fromJson") from_json (
        put (text "toJson") to_json
          (put (text "fromYaml") from_yaml (put (text "toYaml") to_yaml fm))))

  -- The functions of one Render.
  unfoldable pub render_functions : Dict F → Option Lookup → Dict (Func F)
  render_functions functions lookup = put (text "tpl") tpl (
      put (text "include") include
        (put (text "lookupFile") (lookup_file lookup) (add_helm_helpers (func_map functions))))

-- ===== src/Render.antt =====
-- The render engine: internal/render/gotemplate.go and helpers.go, on the function map of
-- internal/template/funcmap.go. Go's text/template is a parameter.
pub mod Functions
pub mod Laws
use flux_dev.Base.{
  Bool, List, Option, Result, [], eqb, err, guard, if◌then◌else◌, none, not, ok, some, wrap, ℕ,
  ◌&&◌, ◌++◌, ◌>>=◌, ◌>>◌, ◌∷◌,
}
use flux_dev.Builder.Apply.{Builder}
use flux_dev.Builder.Core.{Engine, Error, Lookup, Partial}
use flux_dev.Dict.{Dict, put}
use flux_dev.Render.Functions.{Func, include, lookup_file, render_functions, tpl}
use flux_dev.Text.{Text, text, ◌==◌}
use flux_dev.Tree.{Value, null, string}
use flux_dev.Builder.Core as BuilderCore

-- `T` holds a tree of templates. `new_template` is New with Funcs and Option, `parse` the Parse of a
-- template of this name in the tree, and `execute` ExecuteTemplate. The unmarshallers give the map so
-- far and an error.
pub record Library (T F : Type 0) : Type 0 where
  pub sprig_functions : Dict F
  pub new_template : Text → Dict (Func F) → T
  pub parse : Text → List ℕ → T → Result Text T
  pub execute : Text → Dict Value → T → Result Text (List ℕ)
  pub execute_value : Text → Value → T → Result Text Text
  pub is_defined : Text → T → Bool
  pub clone : T → Result Text T
  pub marshal_yaml : Value → Result Text Text
  pub marshal_json : Value → Result Text Text
  pub unmarshal_yaml : Text → Dict Value × Option Text
  pub unmarshal_json : Text → Dict Value × Option Text

-- strings.TrimSuffix of a newline.
abbrev pub trim_newline : Text → Text
trim_newline [] = []
trim_newline (b ∷ s) = let rest = trim_newline s in if s == [] && eqb b 10 then [] else b ∷ rest

abbrev pub or_empty : Result Text Text → Text
or_empty (ok t) = t
or_empty (err message) = []

abbrev pub recorded : Dict Value × Option Text → Dict Value
recorded (m, none) = m
recorded (m, some message) = put (text "Error") (string message) m

-- `required`: a nil or an empty string is missing.
unfoldable pub required_value : Text → Value → Result Text Value
required_value msg null = err msg
required_value msg (string s) = if s == [] then err msg else ok (string s)
required_value msg v = ok v

pub data LookupError : Type 0 where
  not_available : LookupError
  at_path : Text → BuilderCore.Error → LookupError

unfoldable pub lookup_file_func : Option Lookup → Text → Result LookupError (List ℕ)
lookup_file_func none path = err not_available
lookup_file_func (some f) path = wrap (at_path path) (f path)

module _ {T F : Type 0} (lib : Library T F) where
  unfoldable pub to_yaml_func : Value → Text
  to_yaml_func v = trim_newline (or_empty (lib.marshal_yaml v))

  unfoldable pub from_yaml_func : Text → Dict Value
  from_yaml_func s = recorded (lib.unmarshal_yaml s)

  unfoldable pub to_json_func : Value → Text
  to_json_func v = or_empty (lib.marshal_json v)

  unfoldable pub from_json_func : Text → Dict Value
  from_json_func s = recorded (lib.unmarshal_json s)

  unfoldable pub include_func : T → Text → Value → Result Text Text
  include_func root name scope = do
    guard (lib.is_defined name root) (text "include: not defined: " ++ name)
    wrap (λ e. text "include " ++ name ++ text ": " ++ e) (lib.execute_value name scope root)

  unfoldable pub tpl_func : T → Text → Value → Result Text Text
  tpl_func root src scope = do
    t ← wrap (λ e. text "tpl: clone root template: " ++ e) (lib.clone root)
    parsed ← wrap (λ e. text "tpl: parse: " ++ e) (lib.parse (text "tpl") src t)
    wrap (λ e. text "tpl: execute: " ++ e) (lib.execute_value (text "tpl") scope parsed)

  -- The loop over the partials.
  unfoldable pub parse_partials : List Partial → T → Result (Text × Text) T
  parse_partials [] t = ok t
  parse_partials (p ∷ ps) t = do
    next ← wrap (λ e. (p.name, text "parse partial: " ++ e)) (lib.parse p.name p.src t)
    parse_partials ps next

  -- Render. The second parse is that of the root, which has the name.
  unfoldable pub render : Engine
  unfolding parse_partials
  render name src scope opts = do
    let root = lib.new_template name (render_functions lib.sprig_functions opts.lookup_file)
    t ← parse_partials opts.partials root
    parsed ← wrap (λ e. (name, text "parse: " ++ e)) (lib.parse name src t)
    wrap (λ e. (name, text "execute: " ++ e)) (lib.execute name scope parsed)

-- ===== src/Pipeline/Core.antt =====
-- What the verbs of the pipeline share: the scope and the errors (pipeline.go), the helpers of
-- iter.go, and the code outside the repository that they call, as a record of parameters.
use flux_dev.Base.{◌≡◌, refl, ℕ, Bool, Option, none, some, List, Result, ok, err, found, ◌>>=◌}
use flux_dev.Text.{Text, text}
use flux_dev.Text.Order.{sort}
use flux_dev.Dict.{Dict, get, keys}
use flux_dev.Tree.{Value, null, as_list}

-- `external` is an error of a library or of the context, with its message.
pub data Error : Type 0 where
  external : Text → Error
  at_step : Text → Error → Error
  at_field : Text → Error → Error
  at_index : Text → ℕ → Error → Error
  at_key : Text → Text → Error → Error
  duplicate_step_name reserved_step_name no_verb_set : Error
  invalid_from unknown_alias unsupported_format : Text → Error
  glob_is_empty glob_is_absolute glob_leaves_root : Error
  key_expr_missing key_expr_unexpected key_expr_is_nil : Error
  empty_fragment not_a_prior_step listed_twice : Text → Error
  no_artifact not_regular over_limit grew_over_limit : Text → Error
  not_one_file : Text → ℕ → Error
  duplicate_key : Text → Text → Error
  undefined not_a_collection not_a_list not_a_map not_a_boolean : Text → Error
  empty_key : Error

-- A parsed Go template is what executing it against a scope gives.
abbrev pub Template : Type 0
Template = Dict Value → Result Text Text

pub record FileInfo : Type 0 where
  pub is_regular : Bool
  pub size : ℕ

-- An open file: what Stat and a read to the end return.
pub record File : Type 0 where
  pub stat : Result Text FileInfo
  pub read : Result Text (List ℕ)

-- The libraries and the file system. `parse_template` is
-- template.New(name).Funcs(FuncMap()).Option("missingkey=error").Parse(src);
-- `stat` and `glob` look into a directory, `open_file` opens a path below one.
pub record Libraries : Type 0 where
  pub parse_template : Text → Text → Result Text Template
  pub parse_yaml : List ℕ → Result Text Value
  pub parse_json : List ℕ → Result Text Value
  pub stat : Text → Text → Result Text FileInfo
  pub glob : Text → Text → Result Text (List Text)
  pub open_file : Text → Text → Result Text File

-- What ctx.Err() gives at each poll: before the n-th step, and before the i-th item of that step.
-- Any moment of cancellation is a choice of the two functions.
pub record Context : Type 0 where
  pub before_step : ℕ → Option Text
  pub before_item : ℕ → ℕ → Option Text

abbrev pub poll : Option Text → Result Error (Unit {0})
poll none = ok tt
poll (some message) = err (external message)

pub record Scope : Type 0 where
  pub sources : Dict Text
  pub values : Dict Value
  pub outputs : Dict Value

abbrev pub values_key : Text
values_key = text "values"

-- `v[key]` of a key that is known to be there; Go's nil if it is not.
abbrev pub value_at : Text → Dict Value → Value
value_at k m = elim (get k m) [ none ↦ null | some v ↦ v ]

unfoldable pub list_input : Dict Value → Text → Result Error (List Value)
list_input outputs from = do
  val ← found (get from outputs) (undefined from)
  found (as_list val) (not_a_list from)

unfoldable pub sorted_keys : Dict Value → List Text
sorted_keys m = sort (keys m)

pub poll-ok : (p : Option Text) {u : Unit {0}} → poll p ≡ ok u → p ≡ none
poll-ok none h = refl
poll-ok (some message) h = cc

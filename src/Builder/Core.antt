-- ===== src/Builder/Core.antt =====
-- What the parts of the builder share: the errors, the source files and the render engine.
use flux_dev.Base.{Bool, List, Option, Result, ℕ}
use flux_dev.Dict.{Dict}
use flux_dev.Text.{Text}
use flux_dev.Tree.{Value}

pub record FileInfo : Type 0 where
  pub is_regular : Bool
  pub size : ℕ
  pub mode : ℕ

pub data StatError : Type 0 where
  not_exist failed : Text → StatError

-- An os.Root over a source artifact: Stat, and Open with a read to the end.
pub record Root : Type 0 where
  pub stat : Text → Result StatError FileInfo
  pub read : Text → Result Text (List ℕ)

-- render.Partial and render.Options. `lookup_file` is `none` where Go has a nil closure.
pub record Partial : Type 0 where
  pub name : Text
  pub src : List ℕ

pub data Error : Type 0 where
  external : Text → Error
  at_template : Text → Text → Text → Error → Error
  at_partials : Text → Error → Error
  render_error : Text → Text → Error
  no_at_sign no_alias_or_path artifact_as_source : Error
  unknown_alias not_there not_regular over_limit grew_over_limit : Text → Error
  no_artifact_prefix empty_destination renders_empty : Text → Error
  invalid_destination : Text → Text → Error
  already_written : Text → Text → Error
  undefined not_a_collection : Text → Error
  path_is_empty path_is_absolute path_escapes : Error
  newline_in_file_name : Text → Error

-- The closure that backs `lookupFile`.
abbrev pub Lookup : Type 0
Lookup = Text → Result Error (List ℕ)

pub record Options : Type 0 where
  pub partials : List Partial
  pub lookup_file : Option Lookup

-- render.Engine's Render: an error of it is a render.Error, with its template and message.
abbrev pub Engine : Type 0
Engine = Text → List ℕ → Dict Value → Options → Result (Text × Text) (List ℕ)

abbrev pub render_failed : Text × Text → Error
render_failed (template, message) = render_error template message

abbrev pub stat_failed : StatError → Error
stat_failed (not_exist message) = external message
stat_failed (failed message) = external message

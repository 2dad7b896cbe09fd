-- ===== src/Builder/Reference.antt =====
-- The references of a TemplateSpec: parseSourceRef and renderDestPath of internal/builder/builder.go,
-- and parseDestTemplate of desttemplate.go.
pub mod Laws
use flux_dev.Base.{
  List, Result, [], drop, err, if◌then◌else◌, none, not, ok, wrap, ◌++◌, ◌>>=◌, ◌>>◌, ◌||◌, ◌∷◌,
}
use flux_dev.Builder.Core.{
  Engine, Error, artifact_as_source, empty_destination, external, invalid_destination,
  no_alias_or_path, no_artifact_prefix, no_at_sign, render_failed, renders_empty,
}
use flux_dev.Builder.Partials.{lookup_file}
use flux_dev.Dict.{Dict}
use flux_dev.FilePath.{clean, is_abs}
use flux_dev.Text.{Text, starts_with, text, trim_prefix, ◌==◌}
use flux_dev.Text.Split.{split_n2}
use flux_dev.Text.Trim.{trim_space}
use flux_dev.Tree.{Value}

abbrev pub artifact_ref_prefix : Text
artifact_ref_prefix = text "@artifact/"

-- The two parts of SplitN, both of which must hold something.
unfoldable pub parse_parts : List Text → Result Error (Text × Text)
parse_parts (alias ∷ path ∷ []) =
    if alias == [] || path == []
    then err no_alias_or_path
    else if alias == text "artifact"
    then err artifact_as_source
    else ok (alias, path)
parse_parts _ = err no_alias_or_path

unfoldable pub parse_source_ref : Text → Result Error (Text × Text)
unfolding parse_parts
parse_source_ref ref =
    if not (starts_with ref (text "@"))
    then err no_at_sign
    else parse_parts (split_n2 (drop 1 ref) b'/')

-- `parse_dest` is template.New("dest").Funcs(FuncMap()).Option("missingkey=zero").Parse.
unfoldable pub validate_dest_template :
    (Text → Result Text (Unit {0})) → Text → Result Error (Unit {0})
validate_dest_template parse_dest ref =
    if not (starts_with ref artifact_ref_prefix)
    then err (no_artifact_prefix ref)
    else if trim_prefix ref artifact_ref_prefix == []
    then err (empty_destination ref)
    else wrap external (parse_dest (trim_prefix ref artifact_ref_prefix))

-- The checks on a rendered destination, and the path that is written.
unfoldable pub check_dest : Text → Text → Result Error Text
check_dest to_ref out =
    let rendered = trim_space out in
    if rendered == []
    then err (renders_empty to_ref)
    else if clean rendered == text "."
        || starts_with (clean rendered) (text "..")
        || is_abs (clean rendered)
    then err (invalid_destination to_ref rendered)
    else ok (clean rendered)

unfoldable pub render_dest_path : Engine → Text → Dict Value → Result Error Text
unfolding check_dest
render_dest_path engine to_ref scope =
    if not (starts_with to_ref artifact_ref_prefix)
    then err (no_artifact_prefix to_ref)
    else if trim_prefix to_ref artifact_ref_prefix == []
    then err (empty_destination to_ref)
    else (do
      out ← wrap render_failed (
          engine (text "destination:" ++ to_ref) (trim_prefix to_ref artifact_ref_prefix) scope
            (record { partials = []; lookup_file = none }))
      check_dest to_ref out)

-- ===== src/Pipeline/SourceRef.antt =====
-- The `@alias/rest` references and globs of internal/pipeline/load.go.
pub mod Laws
use flux_dev.Base.{
  suc, Bool, not, ◌||◌, Option, none, some, [], Result, ok, err, eqb, length, take, drop,
  if◌then◌else◌,
}
use flux_dev.Text.{Text, text, ◌==◌, starts_with, index_byte, contains_any, has}
use flux_dev.Text.Split.{split}
use flux_dev.Pipeline.Core.{Error, glob_is_empty, glob_is_absolute, glob_leaves_root}

-- `idx <= 0 || idx == len(body)-1` of the source, with -1 as `none`.
unfoldable pub split_body : Text → Option (Text × Text)
split_body body = elim (index_byte body b'/') [
  | none ↦ none
  | some i ↦
      if eqb i 0 || eqb (suc i) (length body) then none else some (take i body, drop (suc i) body)
]

unfoldable pub split_source_ref : Text → Option (Text × Text)
unfolding split_body
split_source_ref ref = if not (starts_with ref (text "@")) then none else split_body (drop 1 ref)

unfoldable pub validate_glob : Text → Result Error (Unit {0})
validate_glob pattern =
    if pattern == []
    then err glob_is_empty
    else if starts_with pattern (text "/")
    then err glob_is_absolute
    else if has (text "..") (split pattern b'/')
    then err glob_leaves_root
    else ok tt

unfoldable pub has_glob_meta : Text → Bool
has_glob_meta pattern = contains_any pattern (text "*?[{")

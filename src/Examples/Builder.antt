-- ===== src/Examples/Builder.antt =====
-- The theorems on the builder, at a concrete artifact.
use flux_dev.Api.{ManifestArtifact}
use flux_dev.Base.{
  List, Option, Result, [], arith, err, false, if◌then◌else◌, length, none, ok, refl, some, true,
  ◌*◌, ◌++◌, ◌<◌, ◌||◌, ◌↔◌, ◌∷◌, ◌≡◌,
}
use flux_dev.Builder.Apply.{
  Builder, Polls, Staging, apply_artifact, apply_template, render_template, write_staged_file,
}
use flux_dev.Builder.Apply.Laws.{apply_artifact-IsStaging}
use flux_dev.Builder.Apply.Written.{IsStaging}
use flux_dev.Builder.Confined.{lookup_file-confined, render_dest_path-IsInside}
use flux_dev.Builder.Core.{Engine, Error, Root, failed, not_exist}
use flux_dev.Builder.Iterations.{Iteration, build_iterations, overlay_data}
use flux_dev.Builder.Mkdir.{Mkdir, dir, exists, made, mkdir_all, mkdir_failed}
use flux_dev.Builder.Mkdir.Termination.{Answered, mkdir_all-ends}
use flux_dev.Builder.Partials.{
  dir_of, discover_partials, lookup_file, partial_chain_dirs, read_small_file,
}
use flux_dev.Builder.Reference.{parse_source_ref, render_dest_path}
use flux_dev.Builder.Reference.Laws.{parse_source_ref_iff}
use flux_dev.Dict.{Dict, get, keys, overlay, put}
use flux_dev.Examples.Setup.{directories, list_of, scope}
use flux_dev.FilePath.{clean, is_abs, kept, resolve, resolve_all}
use flux_dev.FilePath.Confined.{IsInside, inside_relative}
use flux_dev.Pipeline.SourceRef.Laws.{IsSourceRef}
use flux_dev.Text.{Text, has, starts_with, text, trim_prefix, ◌==◌}
use flux_dev.Text.Decimal.{decimal}
use flux_dev.Text.Order.{sort}
use flux_dev.Text.Split.{join, split, split_n2}
use flux_dev.Text.Trim.{trim_space}
use flux_dev.Tree.{Value, entries, field, fields_of, int, map, object, string}
use flux_dev.Builder.Core as BuilderCore
use flux_dev.Builder.Apply as Apply

-- The name of the current entry of a forEach over a map, under the binding `x`.
abbrev entry_name : Option Value → Text
entry_name (some (map (field k (string s) fs))) = s
entry_name _ = []

-- An engine that writes the source, and after it the name of the entry.
abbrev engine : Engine
engine name src scope options = ok (src ++ entry_name (get (text "x") scope))

abbrev root : Root
root = record {
  stat = λ path.
      if path == text "_helpers.tpl"
      then err (not_exist (text "no such file"))
      else ok (record { is_regular = true; size = 3; mode = 420 });
  read = λ path. ok (text "abc");
}

abbrev locked_root : Root
locked_root = record {
  stat = λ path. if is_abs path then err (BuilderCore.failed (text "locked")) else root.stat path;
  read = λ path. if is_abs path then err (text "locked") else root.read path;
}

abbrev builder : Apply.Builder
builder = record {
  engine = engine;
  open_root = λ dir. ok root;
  staging_error = none;
  write_error = λ path. none;
}

abbrev polls : Polls
polls = record { before_iteration = λ i. none; before_template = λ i j. none }

abbrev artifact : ManifestArtifact
artifact = record {
  name = text "out";
  revision = [];
  origin_revision = [];
  for_each = some (record { from = text "apps"; binding = text "x" });
  templates = record { from = text "@main/a.tpl"; to = text "@artifact/d/../app-" } ∷ [];
}

abbrev apps : Dict Value
apps = (text "apps", object ((text "web", int 1) ∷ (text "db", int 2) ∷ [])) ∷ []

abbrev iterations : List Iteration
iterations = list_of (build_iterations artifact apps)

abbrev staging_of : Result BuilderCore.Error Staging → Staging
staging_of (ok st) = st
staging_of (err e) = record { files = []; written_paths = [] }

abbrev staged : Staging
staged = staging_of (apply_artifact builder polls artifact directories apps)

iterations_built : build_iterations artifact apps ≡ ok iterations
unfolding apply_artifact apply_template build_iterations overlay_data put overlay get
    parse_source_ref split_n2 starts_with ◌==◌ render_dest_path clean split join trim_prefix
    trim_space write_staged_file render_template read_small_file discover_partials dir_of
    partial_chain_dirs entries fields_of keys sort has decimal
iterations_built = refl

artifact_applied : apply_artifact builder polls artifact directories apps ≡ ok staged
unfolding apply_artifact apply_template build_iterations overlay_data put overlay get
    parse_source_ref split_n2 starts_with ◌==◌ render_dest_path clean split join trim_prefix
    trim_space write_staged_file render_template read_small_file discover_partials dir_of
    partial_chain_dirs entries fields_of keys sort has decimal
artifact_applied = refl

apply_artifact-IsStaging_example :
    IsStaging staged × (length staged.files ≡ length iterations * length artifact.templates)
apply_artifact-IsStaging_example =
    apply_artifact-IsStaging builder polls artifact directories apps iterations staged
      iterations_built artifact_applied

dest_rendered : render_dest_path engine (text "@artifact/d/../app.yaml") [] ≡ ok (text "app.yaml")
unfolding apply_artifact apply_template build_iterations overlay_data put overlay get
    parse_source_ref split_n2 starts_with ◌==◌ render_dest_path clean split join trim_prefix
    trim_space write_staged_file render_template read_small_file discover_partials dir_of
    partial_chain_dirs entries fields_of keys sort has decimal
dest_rendered = refl

render_dest_path-IsInside_example : IsInside (text "app.yaml")
render_dest_path-IsInside_example =
    render_dest_path-IsInside engine (text "@artifact/d/../app.yaml") [] (text "app.yaml")
      dest_rendered

roots_agree :
    (path : Text)
    → IsInside path
    → (root.stat path ≡ locked_root.stat path) × (root.read path ≡ locked_root.read path)
roots_agree path inside = rw (inside_relative path inside) (refl, refl)

lookup_file-confined_example :
    lookup_file root (text "../etc/passwd") ≡ lookup_file locked_root (text "../etc/passwd")
lookup_file-confined_example =
    lookup_file-confined root locked_root (text "../etc/passwd") roots_agree

parse_source_ref_iff_example :
    (parse_source_ref (text "@main/a.tpl") ≡ ok (text "main", text "a.tpl")) ↔ (
      IsSourceRef (text "@main/a.tpl") (text "main") (text "a.tpl")
      × ((text "main" == text "artifact") ≡ false))
parse_source_ref_iff_example =
    parse_source_ref_iff (text "@main/a.tpl") (text "main") (text "a.tpl")

-- A root that knows its directories by their paths: Mkdir wants the parent.
record_dir : Mkdir (List Text)
record_dir dirs path =
    if has path dirs
    then (exists, dirs)
    else if dir path == text "." || has (dir path) dirs
    then (made, path ∷ dirs)
    else (mkdir_failed (text "no such directory"), dirs)

directories_made : mkdir_all record_dir 3 [] (text "a/b") ≡ some (none, text "a/b" ∷ text "a" ∷ [])
unfolding record_dir mkdir_all dir clean is_abs kept resolve_all resolve starts_with ◌==◌ join split
    has
directories_made = refl

ab-IsInside : IsInside (text "a/b")
unfolding split ◌==◌
ab-IsInside = ((refl, refl, refl), ((refl, refl, refl), tt))

ab_short : length (split (text "a/b") b'/') < 3
unfolding split
ab_short = omega arith

mkdir_all-ends_example :
    (finish : Option Text × List Text) × (mkdir_all record_dir 3 [] (text "a/b") ≡ some finish)
    × Answered record_dir (text "a/b") finish
mkdir_all-ends_example = mkdir_all-ends record_dir 3 [] (text "a/b") ab-IsInside ab_short

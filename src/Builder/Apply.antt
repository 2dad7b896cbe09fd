-- ===== src/Builder/Apply.antt =====
-- applyArtifact and applyTemplate of internal/builder/builder.go: rendering every template of
-- every iteration into the staging directory.
pub mod Laws
pub mod Written
use flux_dev.Api.{ManifestArtifact, TemplateSpec}
use flux_dev.Base.{
  List, Option, Result, [], err, found, guard, if◌then◌else◌, ltb, none, not, ok, some, suc, wrap,
  ℕ, ◌++◌, ◌>>=◌, ◌>>◌, ◌∷◌,
}
use flux_dev.Builder.Core.{
  Engine, Error, Root, StatError, already_written, at_partials, at_template, external, failed,
  not_exist, not_regular, not_there, over_limit, render_failed, unknown_alias,
}
use flux_dev.Builder.Iterations.{Iteration, build_iterations, overlay_data}
use flux_dev.Builder.Partials.{discover_partials, lookup_file, max_file_bytes, read_small_file}
use flux_dev.Builder.Reference.{parse_source_ref, render_dest_path}
use flux_dev.Dict.{Dict, get, put}
use flux_dev.FilePath.{clean}
use flux_dev.Text.{Text, text, ◌==◌}
use flux_dev.Tree.{Value}

-- A file in the staging directory.
pub record Staged : Type 0 where
  pub path : Text
  pub content : List ℕ
  pub mode : ℕ

-- The staging directory and `writtenPaths`, from destination to template.
pub record Staging : Type 0 where
  pub files : List Staged
  pub written_paths : Dict Text

-- What the builder is given: the engine, os.OpenRoot on a source directory, and the errors that the
-- operating system gives when the staging directory is opened, and when a file is written at a path
-- of it.
pub record Builder : Type 0 where
  pub engine : Engine
  pub open_root : Text → Result Text Root
  pub staging_error : Option Text
  pub write_error : Text → Option Text

-- The read of renderTemplate, and the render.
unfoldable pub render_template :
    Builder → Root → Text → Text → Text → Dict Value → Result Error (List ℕ)
render_template b root src_path tmpl_name label scope = do
  src ← read_small_file root src_path max_file_bytes
  partials ← wrap (at_partials src_path) (discover_partials root src_path)
  wrap render_failed (
      b.engine (if label == [] then tmpl_name else tmpl_name ++ text " (" ++ label ++ text ")") src
        scope (record { partials = partials; lookup_file = some (lookup_file root) }))

abbrev pub stat_source : Text → StatError → Error
stat_source path (not_exist message) = not_there path
stat_source path (failed message) = external message

unfoldable pub write_staged_file : Builder → Staged → List Staged → Result Error (List Staged)
write_staged_file b f files = elim (b.write_error f.path) [
  | some message ↦ err (external message)
  | none ↦ ok (files ++ f ∷ [])
]

-- One template of one iteration; `cancelled` is what ctx.Err() gives here.
unfoldable pub apply_template :
    Builder
    → Option Text
    → TemplateSpec
    → Dict Text
    → Dict Value
    → Text
    → Staging
    → Result Error Staging
apply_template b cancelled tmpl sources scope label st = do
  elim cancelled [ none ↦ ok tt | some message ↦ err (external message) ]
  (alias, path) ← parse_source_ref tmpl.from
  dir ← found (get alias sources) (unknown_alias alias)
  root ← wrap external (b.open_root dir)
  let src_path = clean path
  info ← wrap (stat_source src_path) (root.stat src_path)
  guard info.is_regular (not_regular src_path)
  guard (not (ltb max_file_bytes info.size)) (over_limit src_path)
  dest ← render_dest_path b.engine tmpl.to scope
  elim (get dest st.written_paths) [
    | none ↦ ok tt
    | some previous ↦ err (already_written dest previous)
  ]
  rendered ← render_template b root src_path tmpl.from label scope
  files ←
      write_staged_file b (record { path = dest; content = rendered; mode = info.mode }) st.files
  ok (record { files = files; written_paths = put dest tmpl.from st.written_paths })

-- What ctx.Err() gives before the i-th iteration, and before its j-th template.
pub record Polls : Type 0 where
  pub before_iteration : ℕ → Option Text
  pub before_template : ℕ → ℕ → Option Text

unfoldable pub apply_templates :
    Builder
    → (ℕ → Option Text)
    → ℕ
    → List TemplateSpec
    → Dict Text
    → Dict Value
    → Text
    → Staging
    → Result Error Staging
apply_templates b polls j [] sources scope label st = ok st
apply_templates b polls j (t ∷ ts) sources scope label st = do
  next ← wrap (at_template t.from t.to label) (apply_template b (polls j) t sources scope label st)
  apply_templates b polls (suc j) ts sources scope label next

unfoldable pub apply_iterations :
    Builder
    → Polls
    → ℕ
    → List Iteration
    → List TemplateSpec
    → Dict Text
    → Dict Value
    → Staging
    → Result Error Staging
apply_iterations b polls i [] ts sources scope st = ok st
apply_iterations b polls i (it ∷ its) ts sources scope st = do
  elim (polls.before_iteration i) [ none ↦ ok tt | some message ↦ err (external message) ]
  next ←
      apply_templates b (polls.before_template i) 0 ts sources (overlay_data scope it.bindings)
        it.label st
  apply_iterations b polls (suc i) its ts sources scope next

unfoldable pub apply_artifact :
    Builder → Polls → ManifestArtifact → Dict Text → Dict Value → Result Error Staging
unfolding apply_iterations apply_templates
apply_artifact b polls spec sources scope = do
  its ← build_iterations spec scope
  elim b.staging_error [ none ↦ ok tt | some message ↦ err (external message) ]
  apply_iterations b polls 0 its spec.templates sources scope
      (record { files = []; written_paths = [] })

-- ===== src/Builder/Build.antt =====
-- Build of internal/builder/builder.go: from an artifact of the spec to a tarball in the storage.
use flux_dev.Api.{ManifestArtifact}
use flux_dev.Base.{List, Option, Result, err, none, ok, some, wrap, ℕ, ◌++◌, ◌>>=◌, ◌>>◌, ◌∷◌}
use flux_dev.Builder.Apply.{Builder, Polls, Staged, apply_artifact}
use flux_dev.Builder.Core.{Error, external}
use flux_dev.Builder.DirHash.{dir_hash_fn}
use flux_dev.Controller.Sources.{ArtifactMeta}
use flux_dev.Dict.{Dict}
use flux_dev.FilePath.{clean}
use flux_dev.Text.{Text, text}
use flux_dev.Tree.{Value}

-- The part of a storage artifact that the controller reads or writes.
pub record Artifact : Type 0 where
  pub path : Text
  pub digest : Text
  pub info : ArtifactMeta

-- The names that HashDir hands to its hash function, and what opens them.
pub record DirFiles : Type 0 where
  pub files : List Text
  pub open_file : Text → Result Text (List ℕ)

-- The storage of fluxcd/pkg: `new_artifact_for` takes the namespace, the name, the directory and the
-- file name, and `lock` gives an error or is released at the end. `make_dir` is os.MkdirAll, and
-- `dir_files` the walk of HashDir.
pub record Storage : Type 0 where
  pub make_dir : Text → Option Text
  pub dir_files : Text → Text → List Staged → Result Text DirFiles
  pub new_artifact_for : Text → Text → Text → Text → Artifact
  pub mkdir_all : Artifact → Option Text
  pub lock : Artifact → Option Text
  pub archive : Artifact → Text → List Staged → Result Text Artifact

abbrev pub unless : Option Text → Result Error (Unit {0})
unless none = ok tt
unless (some message) = err (external message)

-- hashStagingDir
unfoldable pub hash_staging_dir : Storage → Text → Text → List Staged → Result Error Text
hash_staging_dir st dir name staged = do
  walked ← wrap external (st.dir_files dir name staged)
  dir_hash_fn walked.files walked.open_file

-- filepath.Join of two parts.
abbrev pub join_path : Text → Text → Text
join_path dir name = clean (dir ++ b'/' ∷ name)

-- `latest@<digest>`
abbrev pub latest : Text → Text
latest digest = text "latest@" ++ digest

unfoldable pub build :
    Builder
    → Storage
    → Polls
    → ManifestArtifact
    → Dict Text
    → Dict Value
    → Text
    → Text
    → Result Error Artifact
unfolding hash_staging_dir
build b st polls spec sources scope namespace workspace = do
  let staging_dir = join_path workspace spec.name
  unless (st.make_dir staging_dir)
  staged ← apply_artifact b polls spec sources scope
  contents_hash ← hash_staging_dir st staging_dir spec.name staged.files
  let artifact = st.new_artifact_for namespace spec.name spec.name (contents_hash ++ text ".tar.gz")
  unless (st.mkdir_all artifact)
  unless (st.lock artifact)
  archived ← wrap external (st.archive artifact staging_dir staged.files)
  ok (record archived { info = record archived.info { revision = latest archived.digest } })

-- ===== src/Builder/Mkdir.antt =====
-- mkdirAll of internal/builder/builder.go, over a root whose directories are its state.
pub mod Dir
pub mod Termination
use flux_dev.Base.{
  Option, [], drop_last, if◌then◌else◌, none, refl, some, suc, zero, ℕ, ◌++◌, ◌||◌, ◌∷◌, ◌≡◌,
}
use flux_dev.FilePath.{clean, is_abs, kept, resolve, resolve_all}
use flux_dev.Text.{Text, starts_with, text, ◌==◌}
use flux_dev.Text.Split.{join, split}

-- An answer of Mkdir: `exists` is an error for which os.IsExist is true.
pub data MkdirAnswer : Type 0 where
  made exists : MkdirAnswer
  mkdir_failed : Text → MkdirAnswer

-- Mkdir of an os.Root on the state `S`.
abbrev pub Mkdir : Type 0 → Type 0
Mkdir S = S → Text → MkdirAnswer × S

-- filepath.Dir: the path up to its last slash, cleaned.
unfoldable pub dir : Text → Text
dir path = clean (join (drop_last (split path b'/') ++ [] ∷ []) b'/')

-- The error that is returned, if any.
abbrev pub error_of : MkdirAnswer → Option Text
error_of made = none
error_of exists = none
error_of (mkdir_failed message) = some message

-- The second Mkdir, when the parents are there.
abbrev pub retry : {S : Type 0} → Mkdir S → Text → Option Text × S → Option Text × S
retry mkdir path (some message, s) = (some message, s)
retry mkdir path (none, s) = let (answer, t) = mkdir s path in (error_of answer, t)

-- What follows the first Mkdir on `path`, given how mkdirAll ended on the parent.
abbrev pub after :
    {S : Type 0}
    → Mkdir S
    → Text
    → MkdirAnswer
    → S
    → Option (Option Text × S)
    → Option (Option Text × S)
after mkdir path made t parents = some (none, t)
after mkdir path exists t parents = some (none, t)
after mkdir path (mkdir_failed message) t none = none
after mkdir path (mkdir_failed message) t (some ended) = some (retry mkdir path ended)

-- `none` is a run that is out of fuel.
unfoldable pub mkdir_all : {S : Type 0} → Mkdir S → ℕ → S → Text → Option (Option Text × S)
mkdir_all mkdir zero s path = none
mkdir_all mkdir (suc fuel) s path =
    let (answer, t) = mkdir s path in
    let parents = mkdir_all mkdir fuel t (dir path) in
    if path == text "." || path == []
    then some (none, s)
    else after mkdir path answer t (if dir path == path then some (none, t) else parents)

dir_tests :
    (dir (text "a/b/c") ≡ text "a/b")
    × (dir (text "a") ≡ text ".")
    × (dir (text "/a") ≡ text "/")
    × (dir (text "/") ≡ text "/")
unfolding dir clean is_abs kept resolve_all resolve starts_with ◌==◌ join split
dir_tests = (refl, refl, refl, refl)

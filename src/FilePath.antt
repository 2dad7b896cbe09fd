-- ===== src/FilePath.antt =====
-- Slash-separated paths: Go's filepath.Clean, filepath.IsAbs and path.Dir on Unix, which the
-- program uses to keep paths inside a directory.
pub mod Base
pub mod Confined
use flux_dev.Base.{Bool, List, [], if◌then◌else◌, refl, ◌||◌, ◌∷◌, ◌≡◌}
use flux_dev.Text.{Text, starts_with, text, ◌==◌}
use flux_dev.Text.Split.{join, split}
use mathlib.Core.List.{reverse}

-- One segment of Clean: `stack` holds the segments kept so far, the last on top.
unfoldable pub resolve : Bool → List Text → Text → List Text
resolve rooted stack seg =
    if seg == [] || seg == text "."
    then stack
    else if seg == text ".."
    then elim stack [
      | [] ↦ if rooted then [] else text ".." ∷ []
      | top ∷ below ↦ if top == text ".." then text ".." ∷ top ∷ below else below
    ]
    else seg ∷ stack

unfoldable pub resolve_all : Bool → List Text → List Text → List Text
resolve_all rooted stack [] = stack
resolve_all rooted stack (seg ∷ segs) = resolve_all rooted (resolve rooted stack seg) segs

unfoldable pub is_abs : Text → Bool
is_abs path = starts_with path (text "/")

-- The segments that Clean keeps, in order.
unfoldable pub kept : Text → List Text
kept path = reverse (resolve_all (is_abs path) [] (split path b'/'))

unfoldable pub clean : Text → Text
unfolding kept resolve_all resolve is_abs
clean path =
    if is_abs path
    then b'/' ∷ join (kept path) b'/'
    else if join (kept path) b'/' == []
    then text "."
    else join (kept path) b'/'

clean_tests :
    (clean (text "a//b/./../c") ≡ text "a/c")
    × (clean (text "../x/../..") ≡ text "../..")
    × (clean (text "/../a") ≡ text "/a")
    × (clean [] ≡ text ".")
unfolding clean starts_with ◌==◌ join split
clean_tests = (refl, refl, refl, refl)

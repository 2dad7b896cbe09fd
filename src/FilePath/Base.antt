-- ===== src/FilePath/Base.antt =====
-- filepath.Base of the Go library: the last element of a path.
use flux_dev.Base.{List, [], if◌then◌else◌, refl, ◌∷◌, ◌≡◌}
use flux_dev.Text.{Text, text, ◌==◌}
use flux_dev.Text.Split.{split}
use mathlib.Core.List.{reverse}

-- The first segment that is not empty.
abbrev first_kept : Text → List Text → Text
first_kept otherwise [] = otherwise
first_kept otherwise (seg ∷ segs) = if seg == [] then first_kept otherwise segs else seg

unfoldable pub base : Text → Text
base path = if path == [] then text "." else first_kept (text "/") (reverse (split path b'/'))

base_tests :
    (base (text "a/b.tar.gz") ≡ text "b.tar.gz")
    × (base (text "a//") ≡ text "a")
    × (base (text "//") ≡ text "/")
    × (base [] ≡ text ".")
unfolding base ◌==◌ split
base_tests = (refl, refl, refl, refl)

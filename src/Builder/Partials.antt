-- ===== src/Builder/Partials.antt =====
-- internal/builder/partials.go: the `_helpers.tpl` files of a template, and `lookupFile`.
use flux_dev.Base.{
  List, Option, Result, [], drop_last, err, guard, if◌then◌else◌, length, ltb, none, not, ok, some,
  suc, take, wrap, ℕ, ◌*◌, ◌++◌, ◌>>=◌, ◌>>◌, ◌||◌, ◌∷◌,
}
use flux_dev.Builder.Core.{
  Error, Partial, Root, external, failed, grew_over_limit, not_exist, not_regular, over_limit,
  path_escapes, path_is_absolute, path_is_empty, stat_failed,
}
use flux_dev.FilePath.{clean, is_abs}
use flux_dev.Text.{Text, starts_with, text, ◌==◌}
use flux_dev.Text.Split.{join, split}

abbrev pub partial_filename : Text
partial_filename = text "_helpers.tpl"

-- maxPartialFileBytes, maxLookupFileBytes and maxTemplateFileBytes are all 10 << 20.
abbrev pub max_file_bytes : ℕ
max_file_bytes = 10 * 1048576

-- readSmallFile
unfoldable pub read_small_file : Root → Text → ℕ → Result Error (List ℕ)
read_small_file root rel limit = do
  content ← wrap external (root.read rel)
  let b = take (suc limit) content
  guard (not (ltb limit (length b))) (grew_over_limit rel)
  ok b

-- The directory below `cur` that a part of the path names; an empty part is skipped.
abbrev pub child : Text → Text → Text
child cur p = if p == [] then cur else if cur == [] then p else cur ++ b'/' ∷ p

-- `cur` is the directory reached so far.
unfoldable pub chain_from : Text → List Text → List Text
chain_from cur [] = []
chain_from cur (p ∷ parts) =
    let next = child cur p in
    let rest = chain_from next parts in if p == [] then rest else next ∷ rest

unfoldable pub partial_chain_dirs : Text → List Text
unfolding chain_from
partial_chain_dirs dir = if dir == [] then [] ∷ [] else [] ∷ chain_from [] (split dir b'/')

abbrev pub partial_path : Text → Text
partial_path d = if d == [] then partial_filename else d ++ b'/' ∷ partial_filename

-- One directory of discoverPartials: its partial, if it has a regular one.
unfoldable pub partial_in : Root → Text → Result Error (Option Partial)
partial_in root d = elim (root.stat (partial_path d)) [
  | err (not_exist message) ↦ ok none
  | err (failed message) ↦ err (external message)
  | ok info ↦
      if not info.is_regular
      then ok none
      else if ltb max_file_bytes info.size
      then err (over_limit (partial_path d))
      else (do
        body ← read_small_file root (partial_path d) max_file_bytes
        ok (some (record { name = partial_path d; src = body })))
]

abbrev pub add_partial : Option Partial → List Partial → List Partial
add_partial none ps = ps
add_partial (some p) ps = p ∷ ps

unfoldable pub partials_in : Root → List Text → Result Error (List Partial)
unfolding partial_in
partials_in root [] = ok []
partials_in root (d ∷ dirs) = do
  found_here ← partial_in root d
  rest ← partials_in root dirs
  ok (add_partial found_here rest)

-- path.Dir, with the empty text for the root.
unfoldable pub dir_of : Text → Text
dir_of path =
    let d = clean (join (drop_last (split path b'/')) b'/') in if d == text "." then [] else d

unfoldable pub discover_partials : Root → Text → Result Error (List Partial)
unfolding partials_in
discover_partials root src_path = partials_in root (partial_chain_dirs (dir_of src_path))

unfoldable pub clean_lookup_path : Text → Result Error Text
clean_lookup_path p =
    if p == []
    then err path_is_empty
    else if is_abs p
    then err path_is_absolute
    else if clean p == text "." || clean p == text ".." || starts_with (clean p) (text "../")
    then err path_escapes
    else ok (clean p)

-- The closure that newLookupFile returns.
unfoldable pub lookup_file : Root → Text → Result Error (List ℕ)
lookup_file root p = do
  cleaned ← clean_lookup_path p
  info ← wrap stat_failed (root.stat cleaned)
  guard info.is_regular (not_regular p)
  guard (not (ltb max_file_bytes info.size)) (over_limit p)
  read_small_file root cleaned max_file_bytes

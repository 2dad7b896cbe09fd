-- ===== src/Examples/Watches.antt =====
-- The theorems on the watches, the directory hash and the render engine, at concrete inputs.
use flux_dev.Base.{
  All, List, Result, [], err, false, if◌then◌else◌, none, ok, refl, some, true, ℕ, ◌∷◌, ◌≡◌,
}
use flux_dev.Builder.Core.{Options}
use flux_dev.Builder.DirHash.{adler_new, adler_sum, adler_write, dir_hash_fn, hash_line}
use flux_dev.Builder.DirHash.Hex.{parse_line, parse_line-hash_line}
use flux_dev.Builder.DirHash.Laws.{dir_hash_fn-perm}
use flux_dev.Controller.Sources.{SourceArtifact, index_by_source_ref, index_by_values_from_ref}
use flux_dev.Controller.Watches.{
  Lister, SourceObject, requests_for_source_change, requests_of, source_ref_index_key,
}
use flux_dev.Controller.Watches.Laws.{
  HasPlainSources, has_source, requests_for_source_change_iff, those,
}
use flux_dev.Dict.{get}
use flux_dev.Examples.Runs.{generator}
use flux_dev.Render.{Library, render}
use flux_dev.Render.Functions.{render_functions}
use flux_dev.Render.Laws.{function_of, get-render_functions}
use flux_dev.Text.{Text, contains_byte, has, text, ◌==◌}
use flux_dev.Text.Decimal.{decimal}
use flux_dev.Text.Order.{sort}
use mathlib.Core.List.Perm

abbrev lister : Lister
lister field_ key =
    if field_ == source_ref_index_key
    then ok (those (λ mg. has key (index_by_source_ref mg)) (generator ∷ []))
    else ok (those (λ mg. has key (index_by_values_from_ref mg)) (generator ∷ []))

abbrev repo : SourceArtifact
repo = record { digest = []; revision = text "v1"; url = []; metadata = [] }

abbrev source : SourceObject
source = record {
  kind = ok (text "GitRepository");
  namespace = text "home";
  name = text "repo";
  artifact = some repo;
}

no_slash :
    (contains_byte (text "GitRepository") b'/' ≡ false) × (contains_byte (text "home") b'/' ≡ false)
unfolding contains_byte
no_slash = (refl, refl)

generator_plain : All HasPlainSources (generator ∷ [])
unfolding contains_byte ◌==◌
generator_plain = (((refl, refl), tt), tt)

by_source :
    (key : Text)
    → lister source_ref_index_key key
      ≡ ok (those (λ mg. has key (index_by_source_ref mg)) (generator ∷ []))
unfolding ◌==◌
by_source key = refl

requests_for_source_change_iff_example :
    requests_for_source_change lister source
    ≡ requests_of
        (those (has_source (text "GitRepository") (text "home") (text "repo")) (generator ∷ []))
requests_for_source_change_iff_example =
    requests_for_source_change_iff lister (generator ∷ []) source (text "GitRepository") repo
      by_source refl refl no_slash.0 no_slash.1 generator_plain

abbrev open_file : Text → Result Text (List ℕ)
open_file name = ok (text "abc")

dir_hash_fn-perm_example :
    dir_hash_fn (text "a" ∷ text "b" ∷ []) open_file
    ≡ dir_hash_fn (text "b" ∷ text "a" ∷ []) open_file
dir_hash_fn-perm_example = dir_hash_fn-perm open_file (Perm.swap (text "b") (text "a") [])

hash_of_one : dir_hash_fn (text "a" ∷ []) open_file ≡ ok (text "243204672")
unfolding dir_hash_fn sort contains_byte decimal
hash_of_one = refl

parse_line-hash_line_example :
    parse_line (hash_line (text "abc") (text "a b"))
    ≡ some (adler_sum (adler_write adler_new (text "abc")), text "a b")
parse_line-hash_line_example = parse_line-hash_line (text "abc") (text "a b")

-- A library whose templates are their texts, none of which parses.
abbrev broken : Library (List ℕ) Text
broken = record {
  sprig_functions = (text "env", text "env") ∷ (text "upper", text "upper") ∷ [];
  new_template = λ name functions. [];
  parse = λ name src t. err (text "unexpected EOF");
  execute = λ name scope t. ok t;
  execute_value = λ name v t. ok t;
  is_defined = λ name t. true;
  clone = ok;
  marshal_yaml = λ v. ok [];
  marshal_json = λ v. ok [];
  unmarshal_yaml = λ t. ([], none);
  unmarshal_json = λ t. ([], none);
}

abbrev options : Options
options = record {
  partials = record { name = text "_helpers.tpl"; src = text "x" } ∷ [];
  lookup_file = none;
}

broken-render :
    render broken (text "app") (text "y") [] options
    ≡ err (text "_helpers.tpl", text "parse partial: unexpected EOF")
unfolding render
broken-render = refl

get-render_functions_example :
    get (text "env") (render_functions broken.sprig_functions none)
    ≡ function_of broken.sprig_functions none (text "env")
get-render_functions_example = get-render_functions broken.sprig_functions none (text "env")

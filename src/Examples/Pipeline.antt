-- ===== src/Examples/Pipeline.antt =====
-- The theorems on the pipeline, at the example.
use mathlib.Core.List
use flux_dev.Base.{
  All, List, [], drop, false, is_some, length, ok, refl, some, take, true, ◌++◌, ◌↔◌, ◌∷◌, ◌≡◌, ◌≤◌,
}
use flux_dev.Dict.{Dict, get, keys, overlay, put}
use flux_dev.Examples.Setup.{
  aliases, directories, libraries, list_of, live, no_polls, scope, steps_spec, variable,
}
use flux_dev.Pipeline.Compile.{Step, compile, compile_step, eval_step, run, step_name}
use flux_dev.Pipeline.Compile.Outputs.{run-compile-keys, run-prefix}
use flux_dev.Pipeline.Compile.Progress.{run-compile_sound}
use flux_dev.Pipeline.Compile.Sound.{dangling}
use flux_dev.Pipeline.Compile.Wiring.{AllWired, compile-AllWired}
use flux_dev.Pipeline.Core.{File, Scope, sorted_keys}
use flux_dev.Pipeline.Expr.{eval_key, new_key_expr, with_outputs}
use flux_dev.Pipeline.Filter.{
  compile_filter, eval_filter, eval_predicate, filter_items, filter_value, truthy_string,
}
use flux_dev.Pipeline.Filter.Laws.{AllDecided, filter_items_iff, item_test, select}
use flux_dev.Pipeline.Group.{add_to_bucket, bucket_of, group_items}
use flux_dev.Pipeline.Group.Laws.{Keyed, group_items-buckets, keyed}
use flux_dev.Pipeline.Load.{
  compile_load, eval_load, expand_glob, key_items, read_decode, read_limited,
}
use flux_dev.Pipeline.Load.Laws.{Labelled, key_items-all, read_limited-whole}
use flux_dev.Pipeline.MapVerb.{eval_map, map_entries, map_items, render_item}
use flux_dev.Pipeline.MergeVerb.{compile_merge, eval_merge, merge_outputs}
use flux_dev.Pipeline.SourceRef.{has_glob_meta, split_source_ref, validate_glob}
use flux_dev.Pipeline.SourceRef.Laws.{IsSourceRef, split_source_ref_iff}
use flux_dev.Text.{Distinct, Text, contains_any, has, index_byte, starts_with, text, ◌==◌}
use flux_dev.Text.Order.{sort}
use flux_dev.Text.Split.{split}
use flux_dev.Text.Trim.{trim_space}
use flux_dev.Tree.{Value, entries, fields_of, items, items_of, string}
use flux_dev.Tree.Merge.{clone_fields, deep_clone, deep_merge, merge_entries}

abbrev steps : List Step
steps = list_of (compile libraries steps_spec aliases)

abbrev outputs : Dict Value
outputs = list_of (run libraries live steps directories [])

steps-compile : compile libraries steps_spec aliases ≡ ok steps
unfolding compile compile_step compile_load compile_filter compile_merge get split_source_ref
    starts_with index_byte ◌==◌ has validate_glob split new_key_expr
steps-compile = refl

compile-AllWired_example :
    AllWired aliases [] steps
    × (List.map step_name steps ≡ text "files" ∷ text "kept" ∷ text "all" ∷ [])
compile-AllWired_example = compile-AllWired libraries steps_spec aliases steps steps-compile

steps-run : run libraries live steps directories [] ≡ ok outputs
unfolding compile compile_step compile_load compile_filter compile_merge get split_source_ref
    starts_with index_byte ◌==◌ has validate_glob split new_key_expr run eval_step eval_load
    eval_filter eval_merge eval_map trim_space put overlay entries fields_of items items_of keys
    sort merge_outputs map_items render_item map_entries group_items add_to_bucket key_items
    read_limited eval_key eval_predicate truthy_string filter_value with_outputs deep_merge
    deep_clone clone_fields merge_entries sorted_keys expand_glob has_glob_meta contains_any
    read_decode
steps-run = refl

directories_fetched : All (λ k. is_some (get k directories) ≡ true) aliases
unfolding get ◌==◌
directories_fetched = (refl, tt)

run-compile_sound_example : dangling (run libraries live steps directories []) ≡ false
run-compile_sound_example =
    run-compile_sound libraries live steps_spec aliases steps directories [] steps-compile
      directories_fetched

run-compile-keys_example : keys outputs ≡ text "files" ∷ text "kept" ∷ text "all" ∷ []
run-compile-keys_example =
    run-compile-keys libraries live steps_spec aliases steps directories [] outputs steps-compile
      steps-run

steps_split_compile : compile libraries steps_spec aliases ≡ ok (take 1 steps ++ drop 1 steps)
unfolding compile compile_step compile_load compile_filter compile_merge get split_source_ref
    starts_with index_byte ◌==◌ has validate_glob split new_key_expr
steps_split_compile = refl

steps_split_run : run libraries live (take 1 steps ++ drop 1 steps) directories [] ≡ ok outputs
unfolding compile compile_step compile_load compile_filter compile_merge get split_source_ref
    starts_with index_byte ◌==◌ has validate_glob split new_key_expr run eval_step eval_load
    eval_filter eval_merge eval_map trim_space put overlay entries fields_of items items_of keys
    sort merge_outputs map_items render_item map_entries group_items add_to_bucket key_items
    read_limited eval_key eval_predicate truthy_string filter_value with_outputs deep_merge
    deep_clone clone_fields merge_entries sorted_keys expand_glob has_glob_meta contains_any
    read_decode
steps_split_run = refl

files_in_prefix : has (text "files") (List.map step_name (take 1 steps)) ≡ true
unfolding compile compile_step compile_load compile_filter compile_merge get split_source_ref
    starts_with index_byte ◌==◌ has validate_glob split new_key_expr
files_in_prefix = refl

run-prefix_example :
    (mid : Dict Value) × (run libraries live (take 1 steps) directories [] ≡ ok mid)
    × (get (text "files") outputs ≡ get (text "files") mid)
run-prefix_example =
    run-prefix libraries live steps_spec aliases (take 1 steps) (drop 1 steps) directories []
      outputs (text "files") steps_split_compile steps_split_run files_in_prefix

abbrev words : List Value
words = string (text "true") ∷ string (text "false") ∷ string (text "true") ∷ []

abbrev true_word : List Value
true_word = string (text "true") ∷ string (text "true") ∷ []

filter_items_iff_example :
    (filter_items no_polls (variable (text "value")) scope 0 words ≡ ok true_word) ↔ (
      AllDecided no_polls (variable (text "value")) scope 0 words
      × (true_word ≡ select (item_test (variable (text "value")) scope) 0 words))
filter_items_iff_example =
    filter_items_iff no_polls (variable (text "value")) scope 0 words true_word

words_rendered : map_items libraries no_polls (variable (text "value")) scope 0 words ≡ ok words
unfolding compile compile_step compile_load compile_filter compile_merge get split_source_ref
    starts_with index_byte ◌==◌ has validate_glob split new_key_expr run eval_step eval_load
    eval_filter eval_merge eval_map trim_space put overlay entries fields_of items items_of keys
    sort merge_outputs map_items render_item map_entries group_items add_to_bucket key_items
    read_limited eval_key eval_predicate truthy_string filter_value with_outputs deep_merge
    deep_clone clone_fields merge_entries sorted_keys expand_glob has_glob_meta contains_any
    read_decode
words_rendered = refl

abbrev entry : Dict Value
entry = (text "k", string (text "v")) ∷ []

abbrev buckets : Dict Value
buckets = list_of (group_items no_polls (variable (text "value")) scope 0 words [])

words_grouped : group_items no_polls (variable (text "value")) scope 0 words [] ≡ ok buckets
unfolding compile compile_step compile_load compile_filter compile_merge get split_source_ref
    starts_with index_byte ◌==◌ has validate_glob split new_key_expr run eval_step eval_load
    eval_filter eval_merge eval_map trim_space put overlay entries fields_of items items_of keys
    sort merge_outputs map_items render_item map_entries group_items add_to_bucket key_items
    read_limited eval_key eval_predicate truthy_string filter_value with_outputs deep_merge
    deep_clone clone_fields merge_entries sorted_keys expand_glob has_glob_meta contains_any
    read_decode
words_grouped = refl

group_items-buckets_example :
    (its : List (Text × Value)) × Keyed no_polls (variable (text "value")) scope 0 words its
    × ((k : Text) → bucket_of (get k buckets) ≡ bucket_of (get k []) ++ keyed k its)
group_items-buckets_example =
    group_items-buckets no_polls (variable (text "value")) scope 0 words [] buckets words_grouped

abbrev files : List (Text × Value)
files = (text "a.txt", string (text "1")) ∷ (text "b.txt", string (text "2")) ∷ []

files_keyed : key_items (variable (text "path")) scope files [] ≡ ok files
unfolding compile compile_step compile_load compile_filter compile_merge get split_source_ref
    starts_with index_byte ◌==◌ has validate_glob split new_key_expr run eval_step eval_load
    eval_filter eval_merge eval_map trim_space put overlay entries fields_of items items_of keys
    sort merge_outputs map_items render_item map_entries group_items add_to_bucket key_items
    read_limited eval_key eval_predicate truthy_string filter_value with_outputs deep_merge
    deep_clone clone_fields merge_entries sorted_keys expand_glob has_glob_meta contains_any
    read_decode
files_keyed = refl

no_keys : Distinct (keys {V = Value} [])
unfolding keys
no_keys = tt

key_items-all_example :
    (keyed : List (Text × Value)) × Labelled (variable (text "path")) scope files keyed
    × (files ≡ [] ++ keyed)
    × Distinct (keys files)
key_items-all_example =
    key_items-all (variable (text "path")) scope files [] files no_keys files_keyed

abbrev file : File
file = record { stat = ok (record { is_regular = true; size = 3 }); read = ok (text "abc") }

file_read : read_limited 10 (text "a.txt") file ≡ ok (text "abc")
unfolding compile compile_step compile_load compile_filter compile_merge get split_source_ref
    starts_with index_byte ◌==◌ has validate_glob split new_key_expr run eval_step eval_load
    eval_filter eval_merge eval_map trim_space put overlay entries fields_of items items_of keys
    sort merge_outputs map_items render_item map_entries group_items add_to_bucket key_items
    read_limited eval_key eval_predicate truthy_string filter_value with_outputs deep_merge
    deep_clone clone_fields merge_entries sorted_keys expand_glob has_glob_meta contains_any
    read_decode
file_read = refl

read_limited-whole_example : (file.read ≡ ok (text "abc")) × (length (text "abc") ≤ 10)
read_limited-whole_example = read_limited-whole 10 (text "a.txt") file (text "abc") file_read

split_source_ref_iff_example :
    (split_source_ref (text "@main/a.txt") ≡ some (text "main", text "a.txt"))
    ↔ IsSourceRef (text "@main/a.txt") (text "main") (text "a.txt")
split_source_ref_iff_example =
    split_source_ref_iff (text "@main/a.txt") (text "main") (text "a.txt")

abbrev stocked : Scope
stocked = record { sources = []; values = []; outputs = entry }

entry-keys : Distinct (keys entry)
unfolding keys has
entry-keys = (refl, tt)

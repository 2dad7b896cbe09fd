-- ===== src/Pipeline/Load.antt =====
-- internal/pipeline/load.go: reading files of a source artifact.
pub mod Laws
use mathlib.Core.List.{map}
use flux_dev.Base.{
  ℕ, zero, suc, ◌+◌, ◌*◌, ◌≡◌, Bool, true, false, not, ◌&&◌, ◌||◌, Option, none, some, List, [],
  ◌∷◌, Result, ok, err, found, wrap, guard, ◌>>=◌, ◌>>◌, ltb, length, take, if◌then◌else◌,
}
use flux_dev.Text.{Text, text, ◌==◌, has}
use flux_dev.Text.Order.{sort}
use flux_dev.Dict.{Dict, get, put}
use flux_dev.Tree.{Value, string, bytes, list, items_of, object}
use flux_dev.Api.{
  LoadStep, PipelineStep, load_format_yaml, load_format_json, load_format_text, load_format_raw,
  load_as_list, load_as_map,
}
use flux_dev.Pipeline.Core.{
  Error, external, at_field, at_key, unknown_alias, invalid_from, unsupported_format,
  key_expr_missing, key_expr_unexpected, key_expr_is_nil, no_artifact, not_regular, over_limit,
  grew_over_limit, not_one_file, duplicate_key, Template, File, Libraries, poll, Scope,
}
use flux_dev.Pipeline.Expr.{new_key_expr, eval_key}
use flux_dev.Pipeline.SourceRef.{split_source_ref, validate_glob, has_glob_meta}

-- 10 << 20
abbrev pub max_load_file_bytes : ℕ
max_load_file_bytes = 10 * 1048576

-- `loadStep`
pub record CompiledLoad : Type 0 where
  pub name : Text
  pub alias : Text
  pub pattern : Text
  pub format : Text
  pub as_map : Bool
  pub key_expr : Option Template

-- `if s == "" { s = default }`
abbrev pub or_default : Text → Text → Text
or_default s default = if s == [] then default else s

abbrev pub formats : List Text
formats = load_format_yaml ∷ load_format_json ∷ load_format_text ∷ load_format_raw ∷ []

-- The `keyExpr` part of compileLoad.
unfoldable pub compile_key_expr : Libraries → Text → Bool → Text → Result Error (Option Template)
compile_key_expr lib name true expr =
    if expr == []
    then err key_expr_missing
    else do ke ← wrap (at_field (text "keyExpr")) (new_key_expr lib name expr); ok (some ke)
compile_key_expr lib name false expr = if expr == [] then ok none else err key_expr_unexpected

unfoldable pub compile_load : Libraries → Text → LoadStep → List Text → Result Error CompiledLoad
unfolding compile_key_expr
compile_load lib name ls aliases = do
  (alias, pattern) ← found (split_source_ref ls.from) (invalid_from ls.from)
  guard (has alias aliases) (unknown_alias alias)
  validate_glob pattern
  let format = or_default ls.format load_format_yaml
  guard (has format formats) (unsupported_format format)
  let as_map = or_default ls.shape load_as_list == load_as_map
  key_expr ← compile_key_expr lib name as_map ls.key_expr
  ok (record {
    name = name;
    alias = alias;
    pattern = pattern;
    format = format;
    as_map = as_map;
    key_expr = key_expr;
  })

unfoldable pub expand_glob : Libraries → Text → Text → Result Error (List Text)
expand_glob lib dir pattern =
    if not (has_glob_meta pattern)
    then (do
      info ← wrap external (lib.stat dir pattern)
      guard info.is_regular (not_regular pattern)
      ok (pattern ∷ []))
    else do matches ← wrap external (lib.glob dir pattern); ok (sort matches)

unfoldable pub decode : Libraries → Text → List ℕ → Result Error Value
decode lib format data_read =
    if format == load_format_yaml
    then wrap external (lib.parse_yaml data_read)
    else if format == load_format_json
    then wrap external (lib.parse_json data_read)
    else if format == load_format_text
    then ok (string data_read)
    else if format == load_format_raw
    then ok (bytes data_read)
    else err (unsupported_format format)

-- The reads of readDecode, before it decodes: `limit` is maxLoadFileBytes, and io.LimitReader
-- hands out one byte more.
unfoldable pub read_limited : ℕ → Text → File → Result Error (List ℕ)
read_limited limit rel f = do
  info ← wrap external f.stat
  guard info.is_regular (not_regular rel)
  guard (not (ltb limit info.size)) (over_limit rel)
  content ← wrap external f.read
  let data_read = take (suc limit) content
  guard (not (ltb limit (length data_read))) (grew_over_limit rel)
  ok data_read

unfoldable pub read_decode : Libraries → Text → Text → Text → Result Error Value
unfolding read_limited decode
read_decode lib dir rel format = do
  f ← wrap external (lib.open_file dir rel)
  data_read ← read_limited max_load_file_bytes rel f
  decode lib format data_read

-- The first loop of Eval: the relative path and the value of each match.
unfoldable pub read_all :
    Libraries → (ℕ → Option Text) → Text → Text → ℕ → List Text → Result Error (List (Text × Value))
read_all lib polls dir format i [] = ok []
read_all lib polls dir format i (rel ∷ matches) = do
  poll (polls i)
  v ← read_decode lib dir rel format
  rest ← read_all lib polls dir format (suc i) matches
  ok ((rel, v) ∷ rest)

-- The loop that keys the values; `result` is the map so far.
unfoldable pub key_items :
    Template → Scope → List (Text × Value) → Dict Value → Result Error (Dict Value)
key_items key_expr scope [] result = ok result
key_items key_expr scope ((rel, v) ∷ its) result = do
  key ←
      wrap (at_key (text "keyExpr") rel) (eval_key key_expr ((text "path", string rel) ∷ []) scope)
  elim (get key result) [
    | some _ ↦ err (duplicate_key key rel)
    | none ↦ key_items key_expr scope its (put key v result)
  ]

unfoldable pub shape_items : CompiledLoad → Scope → List (Text × Value) → Result Error Value
unfolding key_items
shape_items s scope its =
    if s.as_map
    then (do
      key_expr ← found s.key_expr key_expr_is_nil
      result ← key_items key_expr scope its []
      ok (object result))
    else ok (list (items_of (map (λ it. it.1) its)))

unfoldable pub eval_load : Libraries → (ℕ → Option Text) → CompiledLoad → Scope → Result Error Value
unfolding expand_glob read_all shape_items
eval_load lib polls s scope = do
  dir ← found (get s.alias scope.sources) (no_artifact s.alias)
  matches ← expand_glob lib dir s.pattern
  elim (has_glob_meta s.pattern) [
    | true ↦ (do its ← read_all lib polls dir s.format 0 matches; shape_items s scope its)
    | false ↦ elim matches [
      | rel ∷ [] ↦ read_decode lib dir rel s.format
      | other ↦ err (not_one_file s.pattern (length other))
    ]
  ]

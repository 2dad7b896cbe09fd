-- ===== src/Pipeline/Compile/Wiring.antt =====
-- What holds of the steps that Compile returns.
use mathlib.Core.List
use mathlib.Core.Path.{subst}
use flux_dev.Api.{PipelineStep, FilterStep, GroupStep, LoadStep, MapStep, MergeStep}
use flux_dev.Base.{
  ◌>>=◌, Result, err, Option-cases, inl, inr, All, Bool, List, Option, [], arith, false, is_some,
  ok, refl, true, ◌∷◌, ◌≡◌,
}
use flux_dev.Pipeline.Compile.{
  compile, compile_step, compile_from, Step, filter, group, load, map, merge, step_name,
}
use flux_dev.Pipeline.Core.{Error, Libraries, Template, values_key}
use flux_dev.Pipeline.Filter.{CompiledFilter, compile_filter}
use flux_dev.Pipeline.Group.{CompiledGroup, compile_group}
use flux_dev.Pipeline.Load.{CompiledLoad, compile_key_expr, compile_load, formats}
use flux_dev.Pipeline.MapVerb.{CompiledMap, compile_map}
use flux_dev.Pipeline.MergeVerb.{CompiledMerge, check_from, compile_merge}
use flux_dev.Pipeline.SourceRef.{validate_glob}
use flux_dev.Text.{Distinct, Text, has, text, ◌==◌}
use flux_dev.Text.Equality.{eq_iff, has_head}
use flux_dev.Text.Split.{split}

-- Every name that a step refers to is declared before it: `seen` are the names of the steps above
-- it. A load has a known alias and format, a glob that stays inside, and a key template if and only
-- if it builds a map.
abbrev pub IsWired : List Text → List Text → Step → Type 0
IsWired aliases seen (load s) =
    (has s.alias aliases ≡ true)
    × (has s.format formats ≡ true)
    × (has (text "..") (split s.pattern b'/') ≡ false)
    × (is_some s.key_expr ≡ s.as_map)
IsWired aliases seen (filter s) = has s.from seen ≡ true
IsWired aliases seen (map s) = has s.from seen ≡ true
IsWired aliases seen (group s) = has s.from seen ≡ true
IsWired aliases seen (merge s) = All (λ n. has n seen ≡ true) s.from × Distinct s.from

-- The steps in order, each under a new name that is not `values`.
abbrev pub AllWired : List Text → List Text → List Step → Type 0
AllWired aliases seen [] = Unit {0}
AllWired aliases seen (s ∷ steps) =
    IsWired aliases seen s
    × (has (step_name s) seen ≡ false)
    × ((step_name s == values_key) ≡ false)
    × AllWired aliases (step_name s ∷ seen) steps

compile_key_expr-is_some :
    (lib : Libraries) (name : Text) (as_map : Bool) (expr : Text) {ke : Option Template}
    → compile_key_expr lib name as_map expr ≡ ok ke
    → is_some ke ≡ as_map
unfolding compile_key_expr
compile_key_expr-is_some lib name true expr h = ground arith
compile_key_expr-is_some lib name false expr h = ground arith

validate_glob-ok :
    (pattern : Text) {u : Unit {0}}
    → validate_glob pattern ≡ ok u
    → has (text "..") (split pattern b'/') ≡ false
unfolding validate_glob
validate_glob-ok pattern h = ground arith

compile_load-IsWired :
    (lib : Libraries) (name : Text) (ls : LoadStep) (aliases seen : List Text) {s : CompiledLoad}
    → compile_load lib name ls aliases ≡ ok s
    → (s.name ≡ name) × IsWired aliases seen (load s)
unfolding compile_load
compile_load-IsWired lib name ls aliases seen {s} h = ground (
  arith,
  validate_glob-ok s.pattern,
  compile_key_expr-is_some lib name s.as_map ls.key_expr {ke = s.key_expr},
)

compile_filter-IsWired :
    (lib : Libraries) (name : Text) (fs : FilterStep) (aliases seen : List Text)
    {s : CompiledFilter}
    → compile_filter lib name fs seen ≡ ok s
    → (s.name ≡ name) × IsWired aliases seen (filter s)
unfolding compile_filter
compile_filter-IsWired lib name fs aliases seen {s} h = ground arith

compile_map-IsWired :
    (lib : Libraries) (name : Text) (ms : MapStep) (aliases seen : List Text) {s : CompiledMap}
    → compile_map lib name ms seen ≡ ok s
    → (s.name ≡ name) × IsWired aliases seen (map s)
unfolding compile_map
compile_map-IsWired lib name ms aliases seen {s} h = ground arith

compile_group-IsWired :
    (lib : Libraries) (name : Text) (gs : GroupStep) (aliases seen : List Text) {s : CompiledGroup}
    → compile_group lib name gs seen ≡ ok s
    → (s.name ≡ name) × IsWired aliases seen (group s)
unfolding compile_group
compile_group-IsWired lib name gs aliases seen {s} h = ground arith

check_from-All :
    (seen dedup names : List Text)
    → check_from seen dedup names ≡ ok tt
    → All (λ n. has n seen ≡ true) names
unfolding check_from
check_from-All seen dedup [] h = tt
check_from-All seen dedup (n ∷ names) h = ground (arith, check_from-All seen (n ∷ dedup) names)

check_from-fresh :
    (k : Text) (seen dedup names : List Text)
    → check_from seen dedup names ≡ ok tt
    → has k dedup ≡ true
    → has k names ≡ false
unfolding check_from has
check_from-fresh k seen dedup [] h d = refl
check_from-fresh k seen dedup (n ∷ names) h d =
    ground (arith, check_from-fresh k seen (n ∷ dedup) names, eq_iff n k)

check_from-Distinct :
    (seen dedup names : List Text) → check_from seen dedup names ≡ ok tt → Distinct names
unfolding check_from
check_from-Distinct seen dedup [] h = tt
check_from-Distinct seen dedup (n ∷ names) h = ground (
  arith,
  check_from-Distinct seen (n ∷ dedup) names,
  check_from-fresh n seen (n ∷ dedup) names,
  has_head n dedup,
)

compile_merge-IsWired :
    (name : Text) (ms : MergeStep) (aliases seen : List Text) {s : CompiledMerge}
    → compile_merge name ms seen ≡ ok s
    → (s.name ≡ name) × IsWired aliases seen (merge s)
unfolding compile_merge
compile_merge-IsWired name ms aliases seen {s} h =
    ground (arith, check_from-All seen [] ms.from, check_from-Distinct seen [] ms.from)

module _ (aliases seen : List Text) (name : Text) where
  abbrev IsNamedWired : Step → Type 0
  IsNamedWired s = (step_name s ≡ name) × IsWired aliases seen s

  compiled :
      {C : Type 0} (m : Result Error C) (step : C → Step)
      → ((c : C) → m ≡ ok c → IsNamedWired (step c))
      → (s : Step) → (m >>= λ c. ok (step c)) ≡ ok s
      → IsNamedWired s
  compiled (ok c) step k s h = subst IsNamedWired (ground arith) (k c refl)
  compiled (err e) step k s h = cc

compile_step-IsWired :
    (lib : Libraries) (ps : PipelineStep) (aliases seen : List Text) (s : Step)
    → compile_step lib ps aliases seen ≡ ok s
    → (step_name s ≡ ps.name) × IsWired aliases seen s
unfolding compile_step
compile_step-IsWired lib ps aliases seen s h = elim (Option-cases ps.load) [
  | inr (ls, e) ↦
      compiled aliases seen ps.name (compile_load lib ps.name ls aliases) load
        (λ c k. compile_load-IsWired lib ps.name ls aliases seen k) s (ground arith)
  | inl no_load ↦ elim (Option-cases ps.filter) [
    | inr (fs, e) ↦
        compiled aliases seen ps.name (compile_filter lib ps.name fs seen) filter
          (λ c k. compile_filter-IsWired lib ps.name fs aliases seen k) s (ground arith)
    | inl no_filter ↦ elim (Option-cases ps.map) [
      | inr (ms, e) ↦
          compiled aliases seen ps.name (compile_map lib ps.name ms seen) map
            (λ c k. compile_map-IsWired lib ps.name ms aliases seen k) s (ground arith)
      | inl no_map ↦ elim (Option-cases ps.group) [
        | inr (gs, e) ↦
            compiled aliases seen ps.name (compile_group lib ps.name gs seen) group
              (λ c k. compile_group-IsWired lib ps.name gs aliases seen k) s (ground arith)
        | inl no_group ↦ elim (Option-cases ps.merge) [
          | inr (ms, e) ↦
              compiled aliases seen ps.name (compile_merge ps.name ms seen) merge
                (λ c k. compile_merge-IsWired ps.name ms aliases seen k) s (ground arith)
          | inl no_merge ↦ absurd (ground arith)
        ]
      ]
    ]
  ]
]

pub compile_from-AllWired :
    (lib : Libraries) (aliases seen : List Text) (spec : List PipelineStep) (steps : List Step)
    → compile_from lib aliases seen spec ≡ ok steps
    → AllWired aliases seen steps × (List.map step_name steps ≡ List.map (λ ps. ps.name) spec)
unfolding compile_from
compile_from-AllWired lib aliases seen [] [] h = (tt, refl)
compile_from-AllWired lib aliases seen [] (s ∷ steps) h = cc
compile_from-AllWired lib aliases seen (ps ∷ spec) [] h = absurd (ground arith)
compile_from-AllWired lib aliases seen (ps ∷ spec) (s ∷ steps) h = ground (
  arith,
  compile_step-IsWired lib ps aliases seen s,
  compile_from-AllWired lib aliases (ps.name ∷ seen) spec steps,
)

-- A pipeline that compiles has its steps in the order of the spec, under names that are all
-- different and none of which is `values`. Each step takes its input from steps above it, and a
-- load names a declared alias, a known format and a pattern without a segment `..`, and has a key
-- template if and only if it builds a map.
pub compile-AllWired :
    (lib : Libraries) (spec : List PipelineStep) (aliases : List Text) (steps : List Step)
    → compile lib spec aliases ≡ ok steps
    → AllWired aliases [] steps × (List.map step_name steps ≡ List.map (λ ps. ps.name) spec)
unfolding compile
compile-AllWired lib spec aliases steps h = compile_from-AllWired lib aliases [] spec steps h

-- ===== src/Controller/Validation/References.antt =====
-- What a spec that passes the checks of its references has: its sources and its values.
use flux_dev.Api.{SourceReference, ValuesReference}
use flux_dev.Base.{
  >>=-eq-ok, All, Bool, List, [], ap, arith, false, guard, not, ok, ok-injective, suc, sym, true,
  wrap, wrap-eq-ok, ℕ, ◌&&◌, ◌||◌, ◌∷◌, ◌≡◌,
}
use flux_dev.Controller.Pipeline.{alias_list}
use flux_dev.Controller.Validation.{
  bad_target_path, check_sources, check_values_from, cross_namespace_source, cross_namespace_values,
  crosses, duplicate_alias,
}
use flux_dev.Text.{Text, has, ◌==◌}
use flux_dev.Text.Equality.{eq_refl}
use flux_dev.Values.{namespace_of, validate_target_path}

-- Without cross-namespace references, the namespace is that of the generator.
abbrev pub StaysHome : Bool → Text → Text → Type 0
StaysHome strict own namespace = (strict && not (namespace_of namespace own == own)) ≡ false

crosses-StaysHome :
    (strict : Bool) (namespace own : Text)
    → not (crosses strict namespace own) ≡ true
    → StaysHome strict own namespace
crosses-StaysHome strict namespace own h = ground (arith, eq_refl own)

-- The aliases are new, and they are those of the sources.
abbrev pub FreshAliases : List Text → List SourceReference → Type 0
FreshAliases seen [] = Unit {0}
FreshAliases seen (src ∷ srcs) = (has src.alias seen ≡ false) × FreshAliases (src.alias ∷ seen) srcs

pub check_sources_ok :
    (strict : Bool) (own : Text) (srcs : List SourceReference) (seen aliases : List Text)
    → check_sources strict own srcs seen ≡ ok aliases
    → FreshAliases seen srcs
      × All (λ src. StaysHome strict own src.namespace) srcs
      × ((k : Text) → has k aliases ≡ (has k (alias_list srcs) || has k seen))
unfolding check_sources alias_list has
check_sources_ok strict own [] seen aliases h =
    (tt, tt, λ k. ap (λ ns. has k ns) (sym (ok-injective h)))
check_sources_ok strict own (src ∷ srcs) seen aliases h =
    let (_, fresh, h1) =
      >>=-eq-ok (guard (not (has src.alias seen)) (duplicate_alias src.alias)) _ h in
    let (_, home, h2) =
      >>=-eq-ok (guard (not (crosses strict src.namespace own)) (cross_namespace_source src.alias))
        _ h1 in
    let (new, homes, names) = check_sources_ok strict own srcs (src.alias ∷ seen) aliases h2 in
    (
      (ground arith, new),
      (crosses-StaysHome strict src.namespace own (ground arith), homes),
      λ k. ground (arith, names k),
    )

pub check_values_from_ok :
    (strict : Bool) (own : Text) (i : ℕ) (refs : List ValuesReference)
    → check_values_from strict own i refs ≡ ok tt
    → All
        (λ ref. StaysHome strict own ref.namespace × (validate_target_path ref.target_path ≡ ok tt))
        refs
unfolding check_values_from
check_values_from_ok strict own i [] h = tt
check_values_from_ok strict own i (ref ∷ refs) h =
    let (u, path, h1) =
      >>=-eq-ok (wrap (bad_target_path i) (validate_target_path ref.target_path)) _ h in
    let (_, home, h2) =
      >>=-eq-ok (guard (not (crosses strict ref.namespace own)) (cross_namespace_values ref.name)) _
        h1 in
    (
      (
        crosses-StaysHome strict ref.namespace own (ground arith),
        wrap-eq-ok (bad_target_path i) _ path,
      ),
      check_values_from_ok strict own (suc i) refs h2,
    )

-- ===== src/Values/Precedence.antt =====
-- Which contribution decides a value: a later reference over an earlier one, and the inline values
-- over every reference.
use flux_dev.Api.{ManifestGenerator, ValuesReference}
use flux_dev.Base.{
  >>=-eq-ok, All, List, Option, Result, [], ap, arith, none, ok, ok-injective, refl, some, suc, sym,
  true, wrap, wrap-eq-ok, ℕ, ◌++◌, ◌∙◌, ◌∷◌, ◌≡◌,
}
use flux_dev.Text.{Text}
use flux_dev.Tree.{Fields, Value, as_fields, end, map}
use flux_dev.Tree.Merge.{deep_merge, merge_fields}
use flux_dev.Tree.Path.{at, deep_merge_inherit, deep_merge_override, is_silent}
use flux_dev.Tree.Unique.{IsUnique}
use flux_dev.Values.{
  Error, Resolver, add_contribution, at_reference, decode_inline, resolve, resolve_inline,
  resolve_one, resolve_refs,
}
use mathlib.Core.Path.{subst}

merge_fields-deep_merge : (am bm : Fields) → map (merge_fields am bm) ≡ deep_merge (map am) (map bm)
unfolding merge_fields deep_merge
merge_fields-deep_merge am bm = refl

merge_fields_override :
    (path : List Text) (am bm : Fields) (v : Value)
    → IsUnique (map bm)
    → as_fields v ≡ none
    → at path (map bm) ≡ some v
    → at path (map (merge_fields am bm)) ≡ some v
merge_fields_override path am bm v u n e =
    rw (merge_fields-deep_merge am bm) (deep_merge_override path (map am) (map bm) v u n e)

merge_fields_inherit :
    (path : List Text) (am bm : Fields)
    → IsUnique (map bm)
    → is_silent path (map bm) ≡ true
    → at path (map (merge_fields am bm)) ≡ at path (map am)
merge_fields_inherit path am bm u h =
    rw (merge_fields-deep_merge am bm) (deep_merge_inherit path (map am) (map bm) u h)

-- What a reference contributes; an optional one that is skipped contributes an empty map.
abbrev pub contribution_of : Result Error (Option Fields) → Fields
contribution_of (ok (some c)) = c
contribution_of _ = end

-- What the reference contributes has distinct keys and says nothing at the path.
abbrev pub LeavesAlone : Resolver → Text → List Text → ValuesReference → Type 0
LeavesAlone r own path ref =
    let c = contribution_of (resolve_one r ref own) in
    IsUnique (map c) × (is_silent path (map c) ≡ true)

resolve_refs-keeps :
    (r : Resolver) (own : Text) (path : List Text) (i : ℕ) (refs : List ValuesReference)
    (acc out : Fields)
    → All (LeavesAlone r own path) refs
    → resolve_refs r own i refs acc ≡ ok out
    → at path (map out) ≡ at path (map acc)
unfolding resolve_refs
resolve_refs-keeps r own path i [] acc out quiet h =
    ap (λ fs. at path (map fs)) (sym (ok-injective h))
resolve_refs-keeps r own path i (ref ∷ refs) acc out quiet h =
    let (c, first, rest) = >>=-eq-ok (wrap (at_reference i) (resolve_one r ref own)) _ h in
    resolve_refs-keeps r own path (suc i) refs (add_contribution acc c) out quiet.1 rest
    ∙ contribution c (wrap-eq-ok (at_reference i) _ first)
  where
    contribution :
        (c : Option Fields)
        → resolve_one r ref own ≡ ok c
        → at path (map (add_contribution acc c)) ≡ at path (map acc)
    contribution none e = refl
    contribution (some c) e =
        merge_fields_inherit path acc c
          (subst (λ m. IsUnique (map (contribution_of m))) e quiet.0.0)
          (ap (λ m. is_silent path (map (contribution_of m))) (sym e) ∙ quiet.0.1)

-- In the order of spec.valuesFrom, what a reference contributes at a path, other than a map, is
-- what the resolved references hold there, when every later reference leaves the path alone: what
-- it contributes is silent at the path. Every map that these references contribute has distinct
-- keys.
pub resolve_refs-later_wins :
    (r : Resolver) (own : Text) (path : List Text) (i : ℕ) (before after : List ValuesReference)
    (ref : ValuesReference) (acc contrib out : Fields) (v : Value)
    → resolve_refs r own i (before ++ ref ∷ after) acc ≡ ok out
    → resolve_one r ref own ≡ ok (some contrib)
    → IsUnique (map contrib)
    → as_fields v ≡ none
    → at path (map contrib) ≡ some v
    → All (LeavesAlone r own path) after
    → at path (map out) ≡ some v
unfolding resolve_refs
resolve_refs-later_wins r own path i [] after ref acc contrib out v h one u n e quiet =
    resolve_refs-keeps r own path (suc i) after (merge_fields acc contrib) out quiet
      (ground (arith, one))
    ∙ merge_fields_override path acc contrib v u n e
resolve_refs-later_wins r own path i (b ∷ before) after ref acc contrib out v h one u n e quiet =
    let (c, first, rest) = >>=-eq-ok (wrap (at_reference i) (resolve_one r b own)) _ h in
    resolve_refs-later_wins r own path (suc i) before after ref (add_contribution acc c) contrib out
      v rest one u n e quiet

resolve_inline_ok :
    (r : Resolver) (b : ℕ) (raw : List ℕ) (acc inline : Fields)
    → r.parse_yaml (b ∷ raw) ≡ ok (map inline)
    → resolve_inline r (some (b ∷ raw)) acc ≡ ok (merge_fields acc inline)
unfolding resolve_inline decode_inline
resolve_inline_ok r b raw acc inline h = rw h refl

-- Where the inline values, a map whose maps have distinct keys, hold something other than a map at
-- a path, the resolved values hold it there, whatever the references contribute.
pub resolve-inline_wins :
    (r : Resolver) (mg : ManifestGenerator) (b : ℕ) (raw : List ℕ) (inline out : Fields)
    (path : List Text) (v : Value)
    → mg.spec.values ≡ some (b ∷ raw)
    → r.parse_yaml (b ∷ raw) ≡ ok (map inline)
    → IsUnique (map inline)
    → as_fields v ≡ none
    → at path (map inline) ≡ some v
    → resolve r mg ≡ ok out
    → at path (map out) ≡ some v
unfolding resolve
resolve-inline_wins r mg b raw inline out path v present parsed u n e h =
    let (acc, refs, rest) = >>=-eq-ok (resolve_refs r mg.namespace 0 mg.spec.values_from end) _ h in
    ap (λ fs. at path (map fs))
      (ok-injective (
        sym rest
        ∙ ap (λ o. resolve_inline r o acc) present
        ∙ resolve_inline_ok r b raw acc inline parsed))
    ∙ merge_fields_override path acc inline v u n e

-- ===== src/Values/Access.antt =====
-- References to other namespaces.
use flux_dev.Api.{ManifestGenerator, ValuesReference}
use flux_dev.Base.{>>=-cong, List, Result, [], ap, arith, refl, suc, true, wrap, ℕ, ◌>>=◌, ◌∷◌, ◌≡◌}
use flux_dev.Dict.{Dict}
use flux_dev.Text.{Text, ◌==◌}
use flux_dev.Text.Equality.{eq_iff}
use flux_dev.Tree.{Fields, end}
use flux_dev.Values.{
  ReadError, Resolver, add_contribution, at_reference, decode_inline, namespace_of, resolve,
  resolve_inline, resolve_one, resolve_refs, select_content, use_content,
}

-- The same resolver with another reader.
abbrev pub reading : Resolver → (Text → Text → Result ReadError (Dict Text)) → Resolver
reading r reader = record r { reader = reader }

module _ (r : Resolver) (f g : Text → Text → Result ReadError (Dict Text)) (own : Text)
    (strict : r.no_cross_namespace_refs ≡ true)
    (same : (name : Text) → f own name ≡ g own name) where
  read_own :
      (namespace name : Text) → (namespace == own) ≡ true → f namespace name ≡ g namespace name
  read_own namespace name e = rw ((eq_iff namespace own).0 e) (same name)

  use_content-reading :
      (ref : ValuesReference) (content : Dict Text)
      → use_content (reading r f) ref content ≡ use_content (reading r g) ref content
  unfolding use_content select_content
  use_content-reading ref content = refl

  resolve_one-confined :
      (ref : ValuesReference)
      → resolve_one (reading r f) ref own ≡ resolve_one (reading r g) ref own
  unfolding resolve_one use_content select_content
  resolve_one-confined ref = ground (arith, read_own (namespace_of ref.namespace own) ref.name)

  resolve_refs-confined :
      (i : ℕ) (refs : List ValuesReference) (out : Fields)
      → resolve_refs (reading r f) own i refs out ≡ resolve_refs (reading r g) own i refs out
  unfolding resolve_refs
  resolve_refs-confined i [] out = refl
  resolve_refs-confined i (ref ∷ refs) out =
      >>=-cong (ap (wrap (at_reference i)) (resolve_one-confined ref))
        (λ c. resolve_refs-confined (suc i) refs (add_contribution out c))

-- Where cross-namespace references are forbidden, the resolved values, or the error, depend on the
-- ConfigMaps of the namespace of the generator alone.
pub resolve-confined :
    (r : Resolver) (f g : Text → Text → Result ReadError (Dict Text)) (mg : ManifestGenerator)
    → r.no_cross_namespace_refs ≡ true
    → ((name : Text) → f mg.namespace name ≡ g mg.namespace name)
    → resolve (reading r f) mg ≡ resolve (reading r g) mg
unfolding resolve decode_inline
resolve-confined r f g mg strict same =
    ap (λ m. m >>= λ out. resolve_inline (reading r f) mg.spec.values out)
      (resolve_refs-confined r f g mg.namespace strict same 0 mg.spec.values_from end)

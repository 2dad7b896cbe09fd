-- ===== src/Controller/Validation/Resolution.antt =====
-- After validation, the resolution of the values is never refused access.
use flux_dev.Api.{ManifestGenerator, ValuesReference}
use flux_dev.Base.{
  All, Bool, List, Option, Result, Result-cases, [], arith, err, false, inl, inr, none, ok, refl,
  some, suc, wrap, ℕ, ◌>>=◌, ◌∷◌, ◌≡◌,
}
use flux_dev.Controller.Pipeline.{handle_values_error, requeue_source_fetch_failed, resolve_values}
use flux_dev.Controller.Validation.{Validator, validate_spec}
use flux_dev.Controller.Validation.Laws.{validate_spec_ok}
use flux_dev.Controller.Validation.References.{StaysHome}
use flux_dev.Dict.{Dict}
use flux_dev.Text.{Text}
use flux_dev.Tree.{Fields, Value, end}
use flux_dev.Values.{
  Resolver, add_contribution, at_reference, decode_inline, is_access, namespace_of, place_at_path,
  place_content, resolve, resolve_inline, resolve_one, resolve_refs, select_content, use_content,
}
use flux_dev.Values

-- The outcome is an access error.
abbrev pub refused {ℓ} : {A : Type ℓ} → Result Values.Error A → Bool
refused (ok a) = false
refused (err e) = is_access e

refused-bind {ℓ κ} :
    {A : Type ℓ} {B : Type κ} (m : Result Values.Error A) (f : A → Result Values.Error B)
    → refused m ≡ false
    → ((a : A) → refused (f a) ≡ false)
    → refused (m >>= f) ≡ false
refused-bind (ok a) f h k = k a
refused-bind (err e) f h k = h

place_at_path-granted : (path : Text) (v : Value) → refused (place_at_path path v) ≡ false
unfolding place_at_path
place_at_path-granted path v = ground arith

decode_inline-granted : (r : Resolver) (raw : List ℕ) → refused (decode_inline r raw) ≡ false
unfolding decode_inline
decode_inline-granted r raw = ground arith

select_content-granted :
    (r : Resolver) (content : Dict Text) (ref : ValuesReference)
    → refused (select_content r content ref) ≡ false
unfolding select_content
select_content-granted r content ref = ground arith

use_content-granted :
    (r : Resolver) (ref : ValuesReference) (content : Dict Text)
    → refused (use_content r ref content) ≡ false
unfolding use_content place_content
use_content-granted r ref content = elim (Result-cases (select_content r content ref)) [
  | inl (v, e) ↦ ground (arith, place_at_path-granted ref.target_path v)
  | inr (m, e) ↦ ground (arith, select_content-granted r content ref)
]

resolve_one-granted :
    (r : Resolver) (ref : ValuesReference) (own : Text)
    → StaysHome r.no_cross_namespace_refs own ref.namespace
    → refused (resolve_one r ref own) ≡ false
unfolding resolve_one
resolve_one-granted r ref own home =
    elim (Result-cases (r.reader (namespace_of ref.namespace own) ref.name)) [
      | inl (content, e) ↦ ground (arith, use_content-granted r ref content)
      | inr (m, e) ↦ ground arith
    ]

resolve_refs-granted :
    (r : Resolver) (own : Text) (i : ℕ) (refs : List ValuesReference) (out : Fields)
    → All (λ ref. StaysHome r.no_cross_namespace_refs own ref.namespace) refs
    → refused (resolve_refs r own i refs out) ≡ false
unfolding resolve_refs
resolve_refs-granted r own i [] out h = refl
resolve_refs-granted r own i (ref ∷ refs) out h =
    refused-bind (wrap (at_reference i) (resolve_one r ref own)) _
      (ground (arith, resolve_one-granted r ref own h.0))
      λ c. resolve_refs-granted r own (suc i) refs (add_contribution out c) h.1

resolve_inline-granted :
    (r : Resolver) (raw : Option (List ℕ)) (out : Fields)
    → refused (resolve_inline r raw out) ≡ false
unfolding resolve_inline
resolve_inline-granted r none out = refl
resolve_inline-granted r (some []) out = refl
resolve_inline-granted r (some (b ∷ raw)) out = ground (arith, decode_inline-granted r (b ∷ raw))

resolve-granted :
    (r : Resolver) (mg : ManifestGenerator)
    → All
        (λ ref. StaysHome r.no_cross_namespace_refs mg.namespace ref.namespace)
        mg.spec.values_from
    → refused (resolve r mg) ≡ false
unfolding resolve
resolve-granted r mg h =
    refused-bind (resolve_refs r mg.namespace 0 mg.spec.values_from end) _
      (resolve_refs-granted r mg.namespace 0 mg.spec.values_from end h)
      λ out. resolve_inline-granted r mg.spec.values out

resolve_values-granted :
    (r : Resolver) (mg : ManifestGenerator)
    → All
        (λ ref. StaysHome r.no_cross_namespace_refs mg.namespace ref.namespace)
        mg.spec.values_from
    → refused (resolve_values r mg) ≡ false
unfolding resolve_values
resolve_values-granted r mg h = ground (arith, resolve-granted r mg h)

-- When a generator has passed the validation, under the same setting of cross-namespace references,
-- a failed resolution of its values is never an access error: it is tried again.
pub validate_spec-resolve_values :
    (v : Validator) (mg : ManifestGenerator) (r : Resolver) (e : Values.Error)
    → r.no_cross_namespace_refs ≡ v.no_cross_namespace_refs
    → validate_spec v mg ≡ ok tt
    → resolve_values r mg ≡ err e
    → handle_values_error e ≡ requeue_source_fetch_failed
unfolding handle_values_error
validate_spec-resolve_values v mg r e same valid h =
    ground
      (arith, resolve_values-granted r mg (rw same (validate_spec_ok v mg valid).values_stay_home))

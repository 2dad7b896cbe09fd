-- ===== src/Builder/Reference/Laws.antt =====
-- The three readers of a template's source reference agree: splitSourceRef of the pipeline,
-- parseSourceRef of the builder and templateSourceAlias of the validation.
use flux_dev.Base.{
  Option-cases, [], arith, drop, eqb, err, false, if◌then◌else◌, inl, inr, length, none, not, ok,
  refl, some, suc, take, true, zero, ℕ, ◌<◌, ◌↔◌, ◌≡◌, ◌≤◌,
}
use flux_dev.Builder.Core.{artifact_as_source, no_alias_or_path, no_at_sign}
use flux_dev.Builder.Reference.{parse_parts, parse_source_ref}
use flux_dev.Controller.Validation.{template_source_alias}
use flux_dev.Pipeline.SourceRef.{split_body, split_source_ref}
use flux_dev.Pipeline.SourceRef.Laws.{
  IsSourceRef, drop-length, drop-nil, length-index, split_source_ref_iff, take-pos,
}
use flux_dev.Text.{Text, index_byte, starts_with, text, ◌==◌}
use flux_dev.Text.Equality.{eq_iff}
use flux_dev.Text.Split.{split_n2, split_n2-index}

-- The guards on positions are guards on the two halves.
take-eq-nil : (s : Text) (i : ℕ) → i < length s → (take i s == []) ≡ eqb i 0
take-eq-nil s i h = ground (arith, eq_iff (take i s) [], take-pos s i, take_zero s i)
  where
    take_zero : (s : Text) (i : ℕ) → i ≡ 0 → take i s ≡ []
    take_zero s zero e = refl
    take_zero s (suc i) e = absurd (omega arith)

drop-eq-nil : (s : Text) (i : ℕ) → i ≤ length s → (drop i s == []) ≡ eqb i (length s)
drop-eq-nil s i h = ground (arith, eq_iff (drop i s) [], drop-nil s i, drop-length s i)

split_body-index :
    (body : Text)
    → parse_parts (split_n2 body b'/') ≡ elim (split_body body) [
      | none ↦ err no_alias_or_path
      | some p ↦ if p.0 == text "artifact" then err artifact_as_source else ok p
    ]
unfolding split_body parse_parts
split_body-index body = elim (Option-cases (index_byte body b'/')) [
  | inl e ↦ rw (split_n2-index body b'/', e) refl
  | inr (i, e) ↦ ground (
    arith,
    split_n2-index body b'/',
    take-eq-nil body i,
    drop-eq-nil body (suc i),
    length-index b'/' body i e,
  )
]

parse_source_ref-split_source_ref :
    (ref : Text)
    → parse_source_ref ref ≡ (
        if not (starts_with ref (text "@")) then err no_at_sign else elim (split_source_ref ref) [
          | none ↦ err no_alias_or_path
          | some p ↦ if p.0 == text "artifact" then err artifact_as_source else ok p
        ])
unfolding parse_source_ref split_source_ref
parse_source_ref-split_source_ref ref = ground (arith, split_body-index (drop 1 ref))

parse_source_ref-some :
    (ref : Text) (p : Text × Text)
    → parse_source_ref ref ≡ ok p
    → (split_source_ref ref ≡ some p) × ((p.0 == text "artifact") ≡ false)
parse_source_ref-some ref p h = ground (arith, parse_source_ref-split_source_ref ref)

parse_source_ref_ok :
    (ref : Text) (p : Text × Text)
    → split_source_ref ref ≡ some p
    → (p.0 == text "artifact") ≡ false
    → parse_source_ref ref ≡ ok p
unfolding split_source_ref parse_source_ref
parse_source_ref_ok ref p h n = ground (arith, split_body-index (drop 1 ref))

-- The one well-formed reference that the builder refuses.
pub parse_source_ref_reserved :
    (ref alias path : Text)
    → IsSourceRef ref alias path
    → (alias == text "artifact") ≡ true
    → parse_source_ref ref ≡ err artifact_as_source
unfolding split_source_ref parse_source_ref
parse_source_ref_reserved ref alias path r n =
    ground (arith, split_body-index (drop 1 ref), (split_source_ref_iff ref alias path).1 r)

-- parseSourceRef returns an alias and a path exactly for the reference `@alias/path` whose alias
-- is not empty, has no slash and is not `artifact`, and whose path is not empty.
pub parse_source_ref_iff :
    (ref alias path : Text)
    → (parse_source_ref ref ≡ ok (alias, path))
      ↔ (IsSourceRef ref alias path × ((alias == text "artifact") ≡ false))
parse_source_ref_iff ref alias path = (
  λ h.
      let (e, n) = parse_source_ref-some ref (alias, path) h in
      ((split_source_ref_iff ref alias path).0 e, n),
  λ (r, n). parse_source_ref_ok ref (alias, path) ((split_source_ref_iff ref alias path).1 r) n,
)

-- The validation reads from every reference the alias that splitSourceRef reads, and none where
-- splitSourceRef rejects it.
pub template_source_alias-split_source_ref :
    (ref : Text)
    → template_source_alias ref ≡ elim (split_source_ref ref) [ none ↦ none | some p ↦ some p.0 ]
unfolding template_source_alias split_source_ref split_body
template_source_alias-split_source_ref ref = ground arith

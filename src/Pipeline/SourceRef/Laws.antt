-- ===== src/Pipeline/SourceRef/Laws.antt =====
-- Which references splitSourceRef accepts, and what it returns.
use flux_dev.Base.{
  Bool-cases, Option-cases, [], ap, arith, drop, eqb, eqb_iff, false, inl, inr, length,
  length-append, none, refl, some, suc, take, zero, ℕ, ◌++◌, ◌<◌, ◌↔◌, ◌∙◌, ◌∷◌, ◌≡◌, ◌≢◌, ◌≤◌,
}
use flux_dev.FilePath.{clean}
use flux_dev.Pipeline.SourceRef.{split_body, split_source_ref}
use flux_dev.Text.{Text, contains_byte, index_byte, starts_with, text}
use flux_dev.Text.Split.{drop-append, index_byte-append, index_byte-some, take-append}

-- A well-formed reference: `@`, an alias that is not empty and has no slash, a slash, and a rest
-- that is not empty.
pub record IsSourceRef (ref alias rest : Text) : Type 0 where
  pub shape : ref ≡ text "@" ++ alias ++ b'/' ∷ rest
  pub alias_is_not_empty : alias ≢ []
  pub alias_has_no_slash : contains_byte alias b'/' ≡ false
  pub rest_is_not_empty : rest ≢ []

pub take-pos : (s : Text) (i : ℕ) → 0 < i → i < length s → take i s ≢ []
take-pos s zero p h = absurd (omega arith)
take-pos [] (suc i) p h = absurd (omega arith)
take-pos (a ∷ s) (suc i) p h = cc

split_body-none :
    (body alias rest : Text) → index_byte body b'/' ≡ none → split_body body ≢ some (alias, rest)
unfolding split_body
split_body-none body alias rest e = ground arith

pub drop-nil : (s : Text) (i : ℕ) → drop i s ≡ [] → length s ≤ i
drop-nil [] i h = omega arith
drop-nil (a ∷ s) zero h = cc
drop-nil (a ∷ s) (suc i) h = omega (arith, drop-nil s i h)

pub drop-length : (s : Text) (i : ℕ) → length s ≤ i → drop i s ≡ []
drop-length [] zero h = refl
drop-length [] (suc i) h = refl
drop-length (a ∷ s) zero h = absurd (omega arith)
drop-length (a ∷ s) (suc i) h = drop-length s i (omega arith)

pub length-index : (c : ℕ) (s : Text) (i : ℕ) → index_byte s c ≡ some i → i < length s
unfolding index_byte
length-index c [] i h = cc
length-index c (a ∷ s) zero h = omega arith
length-index c (a ∷ s) (suc i) h = ground (arith, length-index c s i)

split_body-some :
    (body alias rest : Text) (i : ℕ)
    → index_byte body b'/' ≡ some i
    → split_body body ≡ some (alias, rest)
    → (take i body ≡ alias) × (drop (suc i) body ≡ rest) × (0 < i) × (suc i ≢ length body)
unfolding split_body
split_body-some body alias rest i e h = ground arith

pub split_body_sound :
    (body alias rest : Text)
    → split_body body ≡ some (alias, rest)
    → IsSourceRef (b'@' ∷ body) alias rest
split_body_sound body alias rest h = elim (Option-cases (index_byte body b'/')) [
  | inl e ↦ absurd (split_body-none body alias rest e h)
  | inr (i, e) ↦
      let (a, r, pos, inside) = split_body-some body alias rest i e h in
      let (whole, clean) = index_byte-some b'/' body i e in
      record {
        shape = ap (λ t. b'@' ∷ t) (whole ∙ cc);
        alias_is_not_empty = λ empty. take-pos body i pos (length-index b'/' body i e) (a ∙ empty);
        alias_has_no_slash = rw (← a) clean;
        rest_is_not_empty = λ empty.
            inside (omega (arith, drop-nil body (suc i) (r ∙ empty), length-index b'/' body i e));
      }
]

length-pos : (s : Text) → s ≢ [] → 0 < length s
length-pos [] h = absurd (h refl)
length-pos (a ∷ s) h = omega arith

pub split_body_complete :
    (alias rest : Text)
    → alias ≢ []
    → contains_byte alias b'/' ≡ false
    → rest ≢ []
    → split_body (alias ++ b'/' ∷ rest) ≡ some (alias, rest)
unfolding split_body
split_body_complete alias rest a c r = ground (
  arith,
  index_byte-append b'/' alias rest c,
  take-append alias (b'/' ∷ rest),
  drop-append alias rest b'/',
  length-append alias (b'/' ∷ rest),
  length-pos alias a,
  length-pos rest r,
)

-- splitSourceRef returns an alias and a rest exactly for the reference `@alias/rest` whose alias
-- is not empty and has no slash and whose rest is not empty.
pub split_source_ref_iff :
    (ref alias rest : Text)
    → (split_source_ref ref ≡ some (alias, rest)) ↔ IsSourceRef ref alias rest
unfolding split_source_ref starts_with
split_source_ref_iff ref alias rest = (
  sound ref,
  λ r. rw r.shape (
      split_body_complete alias rest r.alias_is_not_empty r.alias_has_no_slash r.rest_is_not_empty),
)
  where
    sound : (s : Text) → split_source_ref s ≡ some (alias, rest) → IsSourceRef s alias rest
    sound [] h = cc
    sound (a ∷ s) h = elim (Bool-cases (eqb a b'@')) [
      | inl at_sign ↦ rw ((eqb_iff a b'@').0 at_sign) (split_body_sound s alias rest (ground arith))
      | inr other ↦ absurd (ground arith)
    ]

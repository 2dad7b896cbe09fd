-- ===== src/Text/Split.antt =====
-- strings.Split, strings.SplitN at 2 and strings.Join with a one-byte separator, and their laws.
use flux_dev.Base.{
  ◌∙◌, ℕ, zero, suc, ◌≡◌, ◌≢◌, refl, ap, false, none, some, List, [], ◌∷◌, ◌++◌, eqb, eqb_iff,
  arith, if◌then◌else◌, length, take, drop, All,
}
use flux_dev.Text.{Text, index_byte, contains_byte}

abbrev pub push_head : ℕ → List Text → List Text
push_head a [] = (a ∷ []) ∷ []
push_head a (p ∷ parts) = (a ∷ p) ∷ parts

-- strings.Split(s, sep)
unfoldable pub split : Text → ℕ → List Text
split [] sep = [] ∷ []
split (a ∷ s) sep = let parts = split s sep in if eqb a sep then [] ∷ parts else push_head a parts

-- strings.SplitN(s, sep, 2)
unfoldable pub split_n2 : Text → ℕ → List Text
split_n2 [] sep = [] ∷ []
split_n2 (a ∷ s) sep =
    let parts = split_n2 s sep in if eqb a sep then [] ∷ s ∷ [] else push_head a parts

-- strings.Join(parts, sep)
unfoldable pub join : List Text → ℕ → Text
join [] sep = []
join (p ∷ []) sep = p
join (p ∷ q ∷ parts) sep = p ++ sep ∷ join (q ∷ parts) sep

pub index_byte-append :
    (c : ℕ) (s t : Text) → contains_byte s c ≡ false → index_byte (s ++ c ∷ t) c ≡ some (length s)
unfolding index_byte contains_byte
index_byte-append c [] t h = ground (arith, eqb_iff c c)
index_byte-append c (a ∷ s) t h = ground (arith, index_byte-append c s t)

pub take-append {ℓ} : {A : Type ℓ} (xs ys : List A) → take (length xs) (xs ++ ys) ≡ xs
take-append [] ys = refl
take-append (x ∷ xs) ys = rw (take-append xs ys)

pub drop-append {ℓ} :
    {A : Type ℓ} (xs ys : List A) (y : A) → drop (suc (length xs)) (xs ++ y ∷ ys) ≡ ys
drop-append [] ys y = refl
drop-append (x ∷ xs) ys y = drop-append xs ys y

-- What a successful search found: the text around the first separator.
pub index_byte-some :
    (c : ℕ) (s : Text) (i : ℕ)
    → index_byte s c ≡ some i
    → (s ≡ take i s ++ c ∷ drop (suc i) s) × (contains_byte (take i s) c ≡ false)
unfolding index_byte contains_byte
index_byte-some c [] i h = cc
index_byte-some c (a ∷ s) zero h = ground (arith, eqb_iff a c)
index_byte-some c (a ∷ s) (suc i) h = ground (arith, index_byte-some c s i)

pub split_n2-index :
    (s : Text) (c : ℕ)
    → split_n2 s c
      ≡ elim (index_byte s c) [ none ↦ s ∷ [] | some i ↦ take i s ∷ drop (suc i) s ∷ [] ]
unfolding split_n2 index_byte
split_n2-index [] c = refl
split_n2-index (a ∷ s) c = ground (arith, split_n2-index s c)

pub split-ne-nil : (s : Text) (c : ℕ) → split s c ≢ []
unfolding split
split-ne-nil [] c = cc
split-ne-nil (a ∷ s) c = ground (arith, split-ne-nil s c)

-- No part of a split holds the separator.
pub split-contains_byte : (s : Text) (c : ℕ) → All (λ p. contains_byte p c ≡ false) (split s c)
unfolding split contains_byte
split-contains_byte [] c = (refl, tt)
split-contains_byte (a ∷ s) c = ground (arith, split-contains_byte s c)

join-push_head :
    (a : ℕ) (parts : List Text) (c : ℕ) → parts ≢ [] → join (push_head a parts) c ≡ a ∷ join parts c
unfolding join
join-push_head a [] c h = absurd (h refl)
join-push_head a (p ∷ []) c h = refl
join-push_head a (p ∷ q ∷ parts) c h = refl

join-nil : (parts : List Text) (c : ℕ) → parts ≢ [] → join ([] ∷ parts) c ≡ c ∷ join parts c
unfolding join
join-nil [] c h = absurd (h refl)
join-nil (p ∷ parts) c h = refl

-- Joining the parts of a split gives the text back.
pub join-split : (s : Text) (c : ℕ) → join (split s c) c ≡ s
unfolding split
join-split [] c = unfold join in refl
join-split (a ∷ s) c = ground (
  arith,
  eqb_iff a c,
  join-split s c,
  join-nil (split s c) c (split-ne-nil s c),
  join-push_head a (split s c) c (split-ne-nil s c),
)

split-last : (p : Text) (c : ℕ) → contains_byte p c ≡ false → split p c ≡ p ∷ []
unfolding split contains_byte
split-last [] c h = refl
split-last (a ∷ p) c h = ground (arith, split-last p c)

split-append :
    (p s : Text) (c : ℕ) → contains_byte p c ≡ false → split (p ++ c ∷ s) c ≡ p ∷ split s c
unfolding split contains_byte
split-append [] s c h = ground (arith, eqb_iff c c)
split-append (a ∷ p) s c h = ground (arith, split-append p s c)

-- Splitting a join of parts without the separator gives the parts back.
pub split-join :
    (parts : List Text) (c : ℕ)
    → parts ≢ []
    → All (λ p. contains_byte p c ≡ false) parts
    → split (join parts c) c ≡ parts
unfolding join
split-join [] c h k = absurd (h refl)
split-join (p ∷ []) c h k = split-last p c k.0
split-join (p ∷ q ∷ parts) c h k =
    split-append p (join (q ∷ parts) c) c k.0 ∙ ap (λ r. p ∷ r) (split-join (q ∷ parts) c (cc) k.1)

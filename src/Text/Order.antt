-- ===== src/Text/Order.antt =====
-- sort.Strings: the bytewise order of texts, and sorting.

use mathlib.Core.List.{Perm, Permᴰ}
use mathlib.Core.Logic.{∥∥₁_elim}
use flux_dev.Base.{
  All, Bool, Bool-cases, List, [], arith, eqb, false, if◌then◌else◌, inl, inr, ltb, refl, true,
  ◌&&◌, ◌||◌, ◌∙◌, ◌∷◌, ◌≡◌,
}
use flux_dev.Text.{Distinct, Text, has, ◌==◌}
use flux_dev.Text.Equality.{eq_iff}

-- `s <= t` on Go strings.
unfoldable pub text_le : Text → Text → Bool
text_le [] t = true
text_le (a ∷ s) [] = false
text_le (a ∷ s) (b ∷ t) = ltb a b || (eqb a b && text_le s t)

unfoldable pub insert : Text → List Text → List Text
insert k [] = k ∷ []
insert k (n ∷ names) = let rest = insert k names in if text_le k n then k ∷ n ∷ names else n ∷ rest

-- sort.Strings
unfoldable pub sort : List Text → List Text
unfolding insert text_le
sort [] = []
sort (k ∷ names) = insert k (sort names)

text_le_total : (s t : Text) → text_le s t ≡ false → text_le t s ≡ true
unfolding text_le
text_le_total [] t h = cc
text_le_total (a ∷ s) [] h = refl
text_le_total (a ∷ s) (b ∷ t) h = ground (arith, text_le_total s t)

pub text_le_trans : (s t u : Text) → text_le s t ≡ true → text_le t u ≡ true → text_le s u ≡ true
unfolding text_le
text_le_trans [] t u h k = refl
text_le_trans (a ∷ s) [] u h k = cc
text_le_trans (a ∷ s) (b ∷ t) [] h k = cc
text_le_trans (a ∷ s) (b ∷ t) (c ∷ u) h k = ground (arith, text_le_trans s t u)

abbrev pub IsSorted : List Text → Type 0
IsSorted [] = Unit {0}
IsSorted (k ∷ names) = All (λ n. text_le k n ≡ true) names × IsSorted names

All-le_trans :
    (k n : Text) (names : List Text)
    → text_le k n ≡ true
    → All (λ m. text_le n m ≡ true) names
    → All (λ m. text_le k m ≡ true) names
All-le_trans k n [] h all = tt
All-le_trans k n (m ∷ names) h all = (text_le_trans k n m h all.0, All-le_trans k n names h all.1)

insert-All :
    (j k : Text) (names : List Text)
    → text_le j k ≡ true
    → All (λ m. text_le j m ≡ true) names
    → All (λ m. text_le j m ≡ true) (insert k names)
unfolding insert
insert-All j k [] h all = (h, tt)
insert-All j k (n ∷ names) h all = ground (arith, insert-All j k names h)

insert-IsSorted : (k : Text) (names : List Text) → IsSorted names → IsSorted (insert k names)
unfolding insert
insert-IsSorted k [] h = (tt, tt)
insert-IsSorted k (n ∷ names) h = elim (Bool-cases (text_le k n)) [
  | inl le ↦ rw le ((le, All-le_trans k n names le h.0), h)
  | inr gt ↦ rw gt (insert-All n k names (text_le_total k n gt) h.0, insert-IsSorted k names h.1)
]

pub sort-IsSorted : (names : List Text) → IsSorted (sort names)
unfolding sort
sort-IsSorted [] = tt
sort-IsSorted (k ∷ names) = insert-IsSorted k (sort names) (sort-IsSorted names)

has-insert : (j k : Text) (names : List Text) → has j (insert k names) ≡ (k == j || has j names)
unfolding insert has
has-insert j k [] = refl
has-insert j k (n ∷ names) = ground (arith, has-insert j k names)

-- Sorting keeps the members.
pub has-sort : (j : Text) (names : List Text) → has j (sort names) ≡ has j names
unfolding sort has
has-sort j [] = refl
has-sort j (k ∷ names) = ground (arith, has-insert j k (sort names), has-sort j names)

insert-Distinct :
    (k : Text) (names : List Text)
    → has k names ≡ false
    → Distinct names
    → Distinct (insert k names)
unfolding insert has
insert-Distinct k [] h d = (refl, tt)
insert-Distinct k (n ∷ names) h d =
    ground (arith, insert-Distinct k names, has-insert n k names, eq_iff n k, eq_iff k n)

pub sort-Distinct : (names : List Text) → Distinct names → Distinct (sort names)
unfolding sort
sort-Distinct [] d = tt
sort-Distinct (k ∷ names) d =
    insert-Distinct k (sort names) (has-sort k names ∙ d.0) (sort-Distinct names d.1)

text_le_refl : (s : Text) → text_le s s ≡ true
unfolding text_le
text_le_refl [] = refl
text_le_refl (a ∷ s) = ground (arith, text_le_refl s)

text_le_antisymm : (s t : Text) → text_le s t ≡ true → text_le t s ≡ true → s ≡ t
unfolding text_le
text_le_antisymm [] [] h k = refl
text_le_antisymm [] (b ∷ t) h k = cc
text_le_antisymm (a ∷ s) [] h k = cc
text_le_antisymm (a ∷ s) (b ∷ t) h k = ground (arith, text_le_antisymm s t)

insert_comm :
    (j k : Text) (names : List Text) → insert j (insert k names) ≡ insert k (insert j names)
unfolding insert
insert_comm j k [] = ground (arith, text_le_antisymm j k, text_le_total j k, text_le_total k j)
insert_comm j k (n ∷ names) = ground (
  arith,
  insert_comm j k names,
  text_le_antisymm j k,
  text_le_total j k,
  text_le_total k j,
  text_le_trans j k n,
  text_le_trans k j n,
  text_le_total j n,
  text_le_total k n,
  text_le_trans n j k,
  text_le_trans n k j,
)

sort-permᴰ : {xs ys : List Text} → Permᴰ xs ys → sort xs ≡ sort ys
unfolding sort
sort-permᴰ Permᴰ.nil = refl
sort-permᴰ (Permᴰ.cons e p) = cc (e, sort-permᴰ p)
sort-permᴰ (Permᴰ.swap {a} {b} {l} e f) = cc (e, f, insert_comm a b (sort l))
sort-permᴰ (Permᴰ.trans p q) = sort-permᴰ p ∙ sort-permᴰ q

TextList-set : IsSet (List Text)
TextList-set = hlevel

-- Sorting forgets the order of its input.
pub sort-perm : {xs ys : List Text} → Perm xs ys → sort xs ≡ sort ys
sort-perm {xs} {ys} p = ∥∥₁_elim p (TextList-set (sort xs) (sort ys)) sort-permᴰ

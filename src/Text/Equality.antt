-- ===== src/Text/Equality.antt =====
-- Laws of the comparison of texts and of name sets.
use flux_dev.Base.{
  All, Bool-cases, List, [], arith, inl, inr, refl, true, ◌++◌, ◌||◌, ◌↔◌, ◌∷◌, ◌≡◌,
}
use flux_dev.Text.{Text, has, starts_with, ◌==◌}
use mathlib.Core.Path.{subst}

pub eq_iff : (s t : Text) → ((s == t) ≡ true) ↔ (s ≡ t)
unfolding ◌==◌
eq_iff [] [] = ground arith
eq_iff [] (b ∷ t) = ground arith
eq_iff (a ∷ s) [] = ground arith
eq_iff (a ∷ s) (b ∷ t) = ground (arith, eq_iff s t)

pub eq_refl : (s : Text) → (s == s) ≡ true
eq_refl s = (eq_iff s s).1 refl

-- What follows a prefix is what trimming it leaves.
pub starts_with-append : (p s : Text) → starts_with (p ++ s) p ≡ true
unfolding starts_with
starts_with-append [] s = refl
starts_with-append (b ∷ p) s = ground (arith, starts_with-append p s)

pub has-append : (k : Text) (xs ys : List Text) → has k (xs ++ ys) ≡ (has k xs || has k ys)
unfolding has
has-append k [] ys = refl
has-append k (x ∷ xs) ys = ground (arith, has-append k xs ys)

pub has_head : (k : Text) (names : List Text) → has k (k ∷ names) ≡ true
unfolding has
has_head k names = ground (arith, eq_refl k)

-- What holds of all names holds of every name among them.
pub All-has {ℓ} :
    (P : Text → Type ℓ) (names : List Text) (k : Text) → All P names → has k names ≡ true → P k
unfolding has
All-has P [] k all h = cc
All-has P (n ∷ names) k all h = elim (Bool-cases (n == k)) [
  | inl here ↦ subst P ((eq_iff n k).0 here) all.0
  | inr other ↦ All-has P names k all.1 (ground arith)
]

pub eq_comm : (s t : Text) → (s == t) ≡ (t == s)
eq_comm s t = ground (arith, eq_iff s t, eq_iff t s)

-- ===== src/Text.antt =====
-- Go strings: sequences of bytes, with the functions of Go's `strings` and `sort` packages that
-- the program calls. A text literal stands for its ASCII bytes.
pub mod Decimal
pub mod Equality
pub mod Split
pub mod Trim
pub mod Order
use Prim.Native.Char.{code}
use Prim.Native.String.{String}
use flux_dev.Base.{
  ℕ, suc, ◌≡◌, Bool, true, false, ◌&&◌, ◌||◌, Option, none, some, List, [], ◌∷◌, eqb, if◌then◌else◌,
}

abbrev pub Text : Type 0
Text = List ℕ

abbrev pub text : String → Text
text String.[] = []
text (String.◌∷◌ c s) = code c ∷ text s

infix 50 ◌==◌
unfoldable pub ◌==◌ : Text → Text → Bool
[] == [] = true
(a ∷ s) == (b ∷ t) = eqb a b && s == t
_ == _ = false

-- strings.HasPrefix
unfoldable pub starts_with : Text → Text → Bool
starts_with s [] = true
starts_with [] (b ∷ prefix) = false
starts_with (a ∷ s) (b ∷ prefix) = eqb a b && starts_with s prefix

-- strings.TrimPrefix, of a text that has the prefix.
drop_prefix : Text → Text → Text
drop_prefix s [] = s
drop_prefix [] (b ∷ prefix) = []
drop_prefix (a ∷ s) (b ∷ prefix) = drop_prefix s prefix

unfoldable pub trim_prefix : Text → Text → Text
unfolding starts_with drop_prefix
trim_prefix s prefix = if starts_with s prefix then drop_prefix s prefix else s

-- strings.IndexByte, with `none` for -1.
unfoldable pub index_byte : Text → ℕ → Option ℕ
index_byte [] c = none
index_byte (a ∷ s) c =
    let rest = index_byte s c in
    if eqb a c then some 0 else elim rest [ none ↦ none | some i ↦ some (suc i) ]

unfoldable pub contains_byte : Text → ℕ → Bool
contains_byte [] c = false
contains_byte (a ∷ s) c = eqb a c || contains_byte s c

-- strings.ContainsAny
unfoldable pub contains_any : Text → Text → Bool
unfolding contains_byte
contains_any [] chars = false
contains_any (a ∷ s) chars = contains_byte chars a || contains_any s chars

-- Membership of a name, as in Go's `map[string]bool`.
unfoldable pub has : Text → List Text → Bool
has k [] = false
has k (n ∷ names) = n == k || has k names

abbrev pub Distinct : List Text → Type 0
Distinct [] = Unit {0}
Distinct (n ∷ names) = (has n names ≡ false) × Distinct names

-- ===== src/Text/Trim.antt =====
-- strings.TrimSpace: white space in the sense of Unicode, encoded in UTF-8.
use flux_dev.Base.{
  ℕ, zero, suc, ◌-◌, ◌≡◌, refl, Bool, ◌&&◌, ◌||◌, [], ◌∷◌, eqb, leb, eqb_iff, arith, if◌then◌else◌,
}
use mathlib.Core.List.{reverse}
use flux_dev.Text.{Text}

-- U+0009 to U+000D and U+0020
abbrev is_space_1 : ℕ → Bool
is_space_1 a = (leb 9 a && leb a 13) || eqb a 32

-- U+0085 and U+00A0
abbrev is_space_2 : ℕ → ℕ → Bool
is_space_2 a b = eqb a 0xc2 && (eqb b 0x85 || eqb b 0xa0)

-- U+1680, U+2000 to U+200A, U+2028, U+2029, U+202F, U+205F and U+3000
abbrev is_space_3 : ℕ → ℕ → ℕ → Bool
is_space_3 a b c =
    (eqb a 0xe1 && eqb b 0x9a && eqb c 0x80)
    || (eqb a 0xe2
        && eqb b 0x80
        && ((leb 0x80 c && leb c 0x8a) || eqb c 0xa8 || eqb c 0xa9 || eqb c 0xaf))
    || (eqb a 0xe2 && eqb b 0x81 && eqb c 0x9f)
    || (eqb a 0xe3 && eqb b 0x80 && eqb c 0x80)

-- The number of bytes of the white space at the front, 0 if there is none.
unfoldable pub space_front : Text → ℕ
space_front [] = 0
space_front (a ∷ []) = if is_space_1 a then 1 else 0
space_front (a ∷ b ∷ []) = if is_space_1 a then 1 else if is_space_2 a b then 2 else 0
space_front (a ∷ b ∷ c ∷ s) =
    if is_space_1 a then 1 else if is_space_2 a b then 2 else if is_space_3 a b c then 3 else 0

-- The same of a text that is written backwards.
unfoldable pub space_back : Text → ℕ
space_back [] = 0
space_back (a ∷ []) = if is_space_1 a then 1 else 0
space_back (b ∷ a ∷ []) = if is_space_1 b then 1 else if is_space_2 a b then 2 else 0
space_back (c ∷ b ∷ a ∷ s) =
    if is_space_1 c then 1 else if is_space_2 b c then 2 else if is_space_3 a b c then 3 else 0

-- Drops white space from the front; `n` bytes of the space in progress are left.
trim_from : (Text → ℕ) → ℕ → Text → Text
trim_from space n [] = []
trim_from space (suc n) (a ∷ s) = trim_from space n s
trim_from space zero (a ∷ s) =
    let rest = trim_from space (space (a ∷ s) - 1) s in
    if eqb (space (a ∷ s)) 0 then a ∷ s else rest

unfoldable pub trim_space : Text → Text
unfolding trim_from space_front space_back
trim_space s = reverse (trim_from space_back 0 (reverse (trim_from space_front 0 s)))

trim_from-stops :
    (space : Text → ℕ) (n : ℕ) (s : Text) → space [] ≡ 0 → space (trim_from space n s) ≡ 0
unfolding trim_from
trim_from-stops space n [] h = h
trim_from-stops space (suc n) (a ∷ s) h = trim_from-stops space n s h
trim_from-stops space zero (a ∷ s) h =
    ground (arith, eqb_iff (space (a ∷ s)) 0, trim_from-stops space (space (a ∷ s) - 1) s h)

trim_blank : trim_space (9 ∷ 32 ∷ 65 ∷ 32 ∷ 66 ∷ 0xc2 ∷ 0xa0 ∷ 10 ∷ []) ≡ 65 ∷ 32 ∷ 66 ∷ []
unfolding trim_space
trim_blank = refl

-- ===== src/Text/Decimal.antt =====
-- The decimal digits of a number, as `%d` prints them.
use flux_dev.Base.{[], if◌then◌else◌, ltb, refl, suc, zero, ℕ, ◌%◌, ◌+◌, ◌/◌, ◌∷◌, ◌≡◌}
use flux_dev.Text.{Text, text}

-- Each round takes one digit off, so `suc n` rounds are enough.
digits : ℕ → ℕ → Text → Text
digits zero n acc = acc
digits (suc fuel) n acc =
    let rest = digits fuel (n / 10) ((b'0' + n % 10) ∷ acc) in
    if ltb n 10 then (b'0' + n) ∷ acc else rest

unfoldable pub decimal : ℕ → Text
unfolding digits
decimal n = digits (suc n) n []

decimal_tests : (decimal 0 ≡ text "0") × (decimal 1047 ≡ text "1047")
unfolding decimal
decimal_tests = (refl, refl)

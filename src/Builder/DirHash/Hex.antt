-- ===== src/Builder/DirHash/Hex.antt =====
-- The hexadecimal numbers in the lines of the directory hash.
use flux_dev.Base.{
  List, Option, [], ap, arith, drop, drop_last, eqb, false, if_cases, if◌then◌else◌, length, ltb,
  none, refl, some, suc, take, zero, ℕ, ◌%◌, ◌*◌, ◌++◌, ◌+◌, ◌-◌, ◌/◌, ◌<◌, ◌∙◌, ◌∷◌, ◌≡◌,
}
use flux_dev.Builder.DirHash.{Adler, adler_new, adler_sum, adler_write, hash_line, hex, hex_digits}
use flux_dev.Builder.DirHash.Laws.{IsAdler, adler_write-IsAdler}
use flux_dev.Text.{Text, contains_byte, index_byte}
use flux_dev.Text.Split.{drop-append, index_byte-append, take-append}
use mathlib.Core.List.{append_assoc}

-- The value of a hexadecimal digit.
abbrev pub digit_value : ℕ → ℕ
digit_value c = if ltb c 58 then c - 48 else c - 87

-- The number that hexadecimal digits stand for, after those read so far.
abbrev pub value_from : ℕ → Text → ℕ
value_from n [] = n
value_from n (c ∷ cs) = value_from (n * 16 + digit_value c) cs

abbrev pub power16 : ℕ → ℕ
power16 zero = 1
power16 (suc k) = 16 * power16 k

abbrev digit_char : ℕ → ℕ
digit_char d = if ltb d 10 then b'0' + d else 87 + d

digit_value-digit_char : (d : ℕ) → d < 16 → digit_value (digit_char d) ≡ d
digit_value-digit_char d h = ground arith

leading_digit :
    (n : ℕ) (acc : Text) → n < 16 → value_from 0 (digit_char (n % 16) ∷ acc) ≡ value_from n acc
leading_digit n acc h =
    ap (λ v. value_from v acc)
      (ap (λ d. 0 * 16 + d) (digit_value-digit_char (n % 16) (omega arith)) ∙ omega (arith, h))

next_digit :
    (n : ℕ) (acc : Text) → value_from (n / 16) (digit_char (n % 16) ∷ acc) ≡ value_from n acc
next_digit n acc =
    ap (λ v. value_from v acc)
      (ap (λ d. n / 16 * 16 + d) (digit_value-digit_char (n % 16) (omega arith)) ∙ omega arith)

hex_digits-value :
    (k n : ℕ) (acc : Text)
    → n < power16 (suc k)
    → value_from 0 (hex_digits (suc k) n acc) ≡ value_from n acc
unfolding hex_digits
hex_digits-value zero n acc h =
    if_cases (λ t. value_from 0 t ≡ value_from n acc) (eqb (n / 16) 0)
      (λ e. leading_digit n acc (omega arith)) (λ e. absurd (ground arith))
hex_digits-value (suc k) n acc h =
    if_cases (λ t. value_from 0 t ≡ value_from n acc) (eqb (n / 16) 0)
      (λ e. leading_digit n acc (ground arith))
      (λ e. hex_digits-value k (n / 16) _ (omega arith) ∙ next_digit n acc)

-- Reading a hexadecimal number of at most eight digits gives back the number.
pub value_from-hex : (n : ℕ) → n < 4294967296 → value_from 0 (hex n) ≡ n
unfolding hex
value_from-hex n h = hex_digits-value 7 n [] (omega (arith, h))

abbrev parse_at : Text → Option ℕ → Option (ℕ × Text)
parse_at line none = none
parse_at line (some i) = some (value_from 0 (take i line), drop_last (drop 1 (drop (suc i) line)))

-- The checksum and the file name of a line.
abbrev pub parse_line : Text → Option (ℕ × Text)
parse_line line = parse_at line (index_byte line b' ')

digit_char_space : (d : ℕ) → d < 16 → eqb (digit_char d) b' ' ≡ false
digit_char_space d h = ground arith

hex_digits-space :
    (k n : ℕ) (acc : Text)
    → contains_byte acc b' ' ≡ false
    → contains_byte (hex_digits k n acc) b' ' ≡ false
unfolding hex_digits contains_byte
hex_digits-space zero n acc h = h
hex_digits-space (suc k) n acc h =
    let here_ : contains_byte (digit_char (n % 16) ∷ acc) b' ' ≡ false =
      ground (arith, digit_char_space (n % 16) (omega arith), h) in
    if_cases (λ t. contains_byte t b' ' ≡ false) (eqb (n / 16) 0) (λ e. here_)
      (λ e. hex_digits-space k (n / 16) _ here_)

drop_last-append : (s : Text) (b : ℕ) → drop_last (s ++ b ∷ []) ≡ s
drop_last-append [] b = refl
drop_last-append (a ∷ []) b = refl
drop_last-append (a ∷ c ∷ s) b = rw (drop_last-append (c ∷ s) b) refl

line_shape :
    (content : List ℕ) (file : Text)
    → hash_line content file
      ≡ hex (adler_sum (adler_write adler_new content)) ++ b' ' ∷ b' ' ∷ (file ++ 10 ∷ [])
unfolding hash_line
line_shape content file =
    let digits = hex (adler_sum (adler_write adler_new content)) in
    append_assoc (digits ++ b' ' ∷ b' ' ∷ []) file (10 ∷ [])
    ∙ append_assoc digits (b' ' ∷ b' ' ∷ []) (file ++ 10 ∷ [])

parse_line-shape :
    (digits file : Text)
    → contains_byte digits b' ' ≡ false
    → parse_line (digits ++ b' ' ∷ b' ' ∷ (file ++ 10 ∷ [])) ≡ some (value_from 0 digits, file)
parse_line-shape digits file h =
    let after = b' ' ∷ (file ++ 10 ∷ []) in
    ap (parse_at (digits ++ b' ' ∷ after)) (index_byte-append b' ' digits after h)
    ∙ ap
        (λ t. some (
          value_from 0 t,
          drop_last (drop 1 (drop (suc (length digits)) (digits ++ b' ' ∷ after))),
        ))
        (take-append digits (b' ' ∷ after))
    ∙ ap (λ t. some (value_from 0 digits, drop_last (drop 1 t))) (drop-append digits after b' ')
    ∙ ap (λ t. some (value_from 0 digits, t)) (drop_last-append file 10)

adler_sum_bound : (d : Adler) → IsAdler d → adler_sum d < 4294967296
unfolding adler_sum
adler_sum_bound d h = omega (arith, h.0, h.1)

-- The line of a file in the directory hash gives back the checksum of its content and its name.
pub parse_line-hash_line :
    (content : List ℕ) (file : Text)
    → parse_line (hash_line content file) ≡ some (adler_sum (adler_write adler_new content), file)
unfolding hex contains_byte
parse_line-hash_line content file =
    let sum = adler_sum (adler_write adler_new content) in
    let bound =
      adler_sum_bound (adler_write adler_new content)
        (adler_write-IsAdler adler_new content (omega arith, omega arith)) in
    ap parse_line (line_shape content file)
    ∙ parse_line-shape (hex sum) file (hex_digits-space 8 sum [] refl)
    ∙ ap (λ n. some (n, file)) (value_from-hex sum bound)

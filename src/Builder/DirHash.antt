-- ===== src/Builder/DirHash.antt =====
-- internal/builder/dirhash.go: the hash of a staging directory.
pub mod Laws
pub mod Hex
use flux_dev.Base.{
  List, Result, [], eqb, guard, if◌then◌else◌, ltb, not, ok, suc, wrap, zero, ℕ, ◌%◌, ◌*◌, ◌++◌,
  ◌+◌, ◌/◌, ◌>>=◌, ◌>>◌, ◌∷◌,
}
use flux_dev.Builder.Core.{Error, external, newline_in_file_name}
use flux_dev.Text.{Text, contains_byte, text}
use flux_dev.Text.Decimal.{decimal}
use flux_dev.Text.Order.{sort}

-- The two sums of Go's hash/adler32.
pub record Adler : Type 0 where
  pub low : ℕ
  pub high : ℕ

abbrev pub adler_mod : ℕ
adler_mod = 65521

abbrev pub adler_new : Adler
adler_new = record { low = 1; high = 0 }

abbrev pub adler_byte : Adler → ℕ → Adler
adler_byte d b =
    let low = (d.low + b) % adler_mod in record { low = low; high = (d.high + low) % adler_mod }

-- Write
unfoldable pub adler_write : Adler → List ℕ → Adler
adler_write d [] = d
adler_write d (b ∷ bs) = adler_write (adler_byte d b) bs

-- Sum32: `s2 << 16 | s1`
unfoldable pub adler_sum : Adler → ℕ
adler_sum d = d.high * 65536 + d.low

-- The verb `%x` on a number.
unfoldable pub hex_digits : ℕ → ℕ → Text → Text
hex_digits zero n acc = acc
hex_digits (suc rounds) n acc =
    let digit = n % 16 in
    let rest =
      hex_digits rounds (n / 16) ((if ltb digit 10 then b'0' + digit else 87 + digit) ∷ acc) in
    if eqb (n / 16) 0 then (if ltb digit 10 then b'0' + digit else 87 + digit) ∷ acc else rest

-- A sum has at most eight hexadecimal digits.
unfoldable pub hex : ℕ → Text
unfolding hex_digits
hex n = hex_digits 8 n []

-- `fmt.Fprintf(h, "%x  %s\n", hf.Sum32(), file)`
unfoldable pub hash_line : List ℕ → Text → Text
unfolding adler_write adler_sum hex
hash_line content file =
    hex (adler_sum (adler_write adler_new content)) ++ text "  " ++ file ++ 10 ∷ []

-- The loop, with the hash so far.
unfoldable pub hash_files : (Text → Result Text (List ℕ)) → Adler → List Text → Result Error Adler
unfolding hash_line
hash_files open_file d [] = ok d
hash_files open_file d (file ∷ files) = do
  guard (not (contains_byte file 10)) (newline_in_file_name file)
  content ← wrap external (open_file file)
  hash_files open_file (adler_write d (hash_line content file)) files

unfoldable pub dir_hash_fn : List Text → (Text → Result Text (List ℕ)) → Result Error Text
unfolding hash_files
dir_hash_fn files open_file = do
  d ← hash_files open_file adler_new (sort files)
  ok (decimal (adler_sum d))

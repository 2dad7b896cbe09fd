-- ===== src/Builder/DirHash/Laws.antt =====
-- What the hash of a directory depends on, its range, and when there is one.
use flux_dev.Base.{
  >>=-eq-ok, Bool, List, Result, Result-cases, [], ap, arith, guard, inl, inr, is_ok, not, ok,
  ok-injective, refl, sym, true, wrap, ℕ, ◌&&◌, ◌<◌, ◌∙◌, ◌∷◌, ◌≡◌,
}
use flux_dev.Builder.Core.{external, newline_in_file_name}
use flux_dev.Builder.DirHash.{
  Adler, adler_byte, adler_mod, adler_new, adler_sum, adler_write, dir_hash_fn, hash_files,
  hash_line,
}
use flux_dev.Text.{Text, contains_byte}
use flux_dev.Text.Decimal.{decimal}
use flux_dev.Text.Order.{insert, sort, sort-perm}
use mathlib.Core.Path.{subst}
use mathlib.Core.List.{Perm}

-- The hash is the same for every order of the files.
pub dir_hash_fn-perm :
    (open_file : Text → Result Text (List ℕ)) {files others : List Text}
    → Perm files others
    → dir_hash_fn files open_file ≡ dir_hash_fn others open_file
unfolding dir_hash_fn
dir_hash_fn-perm open_file p = rw (sort-perm p) refl

abbrev pub IsAdler : Adler → Type 0
IsAdler d = (d.low < adler_mod) × (d.high < adler_mod)

pub adler_write-IsAdler : (d : Adler) (bs : List ℕ) → IsAdler d → IsAdler (adler_write d bs)
unfolding adler_write
adler_write-IsAdler d [] h = h
adler_write-IsAdler d (b ∷ bs) h =
    adler_write-IsAdler (adler_byte d b) bs (omega arith, omega arith)

hash_files-IsAdler :
    (open_file : Text → Result Text (List ℕ)) (d : Adler) (files : List Text) {r : Adler}
    → IsAdler d
    → hash_files open_file d files ≡ ok r
    → IsAdler r
unfolding hash_files
hash_files-IsAdler open_file d [] h e = subst IsAdler (ok-injective e) h
hash_files-IsAdler open_file d (file ∷ files) h e =
    let (u, e1, e2) =
      >>=-eq-ok (guard (not (contains_byte file 10)) (newline_in_file_name file)) _ e in
    let (content, e3, e4) = >>=-eq-ok (wrap external (open_file file)) _ e2 in
    hash_files-IsAdler open_file (adler_write d (hash_line content file)) files
      (adler_write-IsAdler d (hash_line content file) h) e4

-- A file that can be hashed: its name has no newline, and it can be read.
abbrev pub is_hashable : (Text → Result Text (List ℕ)) → Text → Bool
is_hashable open_file file = not (contains_byte file 10) && is_ok (open_file file)

abbrev pub all_hashable : (Text → Result Text (List ℕ)) → List Text → Bool
all_hashable open_file [] = true
all_hashable open_file (file ∷ files) = is_hashable open_file file && all_hashable open_file files

all_hashable-insert :
    (open_file : Text → Result Text (List ℕ)) (file : Text) (files : List Text)
    → all_hashable open_file (insert file files)
      ≡ (is_hashable open_file file && all_hashable open_file files)
unfolding insert
all_hashable-insert open_file file [] = refl
all_hashable-insert open_file file (f ∷ files) =
    ground (arith, all_hashable-insert open_file file files)

all_hashable-sort :
    (open_file : Text → Result Text (List ℕ)) (files : List Text)
    → all_hashable open_file (sort files) ≡ all_hashable open_file files
unfolding sort
all_hashable-sort open_file [] = refl
all_hashable-sort open_file (file ∷ files) =
    ground
      (arith, all_hashable-insert open_file file (sort files), all_hashable-sort open_file files)

hash_files-is_ok :
    (open_file : Text → Result Text (List ℕ)) (d : Adler) (files : List Text)
    → is_ok (hash_files open_file d files) ≡ all_hashable open_file files
unfolding hash_files
hash_files-is_ok open_file d [] = refl
hash_files-is_ok open_file d (file ∷ files) = elim (Result-cases (open_file file)) [
  | inl (content, e) ↦
      ground (arith, e, hash_files-is_ok open_file (adler_write d (hash_line content file)) files)
  | inr (failure, e) ↦ ground (arith, e)
]

-- There is a hash exactly when every file can be read and has a name without a newline.
pub dir_hash_fn-is_ok :
    (open_file : Text → Result Text (List ℕ)) (files : List Text)
    → is_ok (dir_hash_fn files open_file) ≡ all_hashable open_file files
unfolding dir_hash_fn
dir_hash_fn-is_ok open_file files =
    elim (Result-cases (hash_files open_file adler_new (sort files))) [
      | inl (d, e) ↦ rw e (
          sym (ap is_ok e)
          ∙ hash_files-is_ok open_file adler_new (sort files)
          ∙ all_hashable-sort open_file files)
      | inr (f, e) ↦ rw e (
          sym (ap is_ok e)
          ∙ hash_files-is_ok open_file adler_new (sort files)
          ∙ all_hashable-sort open_file files)
    ]

-- The hash is the decimal numeral of a number of 32 bits.
pub dir_hash_fn_bound :
    (open_file : Text → Result Text (List ℕ)) (files : List Text) {digest : Text}
    → dir_hash_fn files open_file ≡ ok digest
    → (n : ℕ) × (n < 4294967296) × (digest ≡ decimal n)
unfolding dir_hash_fn adler_sum
dir_hash_fn_bound open_file files e =
    let (d, e1, e2) = >>=-eq-ok (hash_files open_file adler_new (sort files)) _ e in
    let bound = hash_files-IsAdler open_file adler_new (sort files) (omega arith, omega arith) e1 in
    (adler_sum d, omega (arith, bound.0, bound.1), sym (ok-injective e2))

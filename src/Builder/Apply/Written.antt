-- ===== src/Builder/Apply/Written.antt =====
-- What a written file adds to the staging directory.
use flux_dev.Base.{
  All, All-append, List, Result, [], ap, arith, err, false, none, ok, refl, some, sym, ◌++◌, ◌∙◌,
  ◌∷◌, ◌≡◌,
}
use flux_dev.Builder.Apply.{Builder, Staged, Staging, write_staged_file}
use flux_dev.Builder.Core.{Error, already_written}
use flux_dev.Dict.{Dict, get, get-none, keys, keys-append, put, put-fresh}
use flux_dev.FilePath.Confined.{IsInside}
use flux_dev.Text.{Distinct, Text, has}
use flux_dev.Text.Equality.{eq_comm, has-append}
use mathlib.Core.Path.{subst}

abbrev pub paths : List Staged → List Text
paths [] = []
paths (f ∷ files) = f.path ∷ paths files

-- The files are those that `writtenPaths` names, in order, each once and inside the directory.
pub record IsStaging (st : Staging) : Type 0 where
  pub recorded : paths st.files ≡ keys st.written_paths
  pub written_once : Distinct (paths st.files)
  pub inside : All IsInside (paths st.files)

paths-append : (xs ys : List Staged) → paths (xs ++ ys) ≡ paths xs ++ paths ys
paths-append [] ys = refl
paths-append (f ∷ xs) ys = ap (λ ps. f.path ∷ ps) (paths-append xs ys)

has-keys-none :
    (k : Text) (m : Dict Text) (names : List Text)
    → names ≡ keys m
    → get k m ≡ none
    → has k names ≡ false
has-keys-none k m names e h = ap (λ ns. has k ns) e ∙ get-none k m h

Distinct-snoc :
    (names : List Text) (k : Text)
    → Distinct names
    → has k names ≡ false
    → Distinct (names ++ k ∷ [])
unfolding has
Distinct-snoc [] k d h = (refl, tt)
Distinct-snoc (n ∷ names) k d h =
    ground (arith, Distinct-snoc names k d.1, has-append n names (k ∷ []), eq_comm k n)

-- One more file, at a destination that was not written before.
add-IsStaging :
    (st : Staging) (f : Staged) (from : Text)
    → IsStaging st
    → get f.path st.written_paths ≡ none
    → IsInside f.path
    → IsStaging
        (record { files = st.files ++ f ∷ []; written_paths = put f.path from st.written_paths })
unfolding keys
add-IsStaging st f from i fresh inside =
    let named = paths-append st.files (f ∷ []) in
    record {
      recorded =
          rw
            (
              named,
              put-fresh f.path from st.written_paths fresh,
              keys-append st.written_paths ((f.path, from) ∷ []),
            )
            (ap (λ ps. ps ++ f.path ∷ []) i.recorded);
      written_once = rw named (
          Distinct-snoc (paths st.files) f.path i.written_once
            (has-keys-none f.path st.written_paths (paths st.files) i.recorded fresh));
      inside = rw named (All-append IsInside (paths st.files) (f.path ∷ []) i.inside (inside, tt));
    }

-- The staging directory after a template: one more file than before.
pub record Extends (before after : Staging) : Type 0 where
  pub added : (f : Staged) × (after.files ≡ before.files ++ f ∷ [])
  pub staging : IsStaging after

not_written :
    (b : Builder) (f : Staged) (files files2 : List Staged)
    → write_staged_file b f files ≡ ok files2
    → files2 ≡ files ++ f ∷ []
unfolding write_staged_file
not_written b f files files2 h = ground arith

pub not_taken :
    (dest : Text) (m : Dict Text) (u : Unit {0})
    → elim (get dest m) as (λ x. Result Error (Unit {0})) [
      | none ↦ ok tt
      | some previous ↦ err (already_written dest previous)
    ]
      ≡ ok u
    → get dest m ≡ none
not_taken dest m u h = ground arith

pub write-Extends :
    (b : Builder) (st : Staging) (f : Staged) (from : Text) (files : List Staged)
    → IsStaging st
    → get f.path st.written_paths ≡ none
    → IsInside f.path
    → write_staged_file b f st.files ≡ ok files
    → Extends st (record { files = files; written_paths = put f.path from st.written_paths })
write-Extends b st f from files i fresh inside written =
    let e = not_written b f st.files files written in
    record {
      added = (f, e);
      staging =
          subst
            (λ fs.
              IsStaging (record { files = fs; written_paths = put f.path from st.written_paths }))
            (sym e) (add-IsStaging st f from i fresh inside);
    }

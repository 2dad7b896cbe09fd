-- ===== src/Builder/Confined.antt =====
-- The builder stays inside its directories: destinations in the staging directory, lookups in the
-- source root.
use flux_dev.Base.{
  >>=-eq-ok, Bool-cases, Result-cases, [], arith, false, inl, inr, none, ok, refl, true, wrap, ℕ,
  ◌++◌, ◌>>=◌, ◌∷◌, ◌≡◌,
}
use flux_dev.Builder.Core.{Engine, Root, render_failed}
use flux_dev.Builder.Partials.{clean_lookup_path, lookup_file, max_file_bytes, read_small_file}
use flux_dev.Builder.Reference.{artifact_ref_prefix, check_dest, render_dest_path}
use flux_dev.Dict.{Dict}
use flux_dev.FilePath.{clean, is_abs}
use flux_dev.FilePath.Confined.{IsInside, clean-IsInside, leaves}
use flux_dev.Text.{Text, starts_with, text, trim_prefix, ◌==◌}
use flux_dev.Text.Trim.{trim_space}
use flux_dev.Tree.{Value}
use mathlib.Core.Path.{subst}

leaves-false : (path : Text) → starts_with path (text "..") ≡ false → leaves path ≡ false
unfolding leaves starts_with ◌==◌
leaves-false [] h = refl
leaves-false (a ∷ []) h = ground arith
leaves-false (a ∷ b ∷ path) h = ground arith

clean_abs : (path : Text) → is_abs (clean path) ≡ false → is_abs path ≡ false
unfolding clean is_abs starts_with
clean_abs path h = ground arith

-- The checks of renderDestPath and of cleanLookupPath, on a cleaned path.
accepted-IsInside :
    (path : Text)
    → is_abs path ≡ false
    → (clean path == text ".") ≡ false
    → leaves (clean path) ≡ false
    → ((q : Text) → clean path ≡ q → IsInside q)
accepted-IsInside path relative here inside q e =
    subst IsInside e (clean-IsInside path relative here inside)

check_dest-IsInside : (to_ref out dest : Text) → check_dest to_ref out ≡ ok dest → IsInside dest
unfolding check_dest
check_dest-IsInside to_ref out dest h =
    accepted-IsInside (trim_space out) (clean_abs (trim_space out) (ground arith)) (ground arith)
      (leaves-false (clean (trim_space out)) (ground arith)) dest (ground arith)

-- Whatever the engine renders a destination to, when renderDestPath returns a path, each of its
-- segments names an entry: none is empty, `.` or `..`.
pub render_dest_path-IsInside :
    (engine : Engine) (to_ref : Text) (scope : Dict Value) (dest : Text)
    → render_dest_path engine to_ref scope ≡ ok dest
    → IsInside dest
unfolding render_dest_path
render_dest_path-IsInside engine to_ref scope dest h =
    elim (Bool-cases (starts_with to_ref artifact_ref_prefix)) [
      | inl prefixed ↦ elim (Bool-cases (trim_prefix to_ref artifact_ref_prefix == [])) [
        | inl empty ↦ absurd (ground arith)
        | inr some_dest ↦
            let (out, rendered, checked) =
              >>=-eq-ok
                (wrap render_failed (
                  engine (text "destination:" ++ to_ref) (trim_prefix to_ref artifact_ref_prefix)
                    scope (record { partials = []; lookup_file = none })))
                _ (rendered_dest prefixed some_dest) in
            check_dest-IsInside to_ref out dest checked
      ]
      | inr other ↦ absurd (ground arith)
    ]
  where
    rendered_dest :
        starts_with to_ref artifact_ref_prefix ≡ true
        → (trim_prefix to_ref artifact_ref_prefix == []) ≡ false
        → (wrap render_failed (
              engine
                (text "destination:" ++ to_ref)
                (trim_prefix to_ref artifact_ref_prefix)
                scope
                (record { partials = []; lookup_file = none }))
            >>= λ out. check_dest to_ref out)
          ≡ ok dest
    rendered_dest e f = ground arith

pub clean_lookup_path-IsInside : (p q : Text) → clean_lookup_path p ≡ ok q → IsInside q
unfolding clean_lookup_path leaves
clean_lookup_path-IsInside p q h =
    accepted-IsInside p (ground arith) (ground arith) (ground arith) q (ground arith)

read_small_file_cong :
    (one two : Root) (path : Text) (limit : ℕ)
    → one.read path ≡ two.read path
    → read_small_file one path limit ≡ read_small_file two path limit
unfolding read_small_file
read_small_file_cong one two path limit e = rw e refl

-- `lookupFile` depends on the source root only at paths inside it: two roots that agree at all
-- paths whose segments name entries give the same bytes or the same error.
pub lookup_file-confined :
    (one two : Root) (p : Text)
    → ((path : Text)
        → IsInside path
        → (one.stat path ≡ two.stat path) × (one.read path ≡ two.read path))
    → lookup_file one p ≡ lookup_file two p
unfolding lookup_file
lookup_file-confined one two p same = elim (Result-cases (clean_lookup_path p)) [
  | inl (q, e) ↦
      let (stats, reads) = same q (clean_lookup_path-IsInside p q e) in
      rw (e, stats, read_small_file_cong one two q max_file_bytes reads) refl
  | inr (m, e) ↦ rw e refl
]

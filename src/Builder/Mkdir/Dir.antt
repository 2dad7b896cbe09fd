-- ===== src/Builder/Mkdir/Dir.antt =====
-- filepath.Dir on a path whose segments name entries: the segments but the last.
use flux_dev.Base.{
  All, All-append, List, [], ap, arith, drop_last, false, if◌then◌else◌, length, refl, suc, sym,
  ◌++◌, ◌∙◌, ◌∷◌, ◌≡◌,
}
use flux_dev.Builder.Mkdir.{dir}
use flux_dev.FilePath.{clean, is_abs, kept, resolve, resolve_all}
use flux_dev.FilePath.Confined.{IsPlain, clean_inside}
use flux_dev.Text.{Text, contains_byte, starts_with, text, ◌==◌}
use flux_dev.Text.Split.{join, split, split-join}

-- A slash at the end changes the segments that Clean keeps by an empty one, which it skips.
resolve_all-slash :
    (segs stack : List Text)
    → resolve_all false stack (segs ++ [] ∷ []) ≡ resolve_all false stack segs
unfolding resolve_all resolve ◌==◌
resolve_all-slash [] stack = refl
resolve_all-slash (seg ∷ segs) stack = resolve_all-slash segs (resolve false stack seg)

pub length-drop_last :
    (seg : Text) (segs : List Text) → suc (length (drop_last (seg ∷ segs))) ≡ length (seg ∷ segs)
length-drop_last seg [] = refl
length-drop_last seg (next ∷ segs) = ap suc (length-drop_last next segs)

pub All-drop_last : (P : Text → Type 0) (segs : List Text) → All P segs → All P (drop_last segs)
All-drop_last P [] h = tt
All-drop_last P (seg ∷ []) h = tt
All-drop_last P (seg ∷ next ∷ segs) h = (h.0, All-drop_last P (next ∷ segs) h.1)

-- A first segment that names an entry does not start with a slash.
relative_join :
    (seg : Text) (segs : List Text)
    → IsPlain seg
    → contains_byte seg b'/' ≡ false
    → is_abs (join (seg ∷ segs) b'/') ≡ false
unfolding is_abs join starts_with contains_byte ◌==◌
relative_join [] segs h n = absurd (ground arith)
relative_join (a ∷ seg) [] h n = ground arith
relative_join (a ∷ seg) (next ∷ segs) h n = ground arith

abbrev pub NoSlash : Text → Type 0
NoSlash seg = contains_byte seg b'/' ≡ false

abbrev cleaned : List Text → Text
cleaned segs = if join segs b'/' == [] then text "." else join segs b'/'

clean-cong : (p q : Text) → is_abs p ≡ is_abs q → kept p ≡ kept q → clean p ≡ clean q
unfolding clean
clean-cong p q a k =
    ap (λ b. if b then b'/' ∷ join (kept p) b'/' else cleaned (kept p)) a
    ∙ ap (λ segs. if is_abs q then b'/' ∷ join segs b'/' else cleaned segs) k

-- The path of the segments with a slash at the end is cleaned to the path of the segments.
clean-slash :
    (seg : Text) (segs : List Text)
    → All IsPlain (seg ∷ segs)
    → All NoSlash (seg ∷ segs)
    → clean (join ((seg ∷ segs) ++ [] ∷ []) b'/') ≡ join (seg ∷ segs) b'/'
clean-slash seg segs h n =
    let whole = split-join (seg ∷ segs) b'/' (cc) n in
    let slashed =
      split-join ((seg ∷ segs) ++ [] ∷ []) b'/' (cc)
        (All-append NoSlash (seg ∷ segs) ([] ∷ []) n (unfold contains_byte in (refl, tt))) in
    let one = relative_join seg segs h.0 n.0 in
    let two = relative_join seg (segs ++ [] ∷ []) h.0 n.0 in
    clean-cong _ _ (two ∙ sym one)
      (unfold kept in rw (one, two, whole, slashed, resolve_all-slash (seg ∷ segs) []) refl)
    ∙ clean_inside (join (seg ∷ segs) b'/') (rw whole h)

pub dir-join :
    (seg next : Text) (segs : List Text)
    → All IsPlain (seg ∷ next ∷ segs)
    → All NoSlash (seg ∷ next ∷ segs)
    → dir (join (seg ∷ next ∷ segs) b'/') ≡ join (seg ∷ drop_last (next ∷ segs)) b'/'
unfolding dir
dir-join seg next segs h n = rw (split-join (seg ∷ next ∷ segs) b'/' (cc) n) (
    clean-slash seg (drop_last (next ∷ segs)) (h.0, All-drop_last IsPlain (next ∷ segs) h.1)
      (n.0, All-drop_last NoSlash (next ∷ segs) n.1))

pub dir_one : (seg : Text) → NoSlash seg → dir (join (seg ∷ []) b'/') ≡ text "."
unfolding dir
dir_one seg n =
    rw (split-join (seg ∷ []) b'/' (cc) (n, tt))
      (unfold clean kept is_abs resolve_all resolve starts_with join split ◌==◌ in refl)

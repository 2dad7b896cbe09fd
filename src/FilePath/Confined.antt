-- ===== src/FilePath/Confined.antt =====
-- Which cleaned paths stay inside the directory that they are relative to.
use mathlib.Core.List.{reverse}
use flux_dev.Base.{
  All, All-append, Bool, Bool-cases, List, [], ap, arith, eqb, false, if◌then◌else◌, inl, inr, refl,
  sym, true, ◌++◌, ◌||◌, ◌∙◌, ◌∷◌, ◌≡◌, ◌≢◌, ◌⊎◌,
}
use flux_dev.FilePath.{clean, is_abs, kept, resolve, resolve_all}
use flux_dev.Text.{Text, contains_byte, starts_with, text, ◌==◌}
use flux_dev.Text.Equality.{eq_iff, eq_refl, starts_with-append}
use flux_dev.Text.Split.{join, join-split, push_head, split, split-contains_byte, split-join}
use mathlib.Core.Path.{subst}
use mathlib.Core.List.{append-nil, reverse-reverse}
use mathlib.Core.Bool.{false≢true}
use mathlib.Core.List.{append_assoc}
use mathlib.Core.List.{reverse-append, reverse-cons}

-- A segment that names an entry of a directory: neither empty, nor `.`, nor `..`.
abbrev pub IsPlain : Text → Type 0
IsPlain seg = ((seg == []) ≡ false) × ((seg == text ".") ≡ false) × ((seg == text "..") ≡ false)

-- Every segment of the path names an entry.
abbrev pub IsInside : Text → Type 0
IsInside path = All IsPlain (split path b'/')

abbrev NoSlash : Text → Type 0
NoSlash seg = contains_byte seg b'/' ≡ false

-- The stack of a relative path: plain segments on segments that are all `..`.
abbrev AllDots : List Text → Type 0
AllDots stack = All (λ seg. seg ≡ text "..") stack

abbrev IsStack : List Text → Type 0
IsStack [] = Unit {0}
IsStack (seg ∷ stack) = ((seg ≡ text "..") × AllDots stack) ⊎ (IsPlain seg × IsStack stack)

AllDots-IsStack : (stack : List Text) → AllDots stack → IsStack stack
AllDots-IsStack [] h = tt
AllDots-IsStack (seg ∷ stack) h = inl (h.0, h.1)

pop-IsStack :
    (stack : List Text)
    → IsStack stack
    → IsStack (elim stack [
      | [] ↦ text ".." ∷ []
      | top ∷ below ↦ if top == text ".." then text ".." ∷ top ∷ below else below
    ])
pop-IsStack [] h = inl (refl, tt)
pop-IsStack (top ∷ below) (inl (e, d)) = rw ((eq_iff top (text "..")).1 e) (inl (refl, (e, d)))
pop-IsStack (top ∷ below) (inr (p, h)) = rw p.2 h

resolve-IsStack :
    (stack : List Text) (seg : Text) → IsStack stack → IsStack (resolve false stack seg)
unfolding resolve
resolve-IsStack stack seg h = elim (Bool-cases (seg == [] || seg == text ".")) [
  | inl skip ↦ rw skip h
  | inr step ↦ elim (Bool-cases (seg == text "..")) [
    | inl up ↦ rw (step, up) (pop-IsStack stack h)
    | inr down ↦ rw (step, down) (inr ((ground arith, ground arith, down), h))
  ]
]

resolve_all-IsStack :
    (segs stack : List Text) → IsStack stack → IsStack (resolve_all false stack segs)
unfolding resolve_all
resolve_all-IsStack [] stack h = h
resolve_all-IsStack (seg ∷ segs) stack h =
    resolve_all-IsStack segs (resolve false stack seg) (resolve-IsStack stack seg h)

-- A stack is plain throughout, or `..` is at its bottom.
dots_or_IsPlain :
    (stack : List Text)
    → IsStack stack
    → (All IsPlain stack) ⊎ ((above : List Text) × (stack ≡ above ++ text ".." ∷ []))
dots_or_IsPlain [] h = inl tt
dots_or_IsPlain (seg ∷ []) (inl (e, d)) = inr ([], ap (λ s. s ∷ []) e)
dots_or_IsPlain (seg ∷ top ∷ stack) (inl (e, d)) =
    elim (dots_or_IsPlain (top ∷ stack) (inl (d.0, d.1))) [
      | inl plain ↦ absurd (ground (arith, eq_iff top (text "..")))
      | inr (above, b) ↦ inr (seg ∷ above, ap (λ st. seg ∷ st) b)
    ]
dots_or_IsPlain (seg ∷ stack) (inr (p, h)) = elim (dots_or_IsPlain stack h) [
  | inl plain ↦ inl (p, plain)
  | inr (above, b) ↦ inr (seg ∷ above, ap (λ st. seg ∷ st) b)
]

resolve-NoSlash :
    (stack : List Text) (seg : Text)
    → All NoSlash stack
    → NoSlash seg
    → All NoSlash (resolve false stack seg)
unfolding resolve contains_byte
resolve-NoSlash [] seg h n = ground arith
resolve-NoSlash (top ∷ below) seg h n = ground arith

resolve_all-NoSlash :
    (segs stack : List Text)
    → All NoSlash stack
    → All NoSlash segs
    → All NoSlash (resolve_all false stack segs)
unfolding resolve_all
resolve_all-NoSlash [] stack h n = h
resolve_all-NoSlash (seg ∷ segs) stack h n =
    resolve_all-NoSlash segs (resolve false stack seg) (resolve-NoSlash stack seg h n.0) n.1

All-reverse {ℓ κ} : {A : Type ℓ} (P : A → Type κ) (xs : List A) → All P xs → All P (reverse xs)
All-reverse P [] h = tt
All-reverse P (x ∷ xs) h =
    rw (reverse-cons x xs) (All-append P (reverse xs) (x ∷ []) (All-reverse P xs h.1) (h.0, tt))

-- A path that starts with a segment `..`: it is `..`, or it starts with `../`.
unfoldable pub leaves : Text → Bool
leaves path = path == text ".." || starts_with path (text "../")

join_dots : (segs : List Text) → leaves (join (text ".." ∷ segs) b'/') ≡ true
unfolding leaves join
join_dots [] = ground (arith, eq_refl (text ".."))
join_dots (seg ∷ segs) = ground (arith, starts_with-append (text "../") (join (seg ∷ segs) b'/'))

kept-cases :
    (path : Text)
    → is_abs path ≡ false
    → (All IsPlain (kept path)) ⊎ (leaves (join (kept path) b'/') ≡ true)
unfolding kept
kept-cases path relative = elim (dots_or_IsPlain _ (resolve_all-IsStack (split path b'/') [] tt)) [
  | inl plain ↦ inl (rw relative (All-reverse IsPlain _ plain))
  | inr (above, b) ↦
      inr (rw (relative, b, reverse-append above (text ".." ∷ [])) (join_dots (reverse above)))
]

kept-NoSlash : (path : Text) → is_abs path ≡ false → All NoSlash (kept path)
unfolding kept
kept-NoSlash path relative = rw relative (
    All-reverse NoSlash _
      (resolve_all-NoSlash (split path b'/') [] tt (split-contains_byte path b'/')))

clean-join :
    (path : Text)
    → is_abs path ≡ false
    → (clean path == text ".") ≡ false
    → (clean path ≡ join (kept path) b'/') × (kept path ≢ [])
unfolding clean join
clean-join path relative here = (
  ground (arith, eq_refl (text "."), eq_iff (clean path) (text ".")),
  λ e. absurd (ground (arith, e, eq_refl (text "."), eq_refl [])),
)

-- Cleaning a relative path gives `.`, a path that starts with a segment `..`, or a path all of
-- whose segments name an entry.
pub clean-IsInside :
    (path : Text)
    → is_abs path ≡ false
    → (clean path == text ".") ≡ false
    → leaves (clean path) ≡ false
    → IsInside (clean path)
clean-IsInside path relative here inside =
    let (whole, some_left) = clean-join path relative here in
    rw (whole, split-join (kept path) b'/' some_left (kept-NoSlash path relative))
      (elim (kept-cases path relative) [
        | inl plain ↦ plain
        | inr out ↦ absurd (false≢true (sym inside ∙ ap leaves whole ∙ out))
      ])

resolve_all-plain :
    (segs stack : List Text)
    → All IsPlain segs
    → resolve_all false stack segs ≡ reverse segs ++ stack
unfolding resolve_all resolve
resolve_all-plain [] stack h = refl
resolve_all-plain (seg ∷ segs) stack h =
    rw (reverse-cons seg segs, append_assoc (reverse segs) (seg ∷ []) stack, h.0.0, h.0.1, h.0.2)
      (resolve_all-plain segs (seg ∷ stack) h.1)

not_inside : (segs : List Text) → All IsPlain ([] ∷ segs) → ⊥
not_inside segs h = false≢true (sym h.0.0 ∙ eq_refl [])

pub inside_relative : (path : Text) → IsInside path → is_abs path ≡ false
unfolding is_abs split starts_with
inside_relative [] h = refl
inside_relative (a ∷ path) h = elim (Bool-cases (eqb a b'/')) [
  | inl slash ↦ absurd (
      not_inside (split path b'/') (
        subst (λ b. All IsPlain (if b then [] ∷ split path b'/' else push_head a (split path b'/')))
          slash h))
  | inr other ↦ ground arith
]

-- A path all of whose segments name an entry is already clean.
pub clean_inside : (path : Text) → IsInside path → clean path ≡ path
unfolding clean kept
clean_inside [] h = absurd (not_inside [] (unfold split in h))
clean_inside (a ∷ path) h =
    rw
      (
        inside_relative (a ∷ path) h,
        resolve_all-plain (split (a ∷ path) b'/') [] h,
        append-nil (reverse (split (a ∷ path) b'/')),
        reverse-reverse (split (a ∷ path) b'/'),
        join-split (a ∷ path) b'/',
      )
      (unfold ◌==◌ in refl)

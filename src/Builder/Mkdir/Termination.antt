-- ===== src/Builder/Mkdir/Termination.antt =====
-- mkdirAll ends: each call of itself is on a path with a segment less.
use flux_dev.Base.{
  All, Bool, Bool-cases, List, Option, [], ap, arith, drop_last, false, if◌then◌else◌, inl, inr,
  length, none, refl, some, some-injective, suc, sym, true, zero, ℕ, ◌<◌, ◌||◌, ◌∙◌, ◌∷◌, ◌≡◌, ◌≢◌,
}
use flux_dev.Builder.Mkdir.{
  Mkdir, MkdirAnswer, after, dir, error_of, exists, made, mkdir_all, mkdir_failed, retry,
}
use flux_dev.Builder.Mkdir.Dir.{All-drop_last, NoSlash, dir-join, dir_one, length-drop_last}
use flux_dev.FilePath.Confined.{IsInside, IsPlain}
use flux_dev.Text.{Text, text, ◌==◌}
use flux_dev.Text.Equality.{eq_iff}
use flux_dev.Text.Split.{join, join-split, split, split-contains_byte, split-ne-nil}
use mathlib.Core.Bool.{false≢true}
use mathlib.Core.Path.{subst}

-- How a run ended: it is not out of fuel, and its error is the answer of some Mkdir.
abbrev pub Ended : {S : Type 0} → Mkdir S → Option (Option Text × S) → Type 0
Ended mkdir none = ⊥
Ended mkdir (some (none, t)) = Unit {0}
Ended {S} mkdir (some (some message, t)) =
    (s : S) × (q : Text) × (mkdir s q ≡ (mkdir_failed message, t))

retry-Ended :
    {S : Type 0} (mkdir : Mkdir S) (path : Text) (finish : Option Text × S)
    → Ended mkdir (some finish)
    → Ended mkdir (some (retry mkdir path finish))
retry-Ended mkdir path (some message, s) h = h
retry-Ended {S = S} mkdir path (none, s) h = answered (mkdir s path) refl
  where
    answered : (r : MkdirAnswer × S) → mkdir s path ≡ r → Ended mkdir (some (error_of r.0, r.1))
    answered (made, t) e = tt
    answered (exists, t) e = tt
    answered (mkdir_failed message, t) e = (s, path, e)

if-Ended :
    {S : Type 0} (mkdir : Mkdir S) (b : Bool) (one two : Option (Option Text × S))
    → Ended mkdir one
    → Ended mkdir two
    → Ended mkdir (if b then one else two)
if-Ended mkdir true one two h k = h
if-Ended mkdir false one two h k = k

after-Ended :
    {S : Type 0} (mkdir : Mkdir S) (path : Text) (answer : MkdirAnswer) (t : S)
    (parents : Option (Option Text × S))
    → Ended mkdir parents
    → Ended mkdir (after mkdir path answer t parents)
after-Ended mkdir path made t parents h = tt
after-Ended mkdir path exists t parents h = tt
after-Ended mkdir path (mkdir_failed message) t none h = absurd h
after-Ended mkdir path (mkdir_failed message) t (some finish) h = retry-Ended mkdir path finish h

-- One call, given how the call for the parents ends.
step-Ended :
    {S : Type 0} (mkdir : Mkdir S) (fuel : ℕ) (s : S) (path : Text)
    → ((t : S) → Ended mkdir (mkdir_all mkdir fuel t (dir path)))
    → Ended mkdir (mkdir_all mkdir (suc fuel) s path)
unfolding mkdir_all
step-Ended mkdir fuel s path h = if-Ended mkdir (path == text "." || path == []) _ _ tt (
    after-Ended mkdir path (mkdir s path).0 (mkdir s path).1 _
      (if-Ended mkdir (dir path == path) _ _ tt (h (mkdir s path).1)))

dot-Ended :
    {S : Type 0} (mkdir : Mkdir S) (fuel : ℕ) (s : S)
    → Ended mkdir (mkdir_all mkdir (suc fuel) s (text "."))
unfolding mkdir_all ◌==◌
dot-Ended mkdir fuel s = tt

segs-Ended :
    {S : Type 0} (mkdir : Mkdir S) (fuel : ℕ) (s : S) (seg : Text) (segs : List Text)
    → All IsPlain (seg ∷ segs)
    → All NoSlash (seg ∷ segs)
    → length (seg ∷ segs) < fuel
    → Ended mkdir (mkdir_all mkdir fuel s (join (seg ∷ segs) b'/'))
segs-Ended mkdir zero s seg segs h n l = absurd (omega arith)
segs-Ended mkdir (suc zero) s seg segs h n l = absurd (omega arith)
segs-Ended mkdir (suc (suc fuel)) s seg [] h n l =
    step-Ended mkdir (suc fuel) s (join (seg ∷ []) b'/')
      (λ t. rw (dir_one seg n.0) (dot-Ended mkdir fuel t))
segs-Ended mkdir (suc (suc fuel)) s seg (next ∷ segs) h n l =
    step-Ended mkdir (suc fuel) s (join (seg ∷ next ∷ segs) b'/') (λ t.
      rw (dir-join seg next segs h n) (
        segs-Ended mkdir (suc fuel) t seg (drop_last (next ∷ segs))
          (h.0, All-drop_last IsPlain (next ∷ segs) h.1)
          (n.0, All-drop_last NoSlash (next ∷ segs) n.1)
          (omega (arith, length-drop_last next segs, l))))

-- `Mkdir` answered that the path is there, and left this state.
abbrev pub IsThere : {S : Type 0} → Mkdir S → Text → S → Type 0
IsThere {S} mkdir path t = (s : S) × (error_of (mkdir s path).0 ≡ none) × ((mkdir s path).1 ≡ t)

retry-IsThere :
    {S : Type 0} (mkdir : Mkdir S) (path : Text) (finish : Option Text × S) (t : S)
    → some (retry mkdir path finish) ≡ some (none, t)
    → IsThere mkdir path t
retry-IsThere mkdir path (some message, s) t e =
    absurd (let k = ap (λ r. r.0) (some-injective e) in cc)
retry-IsThere mkdir path (none, s) t e =
    (s, ap (λ r. r.0) (some-injective e), ap (λ r. r.1) (some-injective e))

after-IsThere :
    {S : Type 0} (mkdir : Mkdir S) (path : Text) (answer : MkdirAnswer) (s u t : S)
    (parents : Option (Option Text × S))
    → mkdir s path ≡ (answer, u)
    → after mkdir path answer u parents ≡ some (none, t)
    → IsThere mkdir path t
after-IsThere mkdir path made s u t parents a e =
    (s, ap (λ r. error_of r.0) a, ap (λ r. r.1) a ∙ ap (λ r. r.1) (some-injective e))
after-IsThere mkdir path exists s u t parents a e =
    (s, ap (λ r. error_of r.0) a, ap (λ r. r.1) a ∙ ap (λ r. r.1) (some-injective e))
after-IsThere mkdir path (mkdir_failed message) s u t none a e = absurd (cc)
after-IsThere mkdir path (mkdir_failed message) s u t (some finish) a e =
    retry-IsThere mkdir path finish t e

if-false {ℓ} :
    {A : Type ℓ} (b : Bool) (one two three : A)
    → b ≡ false
    → (if b then one else two) ≡ three
    → two ≡ three
if-false true one two three b e = absurd (cc)
if-false false one two three b e = e

mkdir_all-IsThere :
    {S : Type 0} (mkdir : Mkdir S) (fuel : ℕ) (s t : S) (path : Text)
    → (path == text "." || path == []) ≡ false
    → mkdir_all mkdir fuel s path ≡ some (none, t)
    → IsThere mkdir path t
unfolding mkdir_all
mkdir_all-IsThere mkdir zero s t path proper e = absurd (cc)
mkdir_all-IsThere mkdir (suc fuel) s t path proper e =
    after-IsThere mkdir path (mkdir s path).0 s (mkdir s path).1 t _ refl
      (if-false (path == text "." || path == []) _ _ _ proper e)

-- A path whose segments name entries is neither empty nor `.`.
inside_proper : (path : Text) → IsInside path → (path == text "." || path == []) ≡ false
inside_proper path h = elim (Bool-cases (path == text ".")) [
  | inl at_dot ↦ absurd (
      unfold split ◌==◌ in
      (let k = subst IsInside ((eq_iff path (text ".")).0 at_dot) h in false≢true (sym k.0.1)))
  | inr named ↦ elim (Bool-cases (path == [])) [
    | inl empty ↦ absurd (
        unfold split ◌==◌ in
        (let k = subst IsInside ((eq_iff path []).0 empty) h in false≢true (sym k.0.0)))
    | inr some_path ↦ rw (named, some_path) refl
  ]
]

parts-Ended :
    {S : Type 0} (mkdir : Mkdir S) (fuel : ℕ) (s : S) (parts : List Text)
    → parts ≢ []
    → All IsPlain parts
    → All NoSlash parts
    → length parts < fuel
    → Ended mkdir (mkdir_all mkdir fuel s (join parts b'/'))
parts-Ended mkdir fuel s [] k h n l = absurd (k refl)
parts-Ended mkdir fuel s (seg ∷ segs) k h n l = segs-Ended mkdir fuel s seg segs h n l

path-Ended :
    {S : Type 0} (mkdir : Mkdir S) (fuel : ℕ) (s : S) (path : Text)
    → IsInside path
    → length (split path b'/') < fuel
    → Ended mkdir (mkdir_all mkdir fuel s path)
path-Ended mkdir fuel s path h l =
    subst (λ p. Ended mkdir (mkdir_all mkdir fuel s p)) (join-split path b'/')
      (parts-Ended mkdir fuel s (split path b'/') (split-ne-nil path b'/') h
        (split-contains_byte path b'/') l)

-- How mkdirAll ended, with the Mkdir that its error, or the lack of one, comes from.
abbrev pub Answered : {S : Type 0} → Mkdir S → Text → Option Text × S → Type 0
Answered mkdir path (none, t) = IsThere mkdir path t
Answered mkdir path (some message, t) = Ended mkdir (some (some message, t))

-- mkdirAll ends on every path all of whose segments name entries, for every root, with fuel for one
-- call more than the path has segments. An error that it returns is the answer of a Mkdir, which
-- left the state that the run ends in. When it returns none, a Mkdir of the path itself left that
-- state, and answered that the directory was made or exists.
pub mkdir_all-ends :
    {S : Type 0} (mkdir : Mkdir S) (fuel : ℕ) (s : S) (path : Text)
    → IsInside path
    → length (split path b'/') < fuel
    → (finish : Option Text × S) × (mkdir_all mkdir fuel s path ≡ some finish)
      × Answered mkdir path finish
mkdir_all-ends {S = S} mkdir fuel s path h l =
    answered (mkdir_all mkdir fuel s path) refl (path-Ended mkdir fuel s path h l)
  where
    answered :
        (o : Option (Option Text × S))
        → mkdir_all mkdir fuel s path ≡ o
        → Ended mkdir o
        → (finish : Option Text × S) × (mkdir_all mkdir fuel s path ≡ some finish)
          × Answered mkdir path finish
    answered none e k = absurd k
    answered (some (none, t)) e k =
        ((none, t), e, mkdir_all-IsThere mkdir fuel s t path (inside_proper path h) e)
    answered (some (some message, t)) e k = ((some message, t), e, k)

-- ===== src/Base/Errors.antt =====
-- Go's `(T, error)`: a value or an error, with the early return as a bind.
use mathlib.Core.Path.{◌≡◌, refl}
use mathlib.Core.Logic.{◌⊎◌, inl, inr}
use mathlib.Core.Bool.{Bool, true, false}
use mathlib.Core.Option.{Option, none, some}
use native.Mathlib.Omega.{arith}

pub data Result {ℓ} (E : Type 0) (A : Type ℓ) : Type ℓ where
  ok : A → Result E A
  err : E → Result E A

infixl 5 ◌>>=◌ ◌>>◌
abbrev pub ◌>>=◌ {ℓ κ} :
    {E : Type 0} {A : Type ℓ} {B : Type κ} → Result E A → (A → Result E B) → Result E B
ok a >>= f = f a
err e >>= f = err e

abbrev pub ◌>>◌ {ℓ} : {E : Type 0} {B : Type ℓ} → Result E (Unit {0}) → Result E B → Result E B
m >> k = m >>= λ _. k

-- `if !test { return err }`
abbrev pub guard : {E : Type 0} → Bool → E → Result E (Unit {0})
guard true e = ok tt
guard false e = err e

-- A failed lookup of Go's two-result form, `v, ok := m[k]`.
abbrev pub found {ℓ} : {E : Type 0} {A : Type ℓ} → Option A → E → Result E A
found none e = err e
found (some a) e = ok a

-- An error wrapped on its way up, `fmt.Errorf("…: %w", err)`.
abbrev pub wrap {ℓ} : {E F : Type 0} {A : Type ℓ} → (E → F) → Result E A → Result F A
wrap f (ok a) = ok a
wrap f (err e) = err (f e)

abbrev pub is_ok {ℓ} : {E : Type 0} {A : Type ℓ} → Result E A → Bool
is_ok (ok a) = true
is_ok (err e) = false

pub is_ok-value {ℓ} :
    {E : Type 0} {A : Type ℓ} (m : Result E A) → is_ok m ≡ true → (a : A) × (m ≡ ok a)
is_ok-value (ok a) h = (a, refl)
is_ok-value (err e) h = cc

pub >>=-eq-ok {ℓ κ} :
    {E : Type 0} {X : Type ℓ} {Y : Type κ} (r : Result E X) (rest : X → Result E Y) {y : Y}
    → (r >>= rest) ≡ ok y
    → (x : X) × (r ≡ ok x) × (rest x ≡ ok y)
>>=-eq-ok (ok x) rest done = (x, refl, done)
>>=-eq-ok (err e) rest done = cc

pub wrap-eq-ok {ℓ} :
    {E F : Type 0} {A : Type ℓ} (f : E → F) (m : Result E A) {a : A} → wrap f m ≡ ok a → m ≡ ok a
wrap-eq-ok f (ok b) h = ground arith
wrap-eq-ok f (err e) h = cc

pub ok-injective {ℓ} :
    {E : Type 0} {A : Type ℓ} {a b : A} → ◌≡◌ {A = Result E A} (ok a) (ok b) → a ≡ b
ok-injective h = cc

>>=-cong_right {ℓ κ} :
    {E : Type 0} {A : Type ℓ} {B : Type κ} {f g : A → Result E B} (n : Result E A)
    → ((a : A) → f a ≡ g a)
    → (n >>= f) ≡ (n >>= g)
>>=-cong_right (ok a) k = k a
>>=-cong_right (err e) k = refl

pub >>=-cong {ℓ κ} :
    {E : Type 0} {A : Type ℓ} {B : Type κ} {m n : Result E A} {f g : A → Result E B}
    → m ≡ n
    → ((a : A) → f a ≡ g a)
    → (m >>= f) ≡ (n >>= g)
>>=-cong h k = rw h (>>=-cong_right _ k)

pub Result-cases {ℓ} :
    {E : Type 0} {A : Type ℓ} (m : Result E A) → ((a : A) × (m ≡ ok a)) ⊎ ((e : E) × (m ≡ err e))
Result-cases (ok a) = inl (a, refl)
Result-cases (err e) = inr (e, refl)

pub >>=-eq-err {ℓ κ} :
    {E : Type 0} {X : Type ℓ} {Y : Type κ} (r : Result E X) (rest : X → Result E Y) {e : E}
    → (r >>= rest) ≡ err e
    → (r ≡ err e) ⊎ ((x : X) × (r ≡ ok x) × (rest x ≡ err e))
>>=-eq-err (ok x) rest h = inr (x, refl, h)
>>=-eq-err (err f) rest h = inl cc

pub wrap-eq-err {ℓ} :
    {E F : Type 0} {A : Type ℓ} (f : E → F) (m : Result E A) {e : F}
    → wrap f m ≡ err e
    → (x : E) × (f x ≡ e)
wrap-eq-err f (ok a) h = cc
wrap-eq-err f (err x) h = (x, cc)

-- ===== src/Dict.antt =====
-- Go maps with string keys, as association lists. The first entry of a key counts, and `put` keeps
-- the place of a key that is there. Iteration follows the list, one of the orders that Go allows.
use flux_dev.Base.{
  ◌++◌, ◌≡◌, refl, true, false, ◌||◌, Option, none, some, List, [], ◌∷◌, arith, if◌then◌else◌,
}
use flux_dev.Text.{Text, ◌==◌, has, Distinct}
use flux_dev.Text.Equality.{eq_iff}

abbrev pub Dict {ℓ} : Type ℓ → Type ℓ
Dict V = List (Text × V)

module _ {ℓ} {V : Type ℓ} where
  -- m[k]
  unfoldable pub get : Text → Dict V → Option V
  get k [] = none
  get k ((j, v) ∷ m) = if j == k then some v else get k m

  -- m[k] = v
  unfoldable pub put : Text → V → Dict V → Dict V
  put k v [] = (k, v) ∷ []
  put k v ((j, w) ∷ m) = if j == k then (k, v) ∷ m else (j, w) ∷ put k v m

  unfoldable pub keys : Dict V → List Text
  keys [] = []
  keys ((k, v) ∷ m) = k ∷ keys m

  -- `for k, v := range m { out[k] = v }`
  unfoldable pub overlay : Dict V → Dict V → Dict V
  overlay out [] = out
  overlay out ((k, v) ∷ m) = overlay (put k v out) m

  pub get-put :
      (k j : Text) (v : V) (m : Dict V) → get j (put k v m) ≡ (if k == j then some v else get j m)
  unfolding get put
  get-put k j v [] = refl
  get-put k j v ((i, w) ∷ m) = ground (arith, eq_iff k j, eq_iff i k, eq_iff i j, get-put k j v m)

  pub has-keys : (k : Text) (m : Dict V) → has k (keys m) ≡ false → get k m ≡ none
  unfolding get keys has
  has-keys k [] h = refl
  has-keys k ((j, v) ∷ m) h = ground (arith, has-keys k m)

  pub get-none : (k : Text) (m : Dict V) → get k m ≡ none → has k (keys m) ≡ false
  unfolding get keys has
  get-none k [] h = refl
  get-none k ((j, v) ∷ m) h = ground (arith, get-none k m)

  pub has-keys-put :
      (j k : Text) (v : V) (m : Dict V) → has j (keys (put k v m)) ≡ (k == j || has j (keys m))
  unfolding put keys has
  has-keys-put j k v [] = refl
  has-keys-put j k v ((i, w) ∷ m) = ground (arith, eq_iff i k, has-keys-put j k v m)

  pub keys-put_old :
      (k : Text) (v : V) (m : Dict V) → has k (keys m) ≡ true → keys (put k v m) ≡ keys m
  unfolding put keys has
  keys-put_old k v [] h = cc
  keys-put_old k v ((i, w) ∷ m) h = ground (arith, eq_iff i k, keys-put_old k v m)

  pub keys-put-Distinct :
      (k : Text) (v : V) (m : Dict V) → Distinct (keys m) → Distinct (keys (put k v m))
  unfolding put keys has
  keys-put-Distinct k v [] d = (refl, tt)
  keys-put-Distinct k v ((i, w) ∷ m) d =
      ground (arith, eq_iff i k, keys-put-Distinct k v m, has-keys-put i k v m, eq_iff k i)

  pub put-get : (k : Text) (v : V) (m : Dict V) → get k m ≡ some v → put k v m ≡ m
  unfolding get put
  put-get k v [] h = cc
  put-get k v ((j, w) ∷ m) h = ground (arith, eq_iff j k, put-get k v m)

  pub get-overlay :
      (k : Text) (out m : Dict V)
      → Distinct (keys m)
      → get k (overlay out m) ≡ elim (get k m) [ none ↦ get k out | some v ↦ some v ]
  unfolding overlay get keys
  get-overlay k out [] d = refl
  get-overlay k out ((j, v) ∷ m) d =
      ground
        (arith, get-overlay k (put j v out) m d.1, get-put j k v out, eq_iff j k, has-keys j m d.0)

  pub put-fresh : (k : Text) (v : V) (m : Dict V) → get k m ≡ none → put k v m ≡ m ++ (k, v) ∷ []
  unfolding get put
  put-fresh k v [] h = refl
  put-fresh k v ((j, w) ∷ m) h = ground (arith, put-fresh k v m)

  pub keys-append : (m n : Dict V) → keys (m ++ n) ≡ keys m ++ keys n
  unfolding keys
  keys-append [] n = refl
  keys-append ((k, v) ∷ m) n = rw (keys-append m n)

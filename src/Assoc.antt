-- ===== src/Assoc.antt =====
-- Go's maps, as association lists over keys with a decidable equality. Their order is not observed.
use argos_fx.Prelude.{◌≡◌, refl, List, [], ◌∷◌, Option, none, some, arith, ite, ◌≤◌, ◌+◌, length}

module _ {ℓ} {K V : Type ℓ} (dec : Discrete K) where
  -- `v, ok := m[k]`.
  unfoldable pub get : K → List (K × V) → Option V
  get k [] = none
  get k ((j, v) ∷ m) = ite (dec j k) (some v) (get k m)

  -- `m[k] = v`.
  unfoldable pub put : K → V → List (K × V) → List (K × V)
  put k v [] = (k, v) ∷ []
  put k v ((j, u) ∷ m) = ite (dec j k) ((k, v) ∷ m) ((j, u) ∷ put k v m)

  -- `delete(m, k)`.
  unfoldable pub remove : K → List (K × V) → List (K × V)
  remove k [] = []
  remove k ((j, v) ∷ m) = ite (dec j k) (remove k m) ((j, v) ∷ remove k m)

  pub get-put :
      (k q : K) (v : V) (m : List (K × V)) → get q (put k v m) ≡ ite (dec k q) (some v) (get q m)
  unfolding get put
  get-put k q v [] = refl
  get-put k q v ((j, u) ∷ m) = ground (arith, get-put k q v m)

  pub get-remove : (k q : K) (m : List (K × V)) → get q (remove k m) ≡ ite (dec k q) none (get q m)
  unfolding get remove
  get-remove k q [] = ground arith
  get-remove k q ((j, u) ∷ m) = ground (arith, get-remove k q m)

  pub length-put-le : (k : K) (v : V) (m : List (K × V)) → length (put k v m) ≤ length m + 1
  unfolding put
  length-put-le k v [] = omega arith
  length-put-le k v ((j, u) ∷ m) = ground (arith, length-put-le k v m)

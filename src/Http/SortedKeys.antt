-- ===== src/Http/SortedKeys.antt =====
-- internal/httpapi/httpapi.go: `sortedKeys`, which exchanges neighbours in place. The outer loop's
-- round puts the least of what is left in front: the inner loop carries that least value along.
use argos_fx.Prelude.{ℕ, suc, List, [], ◌∷◌, length, if◌then◌else◌}
use argos_fx.Text.{Text, text_less}

-- The inner loop at the slice `x ∷ rest`: wherever the value at `j` is less, the two are exchanged.
unfoldable pub exchange : Text → List Text → Text × List Text
exchange x [] = (x, [])
exchange x (y ∷ rest) =
    let (x', rest') = exchange (if text_less y x then y else x) rest in
    (x', (if text_less y x then x else y) ∷ rest')

-- The outer loop; the first argument counts its rounds.
unfoldable pub exchange_sort : ℕ → List Text → List Text
unfolding exchange
exchange_sort (suc n) (x ∷ rest) = let (x', rest') = exchange x rest in x' ∷ exchange_sort n rest'
exchange_sort _ xs = xs

-- `sortedKeys`, of the keys in the order in which the map gives them.
unfoldable pub sorted_keys : List Text → List Text
unfolding exchange_sort
sorted_keys out = exchange_sort (length out) out

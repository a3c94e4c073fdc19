-- ===== src/Http/Sorted.antt =====
-- internal/httpapi/httpapi.go: `sortedKeys` sorts, and the order of the map does not matter.
use argos_fx.Prelude.{
  true, false, ℕ, zero, suc, ap, sym, ◌≤◌, ◌≡◌, refl, ◌∙◌, inl, inr, List, [], ◌∷◌, Perm, length,
  All, arith, if◌then◌else◌, Bool-cases, IsSorted,
}
use mathlib.Core.List.Perm
use argos_fx.Prelude.Sort.{sort, sort_insert, All-sort, sort-perm}
use argos_fx.Prelude.Sorted.{Before, Before-trans, sort_congr, sort-IsSorted}
use argos_fx.Text.{Text, text_less}
use argos_fx.Text.Laws.{Any, text_less-IsStrict}
use argos_fx.Http.SortedKeys.{exchange, exchange_sort, sorted_keys}
open text_less-IsStrict use {asymm, connected}

All-Any : (xs : List Text) → All Any xs
All-Any [] = tt
All-Any (x ∷ xs) = (tt, All-Any xs)

length-exchange : (x : Text) (xs : List Text) → length (exchange x xs).1 ≡ length xs
unfolding exchange
length-exchange x [] = refl
length-exchange x (y ∷ ys) = cc (length-exchange (if text_less y x then y else x) ys)

exchange_nil : (x : Text) → exchange x [] ≡ (x, [])
unfolding exchange
exchange_nil x = refl

exchange_less :
    (x y : Text) (ys : List Text)
    → text_less y x ≡ true
    → exchange x (y ∷ ys) ≡ ((exchange y ys).0, x ∷ (exchange y ys).1)
unfolding exchange
exchange_less x y ys e = rw (e, if◌then◌else◌)

exchange_not_less :
    (x y : Text) (ys : List Text)
    → text_less y x ≡ false
    → exchange x (y ∷ ys) ≡ ((exchange x ys).0, y ∷ (exchange x ys).1)
unfolding exchange
exchange_not_less x y ys e = rw (e, if◌then◌else◌)

exchange-perm : (x : Text) (xs : List Text) → Perm ((exchange x xs).0 ∷ (exchange x xs).1) (x ∷ xs)
exchange-perm x [] = rw (exchange_nil x) (Perm.refl _)
exchange-perm x (y ∷ ys) = elim (Bool-cases (text_less y x)) [
  | inl e ↦
      rw (exchange_less x y ys e) (Perm.trans (Perm.swap x _ _) (Perm.cons x (exchange-perm y ys)))
  | inr e ↦ rw (exchange_not_less x y ys e) (
      Perm.trans (Perm.swap y _ _)
        (Perm.trans (Perm.cons y (exchange-perm x ys)) (Perm.swap x y ys)))
]

Before-refl : (x : Text) → Before text_less x x
Before-refl x = elim (Bool-cases (text_less x x)) [ inl e ↦ asymm x x tt tt e | inr e ↦ e ]

-- The value carried along is the least.
exchange-Before :
    (x : Text) (xs : List Text)
    → Before text_less (exchange x xs).0 x
      × All (Before text_less (exchange x xs).0) (exchange x xs).1
exchange-Before x [] = rw (exchange_nil x) (Before-refl x, tt)
exchange-Before x (y ∷ ys) = elim (Bool-cases (text_less y x)) [
  | inl e ↦ rw (exchange_less x y ys e) (
      let (h, hs) = exchange-Before y ys in
      let least = Before-trans text_less-IsStrict _ y x tt tt tt h (asymm y x tt tt e) in
      (least, (least, hs)))
  | inr e ↦ rw (exchange_not_less x y ys e) (
      let (h, hs) = exchange-Before x ys in
      (h, (Before-trans text_less-IsStrict _ x y tt tt tt h e, hs)))
]

sort_insert_least :
    (x : Text) (ys : List Text) → All (Before text_less x) ys → sort_insert text_less x ys ≡ x ∷ ys
unfolding sort_insert
sort_insert_least x [] h = refl
sort_insert_least x (y ∷ ys) (h, hs) =
    ground (arith, sort_insert_least x ys hs, connected x y tt tt)

exchange_sort-sort :
    (n : ℕ) (xs : List Text) → length xs ≤ n → exchange_sort n xs ≡ sort text_less xs
unfolding exchange_sort sort
exchange_sort-sort zero [] h = refl
exchange_sort-sort (suc n) [] h = refl
exchange_sort-sort zero (x ∷ xs) h = absurd (omega arith)
exchange_sort-sort (suc n) (x ∷ xs) h =
    let (m, rest) = exchange x xs in
    let short : length rest ≤ n = rw (length-exchange x xs) (omega arith) in
    let perm = exchange-perm x xs in
    let least = All-sort text_less (Before text_less m) rest (exchange-Before x xs).1 in
    let set : IsSet Text = hlevel in
    ap (m ∷◌) (exchange_sort-sort n rest short)
    ∙ sym (sort_insert_least m (sort text_less rest) least)
    ∙ sort_congr text_less-IsStrict set (m ∷ rest) (x ∷ xs) perm (All-Any (m ∷ rest))

-- The loops of sortedKeys end with the list sorted: its values are those of the map, in ascending
-- order, and they are the same list whatever order the map gives its keys in.
pub sorted_keys-IsSorted :
    (names : List Text)
    → Perm (sorted_keys names) names
      × IsSorted (Before text_less) (sorted_keys names)
      × ((other : List Text) → Perm names other → sorted_keys names ≡ sorted_keys other)
unfolding sorted_keys
sorted_keys-IsSorted names =
    let same : (xs : List Text) → exchange_sort (length xs) xs ≡ sort text_less xs =
      λ xs. exchange_sort-sort (length xs) xs (omega arith) in
    let set : IsSet Text = hlevel in
    (
      rw (sorted_keys, same names) (sort-perm text_less names),
      rw (sorted_keys, same names) (sort-IsSorted text_less-IsStrict names (All-Any names)),
      λ other perm.
          same names
          ∙ sort_congr text_less-IsStrict set names other perm (All-Any names)
          ∙ sym (same other),
    )

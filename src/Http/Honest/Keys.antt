-- ===== src/Http/Honest/Keys.antt =====
-- internal/httpapi/httpapi.go: the keys of the response cache, and the bodies that are stored under
-- them.
use argos_fx.Prelude.{
  ℕ, ◌<◌, ◌≡◌, ◌∙◌, refl, sym, ap, arith, [], ◌∷◌, ◌++◌, some, ltb, if◌then◌else◌,
}
use argos_fx.Text.{Text, codes, byte_length}
use argos_fx.Clock.{Time}
use argos_fx.Aggregator.Types.{Result, usd}
use argos_fx.Aggregator.Compute.Names.{IsOf}
use argos_fx.Http.Types.{
  Library, single_rate_of, RatesResponse, HistoryResponse, rate, rates, history,
}
use argos_fx.Http.Site.{pair_key}

-- How many bytes UTF-8 has for a code point.
abbrev width : ℕ → ℕ
width c = if ltb c 0x80 then 1 else if ltb c 0x800 then 2 else if ltb c 0x10000 then 3 else 4

width_pos : (c : ℕ) → 0 < width c
width_pos c = ground arith

-- Texts of the same number of bytes are split off a text in one way.
split_unique :
    (a b x y : Text) → byte_length a ≡ byte_length b → a ++ x ≡ b ++ y → (a ≡ b) × (x ≡ y)
unfolding byte_length
split_unique [] [] x y n h = (refl, h)
split_unique [] (c ∷ b) x y n h = absurd (omega (arith, width_pos c))
split_unique (c ∷ a) [] x y n h = absurd (omega (arith, width_pos c))
split_unique (c ∷ a) (e ∷ b) x y n h =
    let same : c ≡ e = cc in
    let rest : a ++ x ≡ b ++ y = cc in
    let (p, q) = split_unique a b x y (omega (arith, ap width same)) rest in (cc, q)

abbrev head_of : Text → ℕ
head_of [] = 0
head_of (c ∷ s) = c

-- Of which results a rate may be answered for a pair.
module _ {F : Type 0} (lib : Library F) (computed : Text → Text → Result F → Type 0) where
  -- The bodies under the keys: the encoded answer for the pair, for all rates or for the history
  -- of the pair that the key names.
  pub data IsWritten : Text → Text → Type 0 where
    of_pair :
        (from to : Text) (res : Result F) (t : Time) {body : Text}
        → byte_length from ≡ 3
        → IsOf from to res
        → computed from to res
        → lib.marshal (rate (single_rate_of lib res t)) ≡ some body
        → IsWritten (pair_key from to) body
    of_all :
        (r : RatesResponse F) {body : Text}
        → r.base ≡ usd
        → lib.marshal (rates r) ≡ some body
        → IsWritten (codes "USD:*") body
    of_history :
        (r : HistoryResponse F) (rest : Text) {body : Text}
        → lib.marshal (history r) ≡ some body
        → IsWritten (codes "hist:" ++ (r.from ++ (codes ":" ++ (r.to ++ rest)))) body

  -- The body is the encoded rate of the pair, of a result for the pair.
  pub record IsRateOf (from to body : Text) : Type 0 where
    pub result : Result F
    pub time : Time
    pub named : IsOf from to result
    pub from_result : computed from to result
    pub encoded : lib.marshal (rate (single_rate_of lib result time)) ≡ some body

  -- The keys of the three kinds differ, and a key of a pair is of one pair only.
  pub pair-IsWritten :
      (key body from to : Text)
      → byte_length from ≡ 3
      → key ≡ pair_key from to
      → IsWritten key body
      → IsRateOf from to body
  unfolding byte_length
  pair-IsWritten key body from to three same (of_pair f g res t p named known e) =
      let (from_is, rest) = split_unique f from _ _ (p ∙ sym three) same in
      let to_is : g ≡ to = cc rest in
      rw (← from_is, ← to_is)
        (record { result = res; time = t; named = named; from_result = known; encoded = e })
  pair-IsWritten key body from to three same (of_all r u e) =
      let (f, rest) = split_unique (codes "USD") from (codes ":*") _ (sym three) same in
      let heads = ap head_of rest in absurd (omega (arith, heads))
  pair-IsWritten key body from to three same (of_history r x e) =
      let (f, rest) = split_unique (codes "his") from (codes "t:" ++ _) _ (sym three) same in
      let heads = ap head_of rest in absurd (omega (arith, heads))

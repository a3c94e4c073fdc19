-- ===== src/Config/Allowed.antt =====
-- internal/config/config.go: which currencies `LoadCurrencies` allows.
use argos_fx.Prelude.{
  ◌≡◌, refl, ℕ, ◌⊎◌, true, Bool-cases, ◌&&◌, inl, inr, List, [], ◌∷◌, All, any, arith, ◌==◌, ==_iff,
  if◌then◌else◌, All-map_pred,
}
use argos_fx.Text.{
  Text, is_empty, upper_code, to_upper, is_space, trim_left, trim_right, trim_space, byte_length,
  split,
}
use argos_fx.Text.Laws.{upper_code_idem}
use argos_fx.Error.{Error, Outcome, ok, err}
use argos_fx.Store.{text_eq}
use argos_fx.Config.Codes.{
  Currencies, usd, comma, clean, allow, allow_all, with_usd, load_currencies,
}

module _ (P : ℕ → Type 0) where
  All-trim_left : (s : Text) → All P s → All P (trim_left s)
  unfolding trim_left
  All-trim_left [] _ = tt
  All-trim_left (c ∷ s) (p, ps) = elim (Bool-cases (is_space c)) [
    | inl h ↦ rw (h, if◌then◌else◌) (All-trim_left s ps)
    | inr h ↦ rw (h, if◌then◌else◌) (p, ps)
  ]

  All-trim_right : (s : Text) → All P s → All P (trim_right s)
  unfolding trim_right
  All-trim_right [] _ = tt
  All-trim_right (c ∷ s) (p, ps) = elim (Bool-cases (is_space c && is_empty (trim_right s))) [
    | inl h ↦ rw (h, if◌then◌else◌) tt
    | inr h ↦ rw (h, if◌then◌else◌) (p, All-trim_right s ps)
  ]

abbrev IsUpper : Text → Type 0
IsUpper = All λ c. upper_code c ≡ c

to_upper-IsUpper : (s : Text) → IsUpper (to_upper s)
unfolding to_upper
to_upper-IsUpper [] = tt
to_upper-IsUpper (c ∷ s) = (upper_code_idem c, to_upper-IsUpper s)

to_upper_id : (s : Text) → IsUpper s → to_upper s ≡ s
unfolding to_upper
to_upper_id [] _ = refl
to_upper_id (c ∷ s) (p, ps) = cc (p, to_upper_id s ps)

-- Three bytes in upper case.
abbrev pub IsCode : Text → Type 0
IsCode code = (byte_length code ≡ 3) × (to_upper code ≡ code)

clean_upper : (piece : Text) → to_upper (clean piece) ≡ clean piece
unfolding trim_space
clean_upper piece = to_upper_id _ (All-trim_right _ _ (All-trim_left _ _ (to_upper-IsUpper piece)))

abbrev pub IsAllowed : Text → List Text → Type 0
IsAllowed code allowed = any (text_eq code) allowed ≡ true

-- A blank piece is skipped.
abbrev pub IsBlank : Text → Type 0
IsBlank piece = is_empty (clean piece) ≡ true

text_eq_refl : (s : Text) → text_eq s s ≡ true
text_eq_refl s = ground arith

allow_new : (code : Text) (l : List Text) → IsAllowed code (allow code l)
unfolding allow
allow_new code l = elim (Bool-cases (any (text_eq code) l)) [
  | inl h ↦ rw (h, if◌then◌else◌) h
  | inr h ↦ rw (h, if◌then◌else◌) (rw (text_eq_refl code) refl)
]

allow_kept : (code q : Text) (l : List Text) → IsAllowed q l → IsAllowed q (allow code l)
unfolding allow
allow_kept code q l h = elim (Bool-cases (any (text_eq code) l)) [
  | inl e ↦ rw (e, if◌then◌else◌) h
  | inr e ↦ rw (e, if◌then◌else◌) (ground arith)
]

allow-IsCode :
    (code : Text) (l : List Text) → IsCode code → All IsCode l → All IsCode (allow code l)
unfolding allow
allow-IsCode code l p ps = elim (Bool-cases (any (text_eq code) l)) [
  | inl e ↦ rw (e, if◌then◌else◌) ps
  | inr e ↦ rw (e, if◌then◌else◌) (p, ps)
]

-- What the loop does to the codes so far.
record IsExtended (pieces l l' : List Text) : Type 0 where
  kept : (q : Text) → IsAllowed q l → IsAllowed q l'
  heard : All (λ piece. IsBlank piece ⊎ IsAllowed (clean piece) l') pieces
  only_codes : All IsCode l → All IsCode l'

allow_all_ok : (pieces l l' : List Text) → allow_all pieces l ≡ ok l' → IsExtended pieces l l'
unfolding allow_all
allow_all_ok [] l l' h =
    let same : l ≡ l' = ground arith in
    record { kept = λ q a. rw (← same) a; heard = tt; only_codes = λ ps. rw (← same) ps }
allow_all_ok (piece ∷ pieces) l l' h = elim (Bool-cases (is_empty (clean piece))) [
  | inl blank ↦
      let after : allow_all pieces l ≡ ok l' = rw (allow_all, blank, if◌then◌else◌) at h in
      let e = allow_all_ok pieces l l' after in
      record { kept = e.kept; heard = (inl blank, e.heard); only_codes = e.only_codes }
  | inr some_code ↦ elim (Bool-cases (byte_length (clean piece) == 3)) [
    | inl three ↦
        let code = clean piece in
        let after : allow_all pieces (allow code l) ≡ ok l' =
          rw (allow_all, some_code, three, if◌then◌else◌) at h in
        let e = allow_all_ok pieces (allow code l) l' after in
        let is_code : IsCode code = ((==_iff _ _).0 three, clean_upper piece) in
        record {
          kept = λ q a. e.kept q (allow_kept code q l a);
          heard = (inr (e.kept code (allow_new code l)), e.heard);
          only_codes = λ ps. e.only_codes (allow-IsCode code l is_code ps);
        }
    | inr other ↦ absurd (no_error (rw (allow_all, some_code, other, if◌then◌else◌) at h))
  ]
]
  where
    no_error : {e : Error} {r : List Text} → err e ≡ ok r → ⊥
    no_error h = cc

usd-IsCode : IsCode usd
unfolding byte_length to_upper upper_code
usd-IsCode = (refl, refl)

abbrev IsHeard : List Text → Text → Type 0
IsHeard l piece = IsBlank piece ⊎ IsAllowed (clean piece) l

IsHeard-allow :
    (code : Text) (l : List Text) (piece : Text) → IsHeard l piece → IsHeard (allow code l) piece
IsHeard-allow code l piece (inl blank) = inl blank
IsHeard-allow code l piece (inr a) = inr (allow_kept code (clean piece) l a)

with_usd_ok :
    (pieces : List Text) (r : Outcome (List Text)) (c : Currencies)
    → allow_all pieces [] ≡ r
    → with_usd r ≡ ok c
    → IsAllowed usd c.allowed × All IsCode c.allowed × All (IsHeard c.allowed) pieces
with_usd_ok pieces (err x) c e h = absurd (ground arith)
with_usd_ok pieces (ok l) c e h =
    let same : allow usd l ≡ c.allowed = ground arith in
    let x = allow_all_ok pieces [] l e in
    rw (← same) (
      allow_new usd l,
      allow-IsCode usd l usd-IsCode (x.only_codes tt),
      All-map_pred (IsHeard-allow usd l) pieces x.heard,
    )

-- Whatever ARGOSFX_CURRENCIES holds: if `LoadCurrencies` accepts it, USD is allowed, every allowed
-- code has three bytes and is in upper case, and every piece between commas that is not blank is
-- allowed, trimmed and in upper case.
pub load_currencies_ok :
    (value : Text) (c : Currencies)
    → load_currencies value ≡ ok c
    → IsAllowed usd c.allowed
      × All IsCode c.allowed
      × All
          (λ piece. IsBlank piece ⊎ IsAllowed (clean piece) c.allowed)
          (split comma (trim_space value))
unfolding load_currencies
load_currencies_ok value c h = elim (Bool-cases (is_empty (trim_space value))) [
  | inl blank ↦ absurd (no_error (rw (load_currencies, blank, if◌then◌else◌) at h))
  | inr full ↦
      with_usd_ok (split comma (trim_space value)) _ c refl
        (rw (load_currencies, full, if◌then◌else◌) at h)
]
  where
    no_error : {e : Error} {r : Currencies} → err e ≡ ok r → ⊥
    no_error h = cc

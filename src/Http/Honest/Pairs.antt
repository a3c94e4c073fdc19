-- ===== src/Http/Honest/Pairs.antt =====
-- internal/httpapi/httpapi.go: the answers of `singleRate` are of the pair that was asked for.
use argos_fx.Prelude.{
  ℕ, ◌≢◌, ◌≡◌, refl, ◌⊎◌, Bool-cases, inl, inr, [], Option, none, some, Option-cases, All, any,
  arith, if◌then◌else◌,
}
use argos_fx.Text.{Text, to_upper}
use argos_fx.Clock.{Time}
use argos_fx.Error.{Error, Outcome, ok, err, is_insufficient}
use argos_fx.Float.{Double}
use argos_fx.Store.{text_eq}
use argos_fx.Config.Allowed.{IsCode}
use argos_fx.Aggregator.Types.{Config, Result}
use argos_fx.Http.Types.{
  Server, Library, Json, Response, rate, single_rate_of, write_error, write_bytes, with_max_age,
}
use argos_fx.Http.Site.{Site, ◌>>=◌, pure, run, now, cache_store, pair_key}
use argos_fx.Http.Honest.{AreWritten, cache_lookup-IsWritten}
use argos_fx.Http.Honest.Keys.{IsRateOf, pair-IsWritten}
use argos_fx.Http.Honest.Handlers.{IsSource, IsResult, compute-IsResult, any-IsCode}
use argos_fx.Http.Rates.{
  is_allowed, rate_failed, rate_result, rate_found, single_upper, single_rate,
}

module _ {F : Type 0} (lib : Library F) (computed : Text → Text → Result F → Type 0) where
  -- An answer with the status 200 is empty or the encoded rate of a result for the pair.
  pub record IsHonestAnswer (from to : Text) (r : Response) : Type 0 where
    pub says : r.status ≡ 200 → (r.body ≡ []) ⊎ IsRateOf lib computed from to r.body

module _ {F : Type 0} ⦃d : Double F⦄ (lib : Library F) (s : Server F)
    (computed : Text → Text → Result F → Type 0) where
  failed_lem :
      (from to : Text) (e : Error) → IsHonestAnswer lib computed from to (rate_failed lib s e)
  unfolding rate_failed write_error
  failed_lem from to e = elim (Bool-cases (is_insufficient e)) [
    | inl k ↦ rw (rate_failed, k, if◌then◌else◌) (record { says = λ h. absurd (omega (arith, h)) })
    | inr k ↦ rw (rate_failed, k, if◌then◌else◌) (record { says = λ h. absurd (omega (arith, h)) })
  ]

  stored_body :
      (key : Text) (v : Json F) (site : Site F)
      → ((cache_store lib key v site).0 ≡ [])
        ⊎ (lib.marshal v ≡ some (cache_store lib key v site).0)
  unfolding cache_store
  stored_body key v site = elim (Option-cases (lib.marshal v)) [
    | inl e ↦ rw (cache_store, e) (inl refl)
    | inr (body, e) ↦ rw (cache_store, e) (inr refl)
  ]

  body_lem :
      (from to : Text) (res : Result F) (t : Time) (body : Text)
      → IsResult computed from to res
      → (body ≡ []) ⊎ (lib.marshal (rate (single_rate_of lib res t)) ≡ some body)
      → IsHonestAnswer lib computed from to (with_max_age lib s (write_bytes body))
  unfolding with_max_age write_bytes single_rate_of
  body_lem from to res t body known (inl e) = record { says = λ h. inl e }
  body_lem from to res t body known (inr e) = record {
    says = λ h.
        inr
          (record { result = res; time = t; named = known.0; from_result = known.1; encoded = e });
  }

  result_lem :
      (from to : Text) (r : Outcome (Result F)) (site : Site F)
      → ((res : Result F) → r ≡ ok res → IsResult computed from to res)
      → IsHonestAnswer lib computed from to (rate_result lib s from to r site).0
  unfolding rate_result ◌>>=◌ pure now
  result_lem from to (err e) site h = failed_lem from to e
  result_lem from to (ok res) site h = body_lem from to res _ _ (h res refl) (stored_body _ _ _)

  found_lem :
      (cfg : Config F) (from to : Text) (found : Option Text) (site : Site F)
      → IsSource computed cfg
      → IsCode from
      → IsCode to
      → ((body : Text) → found ≡ some body → IsRateOf lib computed from to body)
      → IsHonestAnswer lib computed from to (rate_found lib s cfg from to found site).0
  unfolding rate_found ◌>>=◌ pure run with_max_age write_bytes
  found_lem cfg from to (some body) site source p q h = record { says = λ _. inr (h body refl) }
  found_lem cfg from to none site source (p, up) (q, uq) h =
      result_lem from to _ _
        ((compute-IsResult computed cfg from to source up uq).at_success site.world)

  refused_lem :
      (from to message : Text) (code : ℕ)
      → code ≢ 200
      → IsHonestAnswer lib computed from to (write_error lib code message)
  unfolding write_error
  refused_lem from to message code h = record { says = λ k. absurd (h k) }

  single_upper-answer :
      (from to : Text) (site : Site F)
      → ((cfg : Config F) → s.agg ≡ some cfg → IsSource computed cfg)
      → All IsCode s.currencies
      → AreWritten lib computed site.cache
      → IsHonestAnswer lib computed from to (single_upper lib s from to site).0
  unfolding single_upper is_allowed pure ◌>>=◌
  single_upper-answer from to site sources ps w =
      elim (Bool-cases (any (text_eq from) s.currencies)) [
        | inr e ↦ rw (e, if◌then◌else◌) (refused_lem from to _ 400 (λ k. absurd (omega (arith, k))))
        | inl e ↦ elim (Bool-cases (any (text_eq to) s.currencies)) [
          | inr f ↦
              rw (e, f, if◌then◌else◌) (refused_lem from to _ 400 (λ k. absurd (omega (arith, k))))
          | inl f ↦ elim (Option-cases s.agg) [
            | inl k ↦
                rw (e, f, k, if◌then◌else◌)
                  (refused_lem from to _ 503 (λ k. absurd (omega (arith, k))))
            | inr (cfg, k) ↦
                let p = any-IsCode from s.currencies ps e in
                let q = any-IsCode to s.currencies ps f in
                rw (e, f, k, if◌then◌else◌)
                  (found_lem cfg from to _ _ (sources cfg k) p q λ body h.
                    pair-IsWritten lib computed (pair_key from to) body from to p.0 refl
                      (cache_lookup-IsWritten lib computed (pair_key from to) body site w h))
          ]
        ]
      ]

  -- From a cache that only the handlers have written to: an answer of `singleRate` with the status
  -- 200 is empty or the encoded rate of a result for the pair that was asked for, in upper case.
  pub single_rate-IsHonestAnswer :
      (base quote : Text) (site : Site F)
      → ((cfg : Config F) → s.agg ≡ some cfg → IsSource computed cfg)
      → All IsCode s.currencies
      → AreWritten lib computed site.cache
      → IsHonestAnswer lib computed
          (to_upper base)
          (to_upper quote)
          (single_rate lib s base quote site).0
  unfolding single_rate
  single_rate-IsHonestAnswer base quote site sources ps w =
      single_upper-answer (to_upper base) (to_upper quote) site sources ps w

-- ===== src/Http/Failed.antt =====
-- internal/httpapi/httpapi.go: the answer when a rate cannot be computed.
use argos_fx.Prelude.{
  ℕ, ap, ◌∙◌, ◌+◌, Perm, length, false, ◌≡◌, refl, true, none, some, arith, if◌then◌else◌,
}
use argos_fx.Prelude.Int.{ℤ, pos, ltb_ℤ}
use argos_fx.Text.{is_empty, Text, to_upper}
use argos_fx.Text.Laws.{to_upper_idem}
use argos_fx.Clock.{Time}
use argos_fx.Error.{insufficient_providers, Outcome, Error, err, is_insufficient}
use argos_fx.Aggregator.Types.{Result, Config}
use argos_fx.Float.{IsIeee, Double}
use argos_fx.Store.{text_eq, fresh_rows, latest_arranged, World}
use argos_fx.Store
use argos_fx.Aggregator.Compute.{compute_upper, compute_pair, oldest, compute}
use argos_fx.Aggregator.Compute.Cases.{compute_pair-insufficient_from}
use argos_fx.Aggregator.Direct.{compute_direct}
use argos_fx.Aggregator.Direct.Rate.{compute_direct-too_few}
use argos_fx.Cache
use argos_fx.Cache.{Cache}
use argos_fx.Http.Types.{Server, Library, write_json, write_error}
use argos_fx.Http.Site.{pure, run, ◌>>=◌, now, cache_lookup, pair_key}
use argos_fx.Http.Rates.{is_allowed, rate_failed, rate_result, rate_found, single_rate}
use argos_fx.Http.Cached.{tick, at_upper, single_upper_looks}

module _ {F : Type 0} ⦃d : Double F⦄ (lib : Library F) (s : Server F) (cfg : Config F)
    (base quote : Text) where
  failed_looks :
      (w : World F) (c : Cache Text) (e : Error) (from to : Text)
      → (Cache.get (pair_key from to) (w.clock w.ticks) c).0 ≡ none
      → (compute cfg from to (tick w)).0 ≡ err e
      → (cache_lookup (pair_key from to) >>= rate_found lib s cfg from to)
          (record { world = w; cache = some c })
        ≡ (
          rate_failed lib s e,
          record {
            world = (compute cfg from to (tick w)).1;
            cache = some (Cache.get (pair_key from to) (w.clock w.ticks) c).1;
          },
        )
  unfolding ◌>>=◌ cache_lookup now rate_found run rate_result pure
  failed_looks w c e from to miss failed = rw (miss, failed) refl

  failed_status :
      (e : Error) → (rate_failed lib s e).status ≡ (if is_insufficient e then 503 else 500)
  unfolding rate_failed write_error write_json
  failed_status e = ground arith

  -- If two allowed currencies have no answer in the cache and the aggregator fails, the answer has
  -- the status 503 when it is for want of providers and 500 otherwise; the cache and the world are
  -- left as the look into the cache and the aggregator left them, so nothing is kept.
  pub single_rate-failed :
      (w : World F) (c : Cache Text) (e : Error)
      → s.agg ≡ some cfg
      → is_allowed s (to_upper base) ≡ true
      → is_allowed s (to_upper quote) ≡ true
      → (Cache.get (pair_key (to_upper base) (to_upper quote)) (w.clock w.ticks) c).0 ≡ none
      → (compute cfg (to_upper base) (to_upper quote) (tick w)).0 ≡ err e
      → (let answer = single_rate lib s base quote (record { world = w; cache = some c }) in
          (answer.0.status ≡ (if is_insufficient e then 503 else 500))
          × (answer.1.world ≡ (compute cfg (to_upper base) (to_upper quote) (tick w)).1)
          × (answer.1.cache
              ≡ some (Cache.get (pair_key (to_upper base) (to_upper quote)) (w.clock w.ticks) c).1))
  single_rate-failed w c e agg from_ok to_ok miss failed =
      let from = to_upper base in
      let to = to_upper quote in
      rw
        (
          at_upper lib s base quote,
          single_upper_looks lib s cfg from to (record { world = w; cache = some c }) agg from_ok
              to_ok,
          failed_looks w c e from to miss failed,
        )
        (failed_status e, refl, refl)

module _ {F : Type 0} ⦃d : Double F⦄ (cfg : Config F) where
  compute_twice :
      (base quote : Text) (w : World F)
      → compute cfg (to_upper base) (to_upper quote) w
        ≡ compute_upper cfg (to_upper base) (to_upper quote) w
  unfolding compute
  compute_twice base quote w = rw (compute, to_upper_idem base, to_upper_idem quote) refl

  compute_upper-compute_pair :
      (from to : Text) (w : World F)
      → is_empty from ≡ false
      → is_empty to ≡ false
      → text_eq from to ≡ false
      → compute_upper cfg from to w
        ≡ compute_pair cfg from to (oldest cfg (w.clock w.ticks)) (tick w)
  unfolding compute_upper Store.◌>>=◌ Store.now
  compute_upper-compute_pair from to w from_text to_text differ =
      rw (from_text, to_text, differ, if◌then◌else◌) refl

is_insufficient_lem : (n : ℕ) (k : ℤ) → is_insufficient (insufficient_providers n k) ≡ true
unfolding is_insufficient
is_insufficient_lem n k = refl

module _ {F : Type 0} ⦃d : Double F⦄ (laws : IsIeee F) (lib : Library F) (s : Server F)
    (cfg : Config F) (base quote : Text) (w : World F) where
  abbrev from : Text
  from = to_upper base

  abbrev to : Text
  to = to_upper quote

  -- The world when the aggregator asks the database, and the oldest time that it asks for.
  abbrev pub asking : World F
  asking = tick (tick w)

  abbrev pub since : Time
  since = oldest cfg (w.clock (w.ticks + 1))

  compute-compute_pair :
      is_empty from ≡ false
      → is_empty to ≡ false
      → text_eq from to ≡ false
      → compute cfg from to (tick w) ≡ compute_pair cfg from to since asking
  compute-compute_pair from_text to_text differ =
      compute_twice cfg base quote (tick w)
      ∙ compute_upper-compute_pair cfg from to (tick w) from_text to_text differ

  -- A request for two different allowed currencies, neither of them empty, with no answer in the
  -- cache, the first of them not the base, is answered with status 503 when the database answers,
  -- returns the rows in some order, and has fewer latest rows for the first currency than the
  -- configured number.
  pub single_rate-too_few :
      (c : Cache Text)
      → s.agg ≡ some cfg
      → is_allowed s from ≡ true
      → is_allowed s to ≡ true
      → (Cache.get (pair_key from to) (w.clock w.ticks) c).0 ≡ none
      → is_empty from ≡ false
      → is_empty to ≡ false
      → text_eq from to ≡ false
      → text_eq from cfg.base ≡ false
      → w.broken w.queries ≡ false
      → Perm (latest_arranged asking from since) (fresh_rows asking from since)
      → ltb_ℤ (pos (length (fresh_rows asking from since))) cfg.min_providers ≡ true
      → (single_rate lib s base quote (record { world = w; cache = some c })).0.status ≡ 503
  single_rate-too_few c agg from_ok to_ok miss from_text to_text differ not_base answers shuffled
        few =
      let too_few = compute_direct-too_few laws cfg from since asking answers shuffled few in
      let (e, fails, known) =
        compute_pair-insufficient_from cfg from to since asking
          (insufficient_providers (length (fresh_rows asking from since)) cfg.min_providers)
          not_base
          (ap (λ (o : Outcome (Result F)). (o, (compute_direct cfg from since asking).1)) too_few)
          (is_insufficient_lem _ _) in
      let failed : (compute cfg from to (tick w)).0 ≡ err e =
        rw (compute-compute_pair from_text to_text differ) fails in
      rw (single_rate-failed lib s cfg base quote w c e agg from_ok to_ok miss failed).0
        (rw known refl)

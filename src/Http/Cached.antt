-- ===== src/Http/Cached.antt =====
-- internal/httpapi/httpapi.go: a rate that was answered is answered again from the cache.
use argos_fx.Prelude.{
  ◌+◌, ◌≡◌, refl, true, false, none, some, arith, ltb, ite, if_pos, ◌∙◌, if◌then◌else◌,
}
use argos_fx.Text.{Text, text_discrete, to_upper}
use argos_fx.Clock.{Time, add_duration}
use argos_fx.Error.{ok}
use argos_fx.Float.{Double}
use argos_fx.Cache
use argos_fx.Cache.{Cache}
use argos_fx.Cache.Laws.{get-set}
use argos_fx.Store.{World}
use argos_fx.Aggregator.Types.{Config, Result}
use argos_fx.Aggregator.Compute.{compute}
use argos_fx.Http.Types.{Server, Library, Response, rate, single_rate_of, write_bytes, with_max_age}
use argos_fx.Http.Site.{Site, pure, run, ◌>>=◌, now, cache_lookup, cache_store, pair_key}
use argos_fx.Http.Rates.{is_allowed, rate_result, rate_found, single_upper, single_rate}

abbrev pub tick : {F : Type 0} → World F → World F
tick w = record w { ticks = w.ticks + 1 }

module _ {F : Type 0} ⦃d : Double F⦄ (lib : Library F) (s : Server F) (cfg : Config F)
    (from to : Text) where
  -- What is asked for and what the server has, with a cache.
  abbrev pub Is200 : Text → Response
  Is200 body = with_max_age lib s (write_bytes body)

  pub single_upper_looks :
      (site : Site F)
      → s.agg ≡ some cfg
      → is_allowed s from ≡ true
      → is_allowed s to ≡ true
      → single_upper lib s from to site
        ≡ (cache_lookup (pair_key from to) >>= rate_found lib s cfg from to) site
  unfolding single_upper
  single_upper_looks site agg from_ok to_ok = simp (agg, from_ok, to_ok, if◌then◌else◌) refl

  hit :
      (w : World F) (c : Cache Text) (body : Text)
      → (Cache.get (pair_key from to) (w.clock w.ticks) c).0 ≡ some body
      → (cache_lookup (pair_key from to) >>= rate_found lib s cfg from to)
          (record { world = w; cache = some c })
        ≡ (
          Is200 body,
          record {
            world = tick w;
            cache = some (Cache.get (pair_key from to) (w.clock w.ticks) c).1;
          },
        )
  unfolding ◌>>=◌ cache_lookup now rate_found pure
  hit w c body h = rw h refl

  -- What the world and the cache are after a rate was computed and its body was kept.
  abbrev kept : World F → Cache Text → Text → Site F
  kept w c body = record {
    world = tick (tick w);
    cache = some (Cache.set (pair_key from to) body (w.clock (w.ticks + 1)) c);
  }

  computed :
      (w : World F) (c : Cache Text) (res : Result F) (body : Text)
      → lib.marshal (rate (single_rate_of lib res (w.clock w.ticks))) ≡ some body
      → rate_result lib s from to (ok res) (record { world = w; cache = some c })
        ≡ (Is200 body, kept w c body)
  unfolding ◌>>=◌ cache_store now rate_result pure single_rate_of
  computed w c res body h = rw (rate_result, cache_store, h) refl

  missed :
      (w : World F) (c : Cache Text) (res : Result F) (body : Text)
      → (Cache.get (pair_key from to) (w.clock w.ticks) c).0 ≡ none
      → (compute cfg from to (tick w)).0 ≡ ok res
      → (let w' = (compute cfg from to (tick w)).1 in
          lib.marshal (rate (single_rate_of lib res (w'.clock w'.ticks))) ≡ some body)
      → (cache_lookup (pair_key from to) >>= rate_found lib s cfg from to)
          (record { world = w; cache = some c })
        ≡ (
          Is200 body,
          kept
              (compute cfg from to (tick w)).1
              (Cache.get (pair_key from to) (w.clock w.ticks) c).1
              body,
        )
  unfolding ◌>>=◌ cache_lookup now rate_found run
  missed w c res body miss result text =
      rw (miss, result) (computed (compute cfg from to (tick w)).1 _ res body text)

get-ttl : (k : Text) (t : Time) (c : Cache Text) → (Cache.get k t c).1.ttl ≡ c.ttl
unfolding Cache.get Cache.delete
get-ttl k t c = ground arith

same_text : (k : Text) {A : Type 0} (x y : A) → ite (text_discrete k k) x y ≡ x
same_text k x y = if_pos (text_discrete k k) refl x y

module _ {F : Type 0} ⦃d : Double F⦄ (lib : Library F) (s : Server F) where
  pub at_upper :
      (base quote : Text)
      → single_rate lib s base quote ≡ single_upper lib s (to_upper base) (to_upper quote)
  unfolding single_rate
  at_upper base quote = refl

module _ {F : Type 0} ⦃d : Double F⦄ (lib : Library F) (s : Server F) (cfg : Config F)
    (base quote : Text) where
  abbrev from : Text
  from = to_upper base

  abbrev to : Text
  to = to_upper quote

  -- The world when the rate has been computed, and the time at which its body is kept.
  abbrev pub after_compute : World F → World F
  after_compute w = (compute cfg from to (tick w)).1

  abbrev pub kept_at : World F → Time
  kept_at w = (after_compute w).clock ((after_compute w).ticks + 1)

  -- The cache when the body has been kept.
  abbrev filled : World F → Cache Text → Text → Cache Text
  filled w c body =
      Cache.set (pair_key from to) body (kept_at w)
        (Cache.get (pair_key from to) (w.clock w.ticks) c).1

  module _ (agg : s.agg ≡ some cfg) (from_ok : is_allowed s from ≡ true)
      (to_ok : is_allowed s to ≡ true) where
    first_rate :
        (w : World F) (c : Cache Text) (res : Result F) (body : Text)
        → (Cache.get (pair_key from to) (w.clock w.ticks) c).0 ≡ none
        → (compute cfg from to (tick w)).0 ≡ ok res
        → lib.marshal
            (rate (single_rate_of lib res ((after_compute w).clock (after_compute w).ticks)))
          ≡ some body
        → single_rate lib s base quote (record { world = w; cache = some c }) ≡ (
          Is200 lib s cfg from to body,
          record { world = tick (tick (after_compute w)); cache = some (filled w c body) },
        )
    unfolding single_rate
    first_rate w c res body miss result text =
        single_upper_looks lib s cfg from to _ agg from_ok to_ok
        ∙ missed lib s cfg from to w c res body miss result text

    filled_live :
        (w : World F) (t : Time) (c : Cache Text) (body : Text)
        → ltb (add_duration (kept_at w) c.ttl) t ≡ false
        → (Cache.get (pair_key from to) t (filled w c body)).0 ≡ some body
    filled_live w t c body fresh =
        let key = pair_key from to in
        get-set (Cache.get key (w.clock w.ticks) c).1 key key body (kept_at w) t
        ∙ rw (same_text key, get-ttl key (w.clock w.ticks) c, fresh, if◌then◌else◌) refl

    next_rate :
        (base' quote' : Text) (w : World F) (c : Cache Text) (body : Text)
        → to_upper base' ≡ from
        → to_upper quote' ≡ to
        → (Cache.get (pair_key from to) (w.clock w.ticks) c).0 ≡ some body
        → single_rate lib s base' quote' (record { world = w; cache = some c }) ≡ (
          Is200 lib s cfg from to body,
          record {
            world = tick w;
            cache = some (Cache.get (pair_key from to) (w.clock w.ticks) c).1;
          },
        )
    next_rate base' quote' w c body same_base same_quote live =
        rw (at_upper lib s base' quote', same_base, same_quote)
          (single_upper_looks lib s cfg from to _ agg from_ok to_ok
            ∙ hit lib s cfg from to w c body live)

    -- If two allowed currencies have no answer in the cache, the rate is computed and its answer
    -- can be encoded, then the request is answered with it and with status 200, and until the time
    -- to live is over a request of the same pair, in upper or in lower case, gets the very same
    -- answer, for which nothing is computed: only the clock is read.
    pub single_rate-again :
        (w w' : World F) (c : Cache Text) (res : Result F) (body base' quote' : Text)
        → (Cache.get (pair_key from to) (w.clock w.ticks) c).0 ≡ none
        → (compute cfg from to (tick w)).0 ≡ ok res
        → lib.marshal
            (rate (single_rate_of lib res ((after_compute w).clock (after_compute w).ticks)))
          ≡ some body
        → to_upper base' ≡ from
        → to_upper quote' ≡ to
        → ltb (add_duration (kept_at w) c.ttl) (w'.clock w'.ticks) ≡ false
        → (let first = single_rate lib s base quote (record { world = w; cache = some c }) in
            let again =
              single_rate lib s base' quote' (record { world = w'; cache = first.1.cache }) in
            (first.0 ≡ Is200 lib s cfg from to body)
            × (again.0 ≡ first.0)
            × (again.1.world ≡ tick w'))
    single_rate-again w w' c res body base' quote' miss result text same_base same_quote fresh =
        let live = filled_live w (w'.clock w'.ticks) c body fresh in
        let next = next_rate base' quote' w' (filled w c body) body same_base same_quote live in
        rw (first_rate w c res body miss result text, next) (refl, refl, refl)

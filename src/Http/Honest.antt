-- ===== src/Http/Honest.antt =====
-- internal/httpapi/httpapi.go: what is in the response cache stays written by the handlers.
pub mod Keys
pub mod Handlers
pub mod Calls
pub mod Pairs
use argos_fx.Prelude.{
  ◌≡◌, refl, true, false, Bool, Bool-cases, inl, inr, List, [], ◌∷◌, Option, Option-cases, none,
  some, All, any, ite, if◌then◌else◌,
}
use argos_fx.Text.{Text, text_discrete}
use argos_fx.Clock.{Time}
use argos_fx.Error.{Outcome, ok}
use argos_fx.Assoc.{get, put, remove}
use argos_fx.Cache
use argos_fx.Cache.{Cache, Item, set, delete, is_expired}
use argos_fx.Metrics.{Metrics}
use argos_fx.Store.{M}
use argos_fx.Aggregator.Types.{Result}
use argos_fx.Store.ReadOnly.{IsReadOnly}
use argos_fx.Store.Yields.{Yields}
use argos_fx.Http.Types.{Library, Json}
use argos_fx.Http.Site.{
  Site, H, ◌>>=◌, pure, run, now, with_metrics, cache_lookup, cache_store, get_at, set_at,
}
use argos_fx.Http.Along.{Steps, IsAlong, IsAlong-bind}
use Keys.{IsWritten}

ite_elim : {A X : Type 0} (Q : A → Type 0) (t : Dec X) (a b : A) → (X → Q a) → Q b → Q (ite t a b)
ite_elim Q (yes x) a b p q = p x
ite_elim Q (no _) a b p q = q

module _ {K V : Type 0} (dec : Discrete K) (P : K × V → Type 0) where
  All-put : (k : K) (v : V) (m : List (K × V)) → P (k, v) → All P m → All P (put dec k v m)
  unfolding put
  All-put k v [] p _ = (p, tt)
  All-put k v ((j, u) ∷ m) p (q, qs) =
      ite_elim (All P) (dec j k) _ _ (λ _. (p, qs)) (q, All-put k v m p qs)

  All-remove : (k : K) (m : List (K × V)) → All P m → All P (remove dec k m)
  unfolding remove
  All-remove k [] _ = tt
  All-remove k ((j, u) ∷ m) (q, qs) =
      ite_elim (All P) (dec j k) _ _ (λ _. All-remove k m qs) (q, All-remove k m qs)

  entry : (j k : K) (u v : V) → j ≡ k → some u ≡ some v → P (j, u) → P (k, v)
  entry j k u v same h p = let u_is : u ≡ v = cc in rw (← u_is, ← same) p

  All-get : (k : K) (v : V) (m : List (K × V)) → All P m → get dec k m ≡ some v → P (k, v)
  unfolding get
  All-get k v [] _ h = absurd cc h
  All-get k v ((j, u) ∷ m) (q, qs) h =
      ite_elim (λ o. o ≡ some v → P (k, v)) (dec j k) _ _ (λ same h. entry j k u v same h q)
        (All-get k v m qs) h

module _ {F : Type 0} (lib : Library F) (computed : Text → Text → Result F → Type 0) where
  -- Every entry was written by a handler.
  unfoldable pub AreWritten : Option (Cache Text) → Type 0
  AreWritten none = Unit
  AreWritten (some c) = All (λ (e : Text × Item Text). IsWritten lib computed e.0 e.1.value) c.items

  unfoldable pub KeepsWritten : Site F → Site F → Type 0
  KeepsWritten s s' = AreWritten s.cache → AreWritten s'.cache

  get-AreWritten :
      (key : Text) (t : Time) (c : Cache Text)
      → AreWritten (some c)
      → AreWritten (some (Cache.get key t c).1)
  unfolding Cache.get delete AreWritten
  get-AreWritten key t c h = elim (Option-cases (Cache.find key c)) [
    | inl e ↦ rw (Cache.get, e) h
    | inr (it, e) ↦ elim (Bool-cases (is_expired t it)) [
      | inl k ↦ rw (Cache.get, e, k, if◌then◌else◌) (All-remove text_discrete _ key c.items h)
      | inr k ↦ rw (Cache.get, e, k, if◌then◌else◌) h
    ]
  ]

  pub get-IsWritten :
      (key : Text) (t : Time) (c : Cache Text) (body : Text)
      → AreWritten (some c)
      → (Cache.get key t c).0 ≡ some body
      → IsWritten lib computed key body
  unfolding Cache.get Cache.find AreWritten
  get-IsWritten key t c body h k = elim (Option-cases (Cache.find key c)) [
    | inl e ↦ absurd cc (rw (Cache.get, e) at k)
    | inr (it, e) ↦ elim (Bool-cases (is_expired t it)) [
      | inl x ↦ absurd cc (rw (Cache.get, e, x, if◌then◌else◌) at k)
      | inr x ↦
          let same : some it.value ≡ some body = rw (Cache.get, e, x, if◌then◌else◌) at k in
          let value_is : it.value ≡ body = cc in
          rw (← value_is)
            (All-get text_discrete (λ e. IsWritten lib computed e.0 e.1.value) key it c.items h e)
    ]
  ]

  set-AreWritten :
      (key body : Text) (t : Time) (c : Cache Text)
      → IsWritten lib computed key body
      → AreWritten (some c)
      → AreWritten (some (set key body t c))
  unfolding set AreWritten
  set-AreWritten key body t c w h = All-put text_discrete _ key _ c.items w h

module _ {F : Type 0} (lib : Library F) (computed : Text → Text → Result F → Type 0) where
  pub keeps_written : Steps (KeepsWritten lib computed)
  unfolding KeepsWritten run now with_metrics
  keeps_written = record {
    stays = λ s h. h;
    goes_on = λ p q h. q (p h);
    reads = λ m p s h. h;
    ticks = λ s h. h;
    counts = λ f s h. h;
  }

  pub IsAlong-cache_lookup : (key : Text) → IsAlong (KeepsWritten lib computed) (cache_lookup key)
  unfolding KeepsWritten cache_lookup now
  IsAlong-cache_lookup key = record { keeps = λ s. looked_up s.cache _ }
    where
      looked_up :
          (c : Option (Cache Text)) (t : Time)
          → AreWritten lib computed c
          → AreWritten lib computed (get_at key t c).1
      looked_up none t h = h
      looked_up (some c) t h = get-AreWritten lib computed key t c h

  -- A body may be stored under a key that it belongs to.
  pub IsAlong-cache_store :
      (key : Text) (v : Json F)
      → ((body : Text) → lib.marshal v ≡ some body → IsWritten lib computed key body)
      → IsAlong (KeepsWritten lib computed) (cache_store lib key v)
  unfolding KeepsWritten cache_store now
  IsAlong-cache_store key v p = record {
    keeps = λ s h. elim (Option-cases (lib.marshal v)) [
      | inl e ↦ rw (cache_store, e) h
      | inr (body, e) ↦ rw (cache_store, e) (stored body (p body e) s.cache _ h)
    ];
  }
    where
      stored :
          (body : Text)
          → IsWritten lib computed key body
          → (c : Option (Cache Text)) (t : Time) → AreWritten lib computed c
          → AreWritten lib computed (set_at key body t c)
      stored body w none t h = h
      stored body w (some c) t h = set-AreWritten lib computed key body t c w h

  -- What a look into the cache finds was written under that key.
  pub cache_lookup-IsWritten :
      (key body : Text) (s : Site F)
      → AreWritten lib computed s.cache
      → (cache_lookup key s).0 ≡ some body
      → IsWritten lib computed key body
  unfolding cache_lookup now
  cache_lookup-IsWritten key body s h = found s.cache _ h
    where
      found :
          (c : Option (Cache Text)) (t : Time)
          → AreWritten lib computed c
          → (get_at key t c).0 ≡ some body
          → IsWritten lib computed key body
      found none t h k = absurd cc k
      found (some c) t h k = get-IsWritten lib computed key t c body h k

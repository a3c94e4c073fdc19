-- ===== src/Cache/Races.antt =====
-- Concurrent callers of the cache: each step is one critical section under the lock. A `Get` that
-- has seen an expired entry is pending until it takes the lock again and deletes the key.
use argos_fx.Prelude.{
  ◌≤◌, ◌≡◌, refl, ◌⊎◌, inl, inr, true, false, List, [], ◌∷◌, ◌++◌, none, some, arith,
}
use argos_fx.Text.{Text, text_discrete}
use argos_fx.Clock.{Time, Duration, add_duration}
use argos_fx.Assoc
use argos_fx.Cache.{Cache, Item, find, is_expired, delete, get, set, purge, new_cache}
use argos_fx.Cache.Laws.{find-set, find-delete, get_hit, get-set}

-- The cache, the keys that pending calls of `Get` will delete, and every `Set` so far: a key, a
-- value and the time.
pub record System (V : Type 0) : Type 0 where
  pub cache : Cache V
  pub pending : List Text
  pub stored : List (Text × V × Time)

-- The critical sections: the first half of a `Get` that finds an expired entry at this time (one that
-- does not changes nothing), the second half, in which that `Get` deletes the key, and the whole of a
-- `Set`, a `Delete` and a `Purge`.
pub data Event (V : Type 0) : Type 0 where
  get_sees_expired : Text → Time → Event V
  get_deletes : Text → Event V
  sets : Text → V → Time → Event V
  deletes : Text → Event V
  purges : Event V

module _ {V : Type 0} where
  pub data Step : Event V → System V → System V → Type 0 where
    expire :
        (s : System V) (k : Text) (t : Time) (it : Item V)
        → find k s.cache ≡ some it
        → is_expired t it ≡ true
        → Step (get_sees_expired k t) s (record s { pending = k ∷ s.pending })
    -- of any of the pending calls
    evict :
        (s : System V) (xs ys : List Text) (k : Text)
        → s.pending ≡ xs ++ (k ∷ ys)
        → Step (get_deletes k) s (record s { cache = delete k s.cache; pending = xs ++ ys })
    store :
        (s : System V) (k : Text) (v : V) (t : Time)
        → Step
            (sets k v t)
            s
            (record s { cache = set k v t s.cache; stored = (k, v, t) ∷ s.stored })
    drop : (s : System V) (k : Text) → Step (deletes k) s (record s { cache = delete k s.cache })
    clear : (s : System V) → Step purges s (record s { cache = purge s.cache })

  pub data Reach (s : System V) : System V → Type 0 where
    here : Reach s s
    next : {e : Event V} {t u : System V} → Reach s t → Step e t u → Reach s u

  -- A run of these critical sections, one after the other.
  pub data Run (s : System V) : List (Event V) → System V → Type 0 where
    done : Run s [] s
    and_then :
        {es : List (Event V)} {e : Event V} {t u : System V}
        → Run s es t
        → Step e t u
        → Run s (es ++ (e ∷ [])) u

  abbrev pub start : Duration → System V
  start ttl = record { cache = new_cache ttl; pending = []; stored = [] }

  -- Some `Set` of the key gave this entry.
  abbrev pub WasStored : Duration → Text → Item V → List (Text × V × Time) → Type 0
  WasStored ttl k it [] = ⊥
  WasStored ttl k it ((j, v, t) ∷ l) =
      ((j ≡ k) × (it ≡ record { value = v; expires_at = add_duration t ttl }))
      ⊎ WasStored ttl k it l

  -- The call `Set(k, v)` was made at this time.
  abbrev pub Called : Text → V → Time → List (Text × V × Time) → Type 0
  Called k v u [] = ⊥
  Called k v u ((j, v', t) ∷ l) = ((j ≡ k) × (v' ≡ v) × (t ≡ u)) ⊎ Called k v u l

  -- Every entry was set, and expires its time to live after that.
  record IsExplained (ttl : Duration) (s : System V) : Type 0 where
    same_ttl : s.cache.ttl ≡ ttl
    explain : (k : Text) (it : Item V) → find k s.cache ≡ some it → WasStored ttl k it s.stored

  IsExplained-delete :
      (ttl : Duration) (s : System V) (j : Text) (l : List Text)
      → IsExplained ttl s
      → IsExplained ttl (record s { cache = delete j s.cache; pending = l })
  unfolding delete
  IsExplained-delete ttl s j l e = record {
    same_ttl = e.same_ttl;
    explain = λ k it h. e.explain k it (ground (arith, find-delete s.cache j k));
  }

  IsExplained-store :
      (ttl : Duration) (s : System V) (j : Text) (v : V) (t : Time)
      → IsExplained ttl s
      → IsExplained ttl (record s { cache = set j v t s.cache; stored = (j, v, t) ∷ s.stored })
  unfolding set
  IsExplained-store ttl s j v t e = record {
    same_ttl = e.same_ttl;
    explain = λ k it h. elim (text_discrete j k) [
      | yes same ↦ inl (same, ground (arith, find-set s.cache j k v t, e.same_ttl))
      | no other ↦ inr (e.explain k it (ground (arith, find-set s.cache j k v t)))
    ];
  }

  Step-IsExplained :
      (ttl : Duration) {ev : Event V} {s s' : System V}
      → Step ev s s'
      → IsExplained ttl s
      → IsExplained ttl s'
  unfolding purge find Assoc.get
  Step-IsExplained ttl (expire s k t it found old) e = record {
    same_ttl = e.same_ttl;
    explain = e.explain;
  }
  Step-IsExplained ttl (evict s xs ys k at) e = IsExplained-delete ttl s k (xs ++ ys) e
  Step-IsExplained ttl (store s k v t) e = IsExplained-store ttl s k v t e
  Step-IsExplained ttl (drop s k) e = IsExplained-delete ttl s k s.pending e
  Step-IsExplained ttl (clear s) e = record {
    same_ttl = e.same_ttl;
    explain = λ k it h. absurd (none≢some h);
  }
    where
      none≢some : {it : Item V} → none ≡ some it → ⊥
      none≢some h = cc

  Reach-IsExplained :
      (ttl : Duration) {s s' : System V} → IsExplained ttl s → Reach s s' → IsExplained ttl s'
  Reach-IsExplained ttl e here = e
  Reach-IsExplained ttl e (next r step) = Step-IsExplained ttl step (Reach-IsExplained ttl e r)

  start-IsExplained : (ttl : Duration) → IsExplained (new_cache {V = V} ttl).ttl (start ttl)
  unfolding new_cache find Assoc.get
  start-IsExplained ttl = record { same_ttl = refl; explain = λ k it h. cc }

  fresh_source :
      (ttl : Duration) (k : Text) (it : Item V) (t : Time) (l : List (Text × V × Time))
      → WasStored ttl k it l
      → is_expired t it ≡ false
      → (u : Time) × Called k it.value u l × (t ≤ add_duration u ttl)
  fresh_source ttl k it t [] w live = absurd w
  fresh_source ttl k it t ((j, v, u) ∷ l) (inl (same, e)) live =
      (u, inl (ground arith), ground arith)
  fresh_source ttl k it t ((j, v, u) ∷ l) (inr w) live =
      let (u', called, le) = fresh_source ttl k it t l w live in (u', inr called, le)

  -- Whatever calls have run, in any interleaving, a value that a `Get` returns was set for that key,
  -- at most the time to live before.
  pub get-Called :
      (ttl : Duration) (s : System V) (k : Text) (t : Time) (v : V)
      → Reach (start ttl) s
      → (get k t s.cache).0 ≡ some v
      → (u : Time) × Called k v u s.stored × (t ≤ add_duration u (new_cache {V = V} ttl).ttl)
  get-Called ttl s k t v r h =
      let e = Reach-IsExplained _ (start-IsExplained ttl) r in
      let (it, found, live, same) = get_hit s.cache k t v h in
      let (u, called, le) = fresh_source _ k it t s.stored (e.explain k it found) live in
      (u, rw same at called, le)

  get-ttl : (c : Cache V) (k : Text) (t : Time) → (get k t c).1.ttl ≡ c.ttl
  unfolding get delete
  get-ttl c k t = ground arith

  set_found :
      (c : Cache V) (k : Text) (u : Time) (v : V)
      → u ≤ add_duration u c.ttl
      → (get k u (set k v u c)).0 ≡ some v
  set_found c k u v lives = ground (arith, get-set c k k v u u)

  -- A `Set` can be lost. If an entry of the key has expired, a `Get` of the key can see that, let a
  -- whole `Set` of the key pass and then delete the key: after these three critical sections the
  -- value that was set is not found, though it is found if the `Set` comes after the whole `Get`
  -- and its time to live has not run out.
  pub set_lost :
      (s : System V) (k : Text) (t u : Time) (it : Item V) (v : V)
      → find k s.cache ≡ some it
      → is_expired t it ≡ true
      → u ≤ add_duration u s.cache.ttl
      → ((s' : System V) × Run s (get_sees_expired k t ∷ sets k v u ∷ get_deletes k ∷ []) s'
          × ((get k u s'.cache).0 ≡ none))
        × ((get k u (set k v u (get k t s.cache).1)).0 ≡ some v)
  unfolding get
  set_lost s k t u it v found old lives =
      let s₁ = record s { pending = k ∷ s.pending } in
      let s₂ = record s₁ { cache = set k v u s.cache; stored = (k, v, u) ∷ s.stored } in
      let gone : find k (delete k s₂.cache) ≡ none = ground (arith, find-delete s₂.cache k k) in
      (
        (
          record s₂ { cache = delete k s₂.cache; pending = s.pending },
          and_then (and_then (and_then done (expire s k t it found old)) (store s₁ k v u))
              (evict s₂ [] s.pending k refl),
          rw (get, gone),
        ),
        set_found (get k t s.cache).1 k u v (rw (get-ttl s.cache k t) lives),
      )

-- ===== src/Store/Writing.antt =====
-- Effects that only write as the program does, which keeps the tables sound.
use argos_fx.Prelude.{refl, ◌≡◌, Bool, true, false, Bool-cases, inl, inr, if◌then◌else◌, ◌==◌}
use argos_fx.Clock.{Time, rfc3339}
use argos_fx.Error.{Outcome, ok, err}
use argos_fx.Store.Tables.{Db, Provider}
use argos_fx.Store.Monad.{World, M, ◌>>=◌, return, attempt, map_outcome, query, now, after}
use argos_fx.Store.Providers.{upsert_provider, config_json, select_id}
use argos_fx.Store.Readings.{prune_older_than}
use argos_fx.Store.Sound.{Reach, upsert, prune}

module _ {F : Type 0} where
  -- The effect only writes as the program does.
  pub record IsWriting {A : Type 0} (m : M F A) : Type 0 where
    pub reaches : (w : World F) → Reach w.db → Reach (m w).1.db

  pub IsWriting-same : {A : Type 0} (m : M F A) → ((w : World F) → (m w).1.db ≡ w.db) → IsWriting m
  IsWriting-same m p = record { reaches = λ w r. rw (p w) r }

  pub IsWriting-query :
      {A : Type 0} (f : Db F → Outcome A × Db F)
      → ((db : Db F) → Reach db → Reach (f db).1)
      → IsWriting (query f)
  unfolding query
  IsWriting-query f p = record {
    reaches = λ w r. elim (Bool-cases (w.broken w.queries)) [
      | inl h ↦ rw (h, if◌then◌else◌) r
      | inr h ↦ rw (h, if◌then◌else◌) (p w.db r)
    ];
  }

  pub IsWriting-map_outcome :
      {A : Type 0} (g : Outcome A → Outcome A) (m : M F A)
      → IsWriting m
      → IsWriting (map_outcome g m)
  unfolding map_outcome
  IsWriting-map_outcome g m p = record { reaches = p.reaches }

  pub IsWriting-if :
      {A : Type 0} (t : Bool) (m n : M F A)
      → IsWriting m
      → IsWriting n
      → IsWriting (if t then m else n)
  IsWriting-if true m n p q = p
  IsWriting-if false m n p q = q

  after-Reach :
      {A B : Type 0} (f : A → M F B) (r : Outcome A × World F)
      → ((x : A) → IsWriting (f x))
      → Reach r.1.db
      → Reach (after f r).1.db
  after-Reach f (ok x, w) p r = (p x).reaches w r
  after-Reach f (err e, w) p r = r

  pub IsWriting-bind :
      {A B : Type 0} (m : M F A) (f : A → M F B)
      → IsWriting m
      → ((x : A) → IsWriting (f x))
      → IsWriting (m >>= f)
  unfolding ◌>>=◌
  IsWriting-bind m f p q = record { reaches = λ w r. after-Reach f (m w) q (p.reaches w r) }

  pub IsWriting-attempt : {A : Type 0} (m : M F A) → IsWriting m → IsWriting (attempt m)
  unfolding attempt
  IsWriting-attempt m p = record { reaches = p.reaches }

  pub IsWriting-upsert_provider : (p : Provider) → IsWriting (upsert_provider p)
  unfolding upsert_provider config_json now return select_id
  IsWriting-upsert_provider p = IsWriting-bind _ _ (IsWriting-same _ (λ w. refl)) λ json.
      IsWriting-bind _ _ (IsWriting-same _ (λ w. refl)) λ t.
        IsWriting-bind _ _ (IsWriting-query _ λ db r. upsert (rfc3339 t) json p r) λ id.
          IsWriting-if (id == 0) _ _ (IsWriting-query _ λ db r. r) (IsWriting-same _ (λ w. refl))

  pub IsWriting-prune : (cutoff : Time) → IsWriting (prune_older_than cutoff)
  unfolding prune_older_than
  IsWriting-prune cutoff = IsWriting-query _ λ db r. prune cutoff r

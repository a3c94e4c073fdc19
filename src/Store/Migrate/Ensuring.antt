-- ===== src/Store/Migrate/Ensuring.antt =====
-- internal/store/store.go: predicates on the database file that hold when a step of `Open` succeeds.
use argos_fx.Prelude.{◌≡◌, refl, Bool-cases, inl, inr, if◌then◌else◌}
use Prim.Native.String.{String}
use argos_fx.Error.{Error, wrap, Outcome, ok, err, in_context}
use argos_fx.Store.Monad.{Effect, ◌>>=◌, after, of_outcome, map_outcome}
use argos_fx.Store.Schema.{File}
use argos_fx.Store.Migrate.Keeping.{IsKeeping, close_on-file}
use argos_fx.Store.Migrate.{Opening, Embedded, execute, migrate, open_store, close_on}

module _ {F : Type 0} (Q : File F → Type 0) where
  -- An effect that only succeeds with the predicate.
  pub record IsEnsuring {A : Type 0} (m : Effect (Opening F) A) : Type 0 where
    pub at_success : (w : Opening F) (a : A) → (m w).0 ≡ ok a → Q (m w).1.file

  pub IsEnsuring-execute :
      {A : Type 0} (s : File F → Outcome A × File F)
      → ((f : File F) (a : A) → (s f).0 ≡ ok a → Q (s f).1)
      → IsEnsuring (execute s)
  unfolding execute
  IsEnsuring-execute s p = record {
    at_success = λ w a h. elim (Bool-cases (w.broken w.queries)) [
      | inl e ↦ absurd cc (rw (e, if◌then◌else◌) at h)
      | inr e ↦ rw (e, if◌then◌else◌) (p w.file a (rw (e, if◌then◌else◌) at h))
    ];
  }

  after-ensures :
      {A B : Type 0} (f : A → Effect (Opening F) B) (out : Outcome A × Opening F) (b : B)
      → ((x : A) → IsEnsuring (f x))
      → (after f out).0 ≡ ok b
      → Q (after f out).1.file
  after-ensures f (ok x, w) b p h = (p x).at_success w b h
  after-ensures f (err e, w) b p h = absurd cc h

  pub IsEnsuring-bind :
      {A B : Type 0} (m : Effect (Opening F) A) (f : A → Effect (Opening F) B)
      → ((x : A) → IsEnsuring (f x))
      → IsEnsuring (m >>= f)
  unfolding ◌>>=◌
  IsEnsuring-bind m f p = record { at_success = λ w b. after-ensures f (m w) b p }

  after-kept :
      {A B : Type 0} (f : A → Effect (Opening F) B) (out : Outcome A × Opening F) (b : B)
      → ((a : A) → out.0 ≡ ok a → Q out.1.file)
      → ((x : A) → IsKeeping Q (f x))
      → (after f out).0 ≡ ok b
      → Q (after f out).1.file
  after-kept f (ok x, w) b q p h = (p x).keeps w (q x refl)
  after-kept f (err e, w) b q p h = absurd cc h

  -- What the first effect ensures and the second keeps.
  pub IsEnsuring-first :
      {A B : Type 0} (m : Effect (Opening F) A) (f : A → Effect (Opening F) B)
      → IsEnsuring m
      → ((x : A) → IsKeeping Q (f x))
      → IsEnsuring (m >>= f)
  unfolding ◌>>=◌
  IsEnsuring-first m f q p = record { at_success = λ w b. after-kept f (m w) b (q.at_success w) p }

  pub IsEnsuring-of_outcome :
      {A B : Type 0} (r : Outcome A) (f : A → Effect (Opening F) B)
      → ((x : A) → r ≡ ok x → IsEnsuring (f x))
      → IsEnsuring (of_outcome r >>= f)
  unfolding ◌>>=◌
  IsEnsuring-of_outcome (ok x) f p = record { at_success = (p x refl).at_success }
  IsEnsuring-of_outcome (err e) f p = record { at_success = λ w b h. absurd cc h }

  in_context-ok :
      {A : Type 0} (context : String) (r : Outcome A) (a : A)
      → in_context context r ≡ ok a
      → r ≡ ok a
  in_context-ok context (ok x) a h = h
  in_context-ok context (err e) a h = absurd cc h

  pub IsEnsuring-in_context :
      {A : Type 0} (context : String) (m : Effect (Opening F) A)
      → IsEnsuring m
      → IsEnsuring (map_outcome (in_context context) m)
  unfolding map_outcome
  IsEnsuring-in_context context m p = record {
    at_success = λ w a h. p.at_success w a (in_context-ok context (m w).0 a h);
  }

  close_on-ok :
      {A : Type 0} (g : Error → Error) (out : Outcome A × Opening F) (a : A)
      → (close_on g out).0 ≡ ok a
      → out.0 ≡ ok a
  unfolding close_on
  close_on-ok g (ok x, w) a h = h
  close_on-ok g (err e, w) a h = absurd cc h

  pub open_store-IsEnsuring :
      (fs : Embedded F) → IsEnsuring (migrate fs) → IsEnsuring (open_store fs)
  unfolding open_store
  open_store-IsEnsuring fs p = IsEnsuring-bind _ _ λ _. IsEnsuring-bind _ _ λ _. record {
    at_success = λ w a h.
        rw (close_on-file Q (wrap "migrate: %w") (migrate fs w))
          (p.at_success w a (close_on-ok (wrap "migrate: %w") (migrate fs w) a h));
  }

module _ {F : Type 0} (Q R : File F → Type 0) where
  after-ensured :
      {A B : Type 0} (f : A → Effect (Opening F) B) (out : Outcome A × Opening F)
      → Q out.1.file
      → ((x : A) → out.0 ≡ ok x → R out.1.file)
      → ((x : A) → IsKeeping (λ g. Q g × R g) (f x))
      → Q (after f out).1.file
  after-ensured f (ok x, w) q r p = ((p x).keeps w (q, r x refl)).0
  after-ensured f (err e, w) q r p = q

  -- The second effect keeps a predicate together with what the first ensures.
  pub IsKeeping-ensured :
      {A B : Type 0} (m : Effect (Opening F) A) (f : A → Effect (Opening F) B)
      → IsKeeping Q m
      → IsEnsuring R m
      → ((x : A) → IsKeeping (λ g. Q g × R g) (f x))
      → IsKeeping Q (m >>= f)
  unfolding ◌>>=◌
  IsKeeping-ensured m f q r p = record {
    keeps = λ w h. after-ensured f (m w) (q.keeps w h) (r.at_success w) p;
  }

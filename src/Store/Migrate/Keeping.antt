-- ===== src/Store/Migrate/Keeping.antt =====
-- internal/store/store.go: predicates on the database file that the steps of `Open` keep, whether
-- they fail or not.
use argos_fx.Prelude.{ℕ, ◌≡◌, refl, Bool-cases, inl, inr, List, [], ◌∷◌, All, if◌then◌else◌}
use argos_fx.Text.{Text}
use argos_fx.Error.{Error, Outcome, ok, err, is_no_rows}
use argos_fx.Store.Monad.{Effect, ◌>>=◌, after, return, fail, of_outcome, map_outcome, attempt}
use argos_fx.Store.Schema.{File, select_applied, create_migrations}
use argos_fx.Store.Migrate.{
  Opening, Script, Embedded, execute, run_script, apply_migration, unless_applied, migrate_one,
  migrate_all, migrate, open_store, connect, ping, close_on,
}

module _ {F : Type 0} (Q : File F → Type 0) where
  -- The effect keeps the predicate.
  pub record IsKeeping {A : Type 0} (m : Effect (Opening F) A) : Type 0 where
    pub keeps : (w : Opening F) → Q w.file → Q (m w).1.file

  abbrev pub IsKept : {A : Type 0} → (File F → Outcome A × File F) → Type 0
  IsKept s = (f : File F) → Q f → Q (s f).1

  pub IsKeeping-execute :
      {A : Type 0} (s : File F → Outcome A × File F) → IsKept s → IsKeeping (execute s)
  unfolding execute
  IsKeeping-execute s p = record {
    keeps = λ w h. elim (Bool-cases (w.broken w.queries)) [
      | inl e ↦ rw (e, if◌then◌else◌) h
      | inr e ↦ rw (e, if◌then◌else◌) (p w.file h)
    ];
  }

  after-keeps :
      {A B : Type 0} (f : A → Effect (Opening F) B) (out : Outcome A × Opening F)
      → ((x : A) → IsKeeping (f x))
      → Q out.1.file
      → Q (after f out).1.file
  after-keeps f (ok x, w) p h = (p x).keeps w h
  after-keeps f (err e, w) p h = h

  pub IsKeeping-bind :
      {A B : Type 0} (m : Effect (Opening F) A) (f : A → Effect (Opening F) B)
      → IsKeeping m
      → ((x : A) → IsKeeping (f x))
      → IsKeeping (m >>= f)
  unfolding ◌>>=◌
  IsKeeping-bind m f p q = record { keeps = λ w h. after-keeps f (m w) q (p.keeps w h) }

  pub IsKeeping-same :
      {A : Type 0} (m : Effect (Opening F) A)
      → ((w : Opening F) → (m w).1.file ≡ w.file)
      → IsKeeping m
  IsKeeping-same m p = record { keeps = λ w h. rw (p w) h }

  pub IsKeeping-map_outcome :
      {A : Type 0} (g : Outcome A → Outcome A) (m : Effect (Opening F) A)
      → IsKeeping m
      → IsKeeping (map_outcome g m)
  unfolding map_outcome
  IsKeeping-map_outcome g m p = record { keeps = p.keeps }

  pub IsKeeping-attempt :
      {A : Type 0} (m : Effect (Opening F) A) → IsKeeping m → IsKeeping (attempt m)
  unfolding attempt
  IsKeeping-attempt m p = record { keeps = p.keeps }

  pub IsKeeping-of_outcome :
      {A B : Type 0} (r : Outcome A) (f : A → Effect (Opening F) B)
      → ((x : A) → r ≡ ok x → IsKeeping (f x))
      → IsKeeping (of_outcome r >>= f)
  unfolding ◌>>=◌
  IsKeeping-of_outcome (ok x) f p = record { keeps = (p x refl).keeps }
  IsKeeping-of_outcome (err e) f p = record { keeps = λ w h. h }

  pub IsKeeping-run_script : (ss : Script F) → All IsKept ss → IsKeeping (run_script ss)
  unfolding run_script return
  IsKeeping-run_script [] _ = IsKeeping-same _ (λ w. refl)
  IsKeeping-run_script (s ∷ ss) (p, ps) =
      IsKeeping-bind _ _ (IsKeeping-execute s p) λ _. IsKeeping-run_script ss ps

  pub close_on-file :
      {A : Type 0} (g : Error → Error) (out : Outcome A × Opening F)
      → (close_on g out).1.file ≡ out.1.file
  unfolding close_on
  close_on-file g (ok a, w) = refl
  close_on-file g (err e, w) = refl

  IsKeeping-close_on :
      {A : Type 0} (g : Error → Error) (m : Effect (Opening F) A)
      → IsKeeping m
      → IsKeeping (λ w. close_on g (m w))
  IsKeeping-close_on g m p = record { keeps = λ w h. rw (close_on-file g (m w)) (p.keeps w h) }

  connect-same : (w : Opening F) → (connect w).1.file ≡ w.file
  unfolding connect
  connect-same w = elim (Bool-cases (w.broken w.queries)) [
    | inl e ↦ rw (e, if◌then◌else◌) refl
    | inr e ↦ rw (e, if◌then◌else◌) refl
  ]

  -- What applying a migration keeps, the whole opening keeps.
  module _ (fs : Embedded F) (apply : (name : Text) → IsKeeping (apply_migration fs name)) where
    unless-IsKeeping : (name : Text) (r : Outcome ℕ) → IsKeeping (unless_applied fs name r)
    unfolding unless_applied return fail
    unless-IsKeeping name (ok n) = IsKeeping-same _ (λ w. refl)
    unless-IsKeeping name (err e) = elim (Bool-cases (is_no_rows e)) [
      | inl g ↦ rw (g, if◌then◌else◌) (apply name)
      | inr g ↦ rw (g, if◌then◌else◌) (IsKeeping-same _ (λ w. refl))
    ]

    migrate_one-IsKeeping : (name : Text) → IsKeeping (migrate_one fs name)
    unfolding migrate_one select_applied
    migrate_one-IsKeeping name =
        IsKeeping-bind _ _ (IsKeeping-attempt _ (IsKeeping-execute _ λ f h. h))
          λ r. unless-IsKeeping name r

    pub migrate_all-IsKeeping : (names : List Text) → IsKeeping (migrate_all fs names)
    unfolding migrate_all return
    migrate_all-IsKeeping [] = IsKeeping-same _ (λ w. refl)
    migrate_all-IsKeeping (name ∷ names) =
        IsKeeping-bind _ _ (migrate_one-IsKeeping name) λ _. migrate_all-IsKeeping names

    pub migrate-IsKeeping : IsKept create_migrations → IsKeeping (migrate fs)
    unfolding migrate
    migrate-IsKeeping created =
        IsKeeping-bind _ _ (IsKeeping-execute _ created)
          λ _. IsKeeping-of_outcome _ _ λ entries _. migrate_all-IsKeeping _

  pub open_store-IsKeeping : (fs : Embedded F) → IsKeeping (migrate fs) → IsKeeping (open_store fs)
  unfolding open_store ping
  open_store-IsKeeping fs p =
      IsKeeping-bind _ _ (IsKeeping-map_outcome _ _ (IsKeeping-same _ connect-same)) λ _.
        IsKeeping-bind _ _ (IsKeeping-close_on _ _ (IsKeeping-execute _ λ f h. h))
          λ _. IsKeeping-close_on _ _ p

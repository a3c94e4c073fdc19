-- ===== src/Store/Migrate/Applied.antt =====
-- internal/store/store.go: what `Open` records, for any migrations that leave the table of records
-- alone.
use argos_fx.Prelude.{
  ℕ, ◌≡◌, refl, Bool, true, false, Bool-cases, inl, inr, List, [], ◌∷◌, ◌++◌, Option, none, some,
  Option-cases, All, any, arith, if◌then◌else◌,
}
use argos_fx.Text.{Text}
use argos_fx.Clock.{rfc3339}
use argos_fx.Error.{Outcome, ok, err, is_no_rows}
use argos_fx.Store.Providers.{name_eq}
use argos_fx.Store.Monad.{◌>>=◌, after, return, fail, attempt}
use argos_fx.Store.Schema.{
  File, Migration, is_in, found_one, is_applied, select_applied, insert_migration,
}
use argos_fx.Store.Migrate.Keeping.{
  IsKeeping, IsKept, IsKeeping-execute, IsKeeping-bind, IsKeeping-same, IsKeeping-map_outcome,
  IsKeeping-of_outcome, IsKeeping-run_script, migrate_all-IsKeeping,
}
use argos_fx.Store.Migrate.Ensuring.{
  IsEnsuring, IsEnsuring-first, IsEnsuring-execute, IsEnsuring-bind,
}
use argos_fx.Store.Migrate.{
  note_rowid, Opening, Script, Embedded, execute, apply_migration, unless_applied, migrate_one,
  migrate_all, time_now,
}

any-append :
    (p : Migration → Bool) (xs ys : List Migration) → any p xs ≡ true → any p (xs ++ ys) ≡ true
any-append p [] ys h = ground arith
any-append p (x ∷ xs) ys h = ground (arith, any-append p xs ys)

any-append_last :
    (p : Migration → Bool) (xs : List Migration) (x : Migration)
    → p x ≡ true
    → any p (xs ++ (x ∷ [])) ≡ true
any-append_last p [] x h = ground arith
any-append_last p (y ∷ xs) x h = ground (arith, any-append_last p xs x h)

name_eq_refl : (name : Text) → name_eq name name ≡ true
name_eq_refl name = ground arith

found_one_lem :
    (rows : Option (List Migration)) (found : Bool) (n : ℕ)
    → found_one rows found ≡ ok n
    → found ≡ true
found_one_lem none found n h = absurd cc h
found_one_lem (some rows) true n h = refl
found_one_lem (some rows) false n h = absurd cc h

module _ {F : Type 0} where
  -- The name is recorded.
  abbrev IsNoted : Text → File F → Type 0
  IsNoted name f = is_applied name f ≡ true

  -- A script that leaves the records as they are.
  abbrev pub LeavesRecords : Script F → Type 0
  LeavesRecords = All (λ s. (f : File F) → (s f).1.schema_migrations ≡ f.schema_migrations)

  insert-IsNoted :
      (name q : Text) (t : ℕ) (f : File F)
      → is_applied name f ≡ true
      → is_applied name (insert_migration q t f).1 ≡ true
  unfolding insert_migration is_applied
  insert-IsNoted name q t f h = elim (Option-cases f.schema_migrations) [
    | inl e ↦ rw e (rw e at h)
    | inr (rows, e) ↦ elim (Bool-cases (is_in q f.schema_migrations)) [
      | inl g ↦ rw (e, rw e at g, if◌then◌else◌) (rw e at h)
      | inr g ↦ rw (e, rw e at g, if◌then◌else◌) (any-append _ rows _ (rw e at h))
    ]
  ]

  insert_lem :
      (name : Text) (t : ℕ) (f : File F)
      → (insert_migration name t f).0 ≡ ok tt
      → is_applied name (insert_migration name t f).1 ≡ true
  unfolding insert_migration is_applied
  insert_lem name t f h = elim (Option-cases f.schema_migrations) [
    | inl e ↦ absurd cc (rw (insert_migration, e) at h)
    | inr (rows, e) ↦ elim (Bool-cases (is_in name f.schema_migrations)) [
      | inl g ↦ rw (e, rw e at g, if◌then◌else◌) (rw e at g)
      | inr g ↦ rw (e, rw e at g, if◌then◌else◌) (any-append_last _ rows _ (name_eq_refl name))
    ]
  ]

  insert-IsRecording :
      (name : Text) (t : ℕ) → IsEnsuring (IsNoted name) (execute (insert_migration name t))
  insert-IsRecording name t = IsEnsuring-execute _ _ λ f a h. insert_lem name t f h

module _ {F : Type 0} (fs : Embedded F) where
  apply-IsRecording : (name : Text) → IsEnsuring (IsNoted name) (apply_migration fs name)
  unfolding apply_migration note_rowid
  apply-IsRecording name = IsEnsuring-bind _ _ _ λ body. IsEnsuring-bind _ _ _ λ _.
      IsEnsuring-bind _ _ _ λ t.
        IsEnsuring-first _ _ _ (insert-IsRecording name (rfc3339 t))
          λ _. IsKeeping-same _ _ (λ w. refl)

  unless-recorded :
      (name : Text) (r : Outcome ℕ) (w : Opening F) (a : Unit {0})
      → ((n : ℕ) → r ≡ ok n → is_applied name w.file ≡ true)
      → (unless_applied fs name r w).0 ≡ ok a
      → is_applied name (unless_applied fs name r w).1.file ≡ true
  unfolding unless_applied return fail
  unless-recorded name (ok n) w a p h = p n refl
  unless-recorded name (err e) w a p h = elim (Bool-cases (is_no_rows e)) [
    | inl g ↦
        rw (g, if◌then◌else◌) ((apply-IsRecording name).at_success w a (rw (g, if◌then◌else◌) at h))
    | inr g ↦ absurd cc (rw (g, if◌then◌else◌) at h)
  ]

  migrate_one-IsRecording : (name : Text) → IsEnsuring (IsNoted name) (migrate_one fs name)
  unfolding migrate_one ◌>>=◌ attempt execute select_applied
  migrate_one-IsRecording name = record {
    at_success = λ w a h. elim (Bool-cases (w.broken w.queries)) [
      | inl e ↦
          rw (e, if◌then◌else◌)
            (unless-recorded name _ _ a (λ n k. absurd cc k) (rw (e, if◌then◌else◌) at h))
      | inr e ↦
          rw (e, if◌then◌else◌)
            (unless-recorded name _ _ a (λ n k. found_one_lem w.file.schema_migrations _ n k)
              (rw (e, if◌then◌else◌) at h))
    ];
  }

  -- The migrations do not touch the table of records.
  pub record IsModest : Type 0 where
    pub leaves : (path : Text) (body : Script F) → fs.read_file path ≡ ok body → LeavesRecords body

  module _ (modest : IsModest) where
    script-IsNoted : (q : Text) (ss : Script F) → LeavesRecords ss → All (IsKept (IsNoted q)) ss
    unfolding is_applied
    script-IsNoted q [] _ = tt
    script-IsNoted q (s ∷ ss) (p, ps) = ((λ f h. rw (p f) h), script-IsNoted q ss ps)

    apply-IsNoted : (q name : Text) → IsKeeping (IsNoted q) (apply_migration fs name)
    unfolding apply_migration time_now note_rowid
    apply-IsNoted q name = IsKeeping-of_outcome _ (fs.read_file _) _ λ body same.
        IsKeeping-bind _ _ _
          (IsKeeping-map_outcome _ _ _
            (IsKeeping-run_script _ body (script-IsNoted q body (modest.leaves _ body same))))
          λ _. IsKeeping-bind _ _ _ (IsKeeping-same _ _ (λ w. refl)) λ t.
            IsKeeping-bind _ _ _ (IsKeeping-execute _ _ λ f. insert-IsNoted q name (rfc3339 t) f)
              λ _. IsKeeping-same _ _ (λ w. refl)

    rest_recorded :
        (name : Text) (names : List Text) (out : Outcome (Unit {0}) × Opening F) (a : Unit {0})
        → ((w : Opening F)
            → (migrate_all fs names w).0 ≡ ok a
            → All (λ q. IsNoted q (migrate_all fs names w).1.file) names)
        → (out.0 ≡ ok tt → IsNoted name out.1.file)
        → (after (λ _. migrate_all fs names) out).0 ≡ ok a
        → All (λ q. IsNoted q (after (λ _. migrate_all fs names) out).1.file) (name ∷ names)
    rest_recorded name names (ok tt, w) a p q h =
        ((migrate_all-IsKeeping _ fs (apply-IsNoted name) names).keeps w (q refl), p w h)
    rest_recorded name names (err e, w) a p q h = absurd cc h

    pub migrate_all-recorded :
        (names : List Text) (w : Opening F) (a : Unit {0})
        → (migrate_all fs names w).0 ≡ ok a
        → All (λ name. IsNoted name (migrate_all fs names w).1.file) names
    unfolding migrate_all ◌>>=◌
    migrate_all-recorded [] w a h = tt
    migrate_all-recorded (name ∷ names) w a h =
        rest_recorded name names (migrate_one fs name w) a (λ w. migrate_all-recorded names w a)
          ((migrate_one-IsRecording name).at_success w tt) h

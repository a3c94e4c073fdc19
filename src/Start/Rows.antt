-- ===== src/Start/Rows.antt =====
-- internal/store/store.go: what `UpsertProvider` does for a name that is not in the table.
use argos_fx.Prelude.{
  ◌+◌, ◌<◌, ◌≡◌, ◌≢◌, ◌∙◌, sym, refl, false, Bool-cases, ◌⊎◌, inl, inr, List, [], ◌∷◌, ◌++◌, none,
  arith, All, ◌==◌, if◌then◌else◌,
}
use argos_fx.Text.{Text}
use argos_fx.Clock.{rfc3339}
use argos_fx.Error.{ok, err, driver}
use argos_fx.Store
use argos_fx.Store.{
  World, M, ◌>>=◌, after, return, attempt, query, now, upsert_provider, upsert_sql, find_provider,
  config_json, config_text, provider_row, ProviderRow, Db, name_eq,
}
use argos_fx.Config
use argos_fx.Config.{is_enabled}

find-append_none :
    (name : Text) (ps : List ProviderRow) (q : ProviderRow)
    → q.name ≢ name
    → find_provider name ps ≡ none
    → find_provider name (ps ++ (q ∷ [])) ≡ none
unfolding find_provider
find-append_none name [] q other h = ground arith
find-append_none name (p ∷ ps) q other h = ground (arith, find-append_none name ps q other)

-- The others' names stay unknown.
pub unknown-append :
    (name : Text) (left : List Config.Provider) (ps : List ProviderRow) (q : ProviderRow)
    → q.name ≡ name
    → All (λ qc. name ≢ qc.name) left
    → All (λ qc. find_provider qc.name ps ≡ none) left
    → All (λ qc. find_provider qc.name (ps ++ (q ∷ [])) ≡ none) left
unknown-append name [] ps q same _ _ = tt
unknown-append name (qc ∷ left) ps q same (h, hs) (k, ks) = (
  find-append_none qc.name ps q (λ e. h (sym same ∙ e)) k,
  unknown-append name left ps q same hs ks,
)

pub All-unknown : (pcs : List Config.Provider) → All (λ pc. find_provider pc.name [] ≡ none) pcs
unfolding find_provider
All-unknown [] = tt
All-unknown (pc ∷ pcs) = (refl, All-unknown pcs)

module _ {F : Type 0} where
  abbrev pub row_of : Store.Provider → World F → ProviderRow
  row_of p w =
      provider_row w.db.next_provider (rfc3339 (w.clock w.ticks))
        (config_text (w.marshal_config p.config)) p

  -- A provider of a new name either is not stored, with an error, or gets the next id.
  pub record IsNew (p : Store.Provider) (w w' : World F) : Type 0 where
    pub providers : w'.db.providers ≡ w.db.providers ++ (row_of p w ∷ [])
    pub next : w'.db.next_provider ≡ w.db.next_provider + 1
    pub same_usage : w'.db.usage ≡ w.db.usage

  pub upsert-IsNew :
      (p : Store.Provider) (w : World F)
      → 0 < w.db.next_provider
      → find_provider p.name w.db.providers ≡ none
      → ((upsert_provider p w).0 ≡ err driver × ((upsert_provider p w).1.db ≡ w.db))
        ⊎ ((upsert_provider p w).0 ≡ ok w.db.next_provider × IsNew p w (upsert_provider p w).1)
  unfolding upsert_provider config_json ◌>>=◌ now query return upsert_sql
  upsert-IsNew p w some_id unknown = elim (Bool-cases (w.broken w.queries)) [
    | inl e ↦ rw (e, if◌then◌else◌) (inl (refl, refl))
    | inr e ↦
        let nonzero : (w.db.next_provider == 0) ≡ false = ground arith in
        rw (e, if◌then◌else◌, upsert_sql, unknown, nonzero, if◌then◌else◌)
          (inr (refl, record { providers = refl; next = refl; same_usage = refl }))
  ]

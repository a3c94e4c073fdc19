-- ===== src/Program/Ids.antt =====
-- cmd/argosfx/main.go: each registered poll is of a provider of its own.
use argos_fx.Prelude.{
  ℕ, ◌≡◌, ◌≢◌, ◌<◌, refl, List, [], ◌∷◌, ◌++◌, arith, All, All-map_pred, All-append, sym,
}
use argos_fx.Prelude.Pairwise.{IsPairwise, IsPairwise-append_one}
use argos_fx.Store.{ProviderRow}
use argos_fx.Start.{Started}
use argos_fx.Start.Jobs.{IsServed, nothing, passed, registered}
use argos_fx.Program.{Member, here, there}

All-init {ℓ κ} :
    {A : Type ℓ} (P : A → Type κ) (xs : List A) (y : A) → All P (xs ++ (y ∷ [])) → All P xs × P y
All-init P [] y (p, _) = (tt, p)
All-init P (x ∷ xs) y (p, ps) = let (q, r) = All-init P xs y ps in ((p, q), r)

IsPairwise-init {ℓ κ} :
    {A : Type ℓ} (R : A → A → Type κ) (xs : List A) (y : A)
    → IsPairwise R (xs ++ (y ∷ []))
    → IsPairwise R xs × All (λ x. R x y) xs
IsPairwise-init R [] y _ = (tt, tt)
IsPairwise-init R (x ∷ xs) y (p, ps) =
    let (before, last) = All-init (R x) xs y p in
    let (rest, lasts) = IsPairwise-init R xs y ps in ((before, rest), (last, lasts))

pub IsPairwise-map_pred {ℓ κ κ'} :
    {A : Type ℓ} {R : A → A → Type κ} {S : A → A → Type κ'}
    → ((x y : A) → R x y → S x y)
    → (xs : List A) → IsPairwise R xs
    → IsPairwise S xs
IsPairwise-map_pred f [] _ = tt
IsPairwise-map_pred f (x ∷ xs) (p, ps) = (All-map_pred (f x) xs p, IsPairwise-map_pred f xs ps)

All-Member {ℓ κ} :
    {A : Type ℓ} (P : A → Type κ) (x : A) {xs : List A} → Member x xs → All P xs → P x
All-Member P x here (p, _) = p
All-Member P x (there m) (_, ps) = All-Member P x m ps

module _ {F : Type 0} where
  -- The ids of polls that have rows below a number are below it.
  IsServed-below :
      (n : ℕ) {started : List (Started F)} {rows : List ProviderRow}
      → IsServed started rows
      → All (λ r. r.id < n) rows
      → All (λ s. s.job.provider_id < n) started
  IsServed-below n nothing _ = tt
  IsServed-below n (passed row served) h = IsServed-below n served (All-init _ _ row h).0
  IsServed-below n (registered s row id calls served) h =
      let (below, last) = All-init _ _ row h in
      All-append _ _ _ (IsServed-below n served below) (rw (← id) last, tt)

  -- Each poll has an id of its own.
  unfoldable pub HasOtherId : Started F → Started F → Type 0
  HasOtherId s t = s.job.provider_id ≢ t.job.provider_id

  pub IsServed-IsPairwise :
      {started : List (Started F)} {rows : List ProviderRow}
      → IsServed started rows
      → IsPairwise (λ p q. p.id < q.id) rows
      → IsPairwise HasOtherId started
  unfolding HasOtherId
  IsServed-IsPairwise nothing _ = tt
  IsServed-IsPairwise (passed row served) h =
      IsServed-IsPairwise served (IsPairwise-init _ _ row h).0
  IsServed-IsPairwise (registered s row id calls served) h =
      let (before, below) = IsPairwise-init _ _ row h in
      IsPairwise-append_one HasOtherId _ s (IsServed-IsPairwise served before)
        (All-map_pred (λ t less e. absurd (omega arith)) _ (IsServed-below row.id served below))

  -- Polls of one id are the same poll.
  pub same_poll :
      (s t : Started F) {started : List (Started F)}
      → Member s started
      → Member t started
      → IsPairwise HasOtherId started
      → s.job.provider_id ≡ t.job.provider_id
      → s ≡ t
  unfolding HasOtherId
  same_poll s t here here _ e = refl
  same_poll s t here (there m) (others, _) e = absurd (All-Member _ _ m others e)
  same_poll s t (there m) here (others, _) e = absurd (All-Member _ _ m others (sym e))
  same_poll s t (there l) (there m) (_, rest) e = same_poll s t l m rest e

-- ===== src/Http/Answers.antt =====
-- internal/httpapi/httpapi.go: the statuses of the answers, and answers from the cache.
use mathlib.Core.Path.{subst}
use argos_fx.Prelude.{ℕ, ◌≡◌, refl, Bool, true, false, Bool-cases, inl, inr, arith, if◌then◌else◌}
use argos_fx.Prelude.Int.{pos, ltb_ℤ, leb_ℤ}
use argos_fx.Text.{Text, is_empty}
use argos_fx.Clock.{Time, Duration, sub_time, add_duration, neg_duration, minute, hour}
use argos_fx.Error.{Outcome, ok, err}
use argos_fx.Store.{latest_reading_at}
use argos_fx.Http.Types.{Server, Library, write_json, write_error}
use argos_fx.Http.Site.{Site, pure, run, ◌>>=◌, now}
use argos_fx.Http.History.{
  HistoryQuery, Checked, accepted, refused, ◌then_check◌, day, time_param, step_in_range,
  step_param, history_range,
}
use argos_fx.Http.Status.{ready, ready_if_fresh, ready_after, readyz}

module _ {F : Type 0} (lib : Library F) where
  -- The status of a store's answer about the newest reading, when the clock shows a time.
  abbrev pub readiness : Duration → Time → Outcome (Time × Bool) → ℕ
  readiness limit t (err e) = 503
  readiness limit t (ok (latest, false)) = 503
  readiness limit t (ok (latest, true)) = if ltb_ℤ limit (sub_time t latest) then 503 else 200

  ready_after-readiness :
      (limit : Duration) (found : Outcome (Time × Bool)) (site : Site F)
      → (ready_after lib limit found site).0.status
        ≡ readiness limit (site.world.clock site.world.ticks) found
  unfolding ready_after ready_if_fresh ready ◌>>=◌ now pure write_json write_error
  ready_after-readiness limit (err e) site = refl
  ready_after-readiness limit (ok (latest, false)) site = refl
  ready_after-readiness limit (ok (latest, true)) site =
      elim (Bool-cases (ltb_ℤ limit (sub_time (site.world.clock site.world.ticks) latest))) [
        | inl e ↦ rw (e, if◌then◌else◌) refl
        | inr e ↦ rw (e, if◌then◌else◌) refl
      ]

  -- With a store and a positive age limit, readyz answers 200 if the store finds a newest reading
  -- that is not older than the limit when the clock is read after the query, and 503 if it is
  -- older, if there is no reading, and if the store fails.
  pub readyz-readiness :
      (s : Server F) (site : Site F)
      → s.has_store ≡ true
      → leb_ℤ s.max_age (pos 0) ≡ false
      → (readyz lib s site).0.status
        ≡ readiness s.max_age
            ((latest_reading_at site.world).1.clock (latest_reading_at site.world).1.ticks)
            (latest_reading_at site.world).0
  unfolding readyz ◌>>=◌ run
  readyz-readiness s site store limit =
      simp (store, limit, if◌then◌else◌)
        (ready_after-readiness s.max_age (latest_reading_at site.world).0 _)

  step_in_range_bounds :
      (v step : Duration)
      → step_in_range lib v ≡ accepted step
      → (ltb_ℤ step minute ≡ false) × (ltb_ℤ day step ≡ false)
  unfolding step_in_range
  step_in_range_bounds v step h = ground arith

accepted-inj : {A : Type 0} {a b : A} → accepted a ≡ accepted b → a ≡ b
accepted-inj h = cc

-- A check that accepts what another has accepted.
then_check-accepted :
    {A B : Type 0} (m : Checked A) (f : A → Checked B) (b : B)
    → m then_check f ≡ accepted b
    → (a : A) × (m ≡ accepted a) × (f a ≡ accepted b)
unfolding ◌then_check◌
then_check-accepted (accepted a) f b h = (a, refl, h)
then_check-accepted (refused m) f b h = absurd cc

module _ {F : Type 0} (lib : Library F) where
  step_param_bounds :
      (v : Text) (step : Duration)
      → step_param lib v ≡ accepted step
      → (ltb_ℤ step minute ≡ false) × (ltb_ℤ day step ≡ false)
  unfolding step_param
  step_param_bounds v step h = elim (Bool-cases (is_empty v)) [
    | inl e ↦
        let same : hour ≡ step = accepted-inj (rw (step_param, e, if◌then◌else◌) at h) in
        rw (← same) (refl, refl)
    | inr e ↦
        let (d, parses, in_range) =
          then_check-accepted _ (step_in_range lib) step (rw (step_param, e, if◌then◌else◌) at h) in
        step_in_range_bounds lib d step in_range
  ]

  time_param_default :
      (message v : Text) (default t : Time)
      → time_param lib message v default ≡ accepted t
      → is_empty v ≡ true
      → t ≡ default
  unfolding time_param
  time_param_default message v default t h e = ground arith

  -- The step is between a minute and a day, a start that is not given is a day before the time of
  -- the request, and an end that is not given is that time.
  pub record IsRange (q : HistoryQuery) (t : Time) (range : Time × Time × Duration) : Type 0 where
    pub not_short : ltb_ℤ range.2 minute ≡ false
    pub not_long : ltb_ℤ day range.2 ≡ false
    pub from_day_before : is_empty q.start ≡ true → range.0 ≡ add_duration t (neg_duration day)
    pub to_now : is_empty q.end ≡ true → range.1 ≡ t

  -- Whatever the libraries parse: if the parameters of a history are accepted, the step is between
  -- a minute and a day, a start that is not given is a day before the time of the request, and an
  -- end that is not given is that time.
  pub history_range-IsRange :
      (q : HistoryQuery) (t : Time) (range : Time × Time × Duration)
      → history_range lib q t ≡ accepted range
      → IsRange q t range
  unfolding history_range
  history_range-IsRange q t range h =
      let (end, h1, k) = then_check-accepted _ _ _ h in
      let (start, h2, l) = then_check-accepted _ _ _ k in
      let (step, h3, m) = then_check-accepted _ _ _ l in
      let (not_short, not_long) = step_param_bounds q.step step h3 in
      subst (IsRange q t) (accepted-inj m) (record {
        not_short = not_short;
        not_long = not_long;
        from_day_before = time_param_default _ q.start _ start h2;
        to_now = time_param_default _ q.end _ end h1;
      })

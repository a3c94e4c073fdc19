-- ===== src/Aggregator/History.antt =====
-- internal/aggregator/aggregator.go: `History`, `Prune` and their helpers.
pub mod Cross
use argos_fx.Prelude.{ℕ, ◌||◌, List, [], ◌∷◌, map, none, some, if◌then◌else◌, ℕ_discrete}
use argos_fx.Text.{Text, to_upper}
use argos_fx.Clock.{Time, Duration, add_duration, neg_duration, rfc3339}
use argos_fx.Error.{ok, err, message}
use argos_fx.Assoc.{get, put}
use argos_fx.Float.{Double}
use argos_fx.Store.{M, ◌>>=◌, return, fail, attempt, now, text_eq, prune_older_than, HistoryPoint}
use argos_fx.Store
use argos_fx.Aggregator.Types.{Config}

-- `Unix()` is used as a key only: the whole seconds, counted from another day.
abbrev pub unix : Time → ℕ
unix t = rfc3339 t

module _ {F : Type 0} ⦃d : Double F⦄ where
  -- A slice of `HistoryPoint{}` is overwritten where the rate is not zero.
  unfoldable pub invert_point : HistoryPoint F → HistoryPoint F
  invert_point p =
      if d.eq p.rate d.nought
      then record { fetched_at = 0; rate = d.nought }
      else record { fetched_at = p.fetched_at; rate = d.div d.one p.rate }

  unfoldable pub invert_history : List (HistoryPoint F) → List (HistoryPoint F)
  unfolding invert_point
  invert_history = map invert_point

  -- The map `byT`: the last rate of each second.
  unfoldable pub by_second : List (HistoryPoint F) → List (ℕ × F) → List (ℕ × F)
  unfolding put
  by_second [] m = m
  by_second (p ∷ ps) m = by_second ps (put ℕ_discrete (unix p.fetched_at) p.rate m)

  unfoldable pub cross_points : List (ℕ × F) → List (HistoryPoint F) → List (HistoryPoint F)
  unfolding get
  cross_points by_t [] = []
  cross_points by_t (p ∷ ps) = elim (get ℕ_discrete (unix p.fetched_at) by_t) [
    | none ↦ cross_points by_t ps
    | some f ↦
        if d.eq f d.nought || d.eq p.rate d.nought
        then cross_points by_t ps
        else record { fetched_at = p.fetched_at; rate = d.div p.rate f } ∷ cross_points by_t ps
  ]

  unfoldable pub cross_history :
      List (HistoryPoint F) → List (HistoryPoint F) → List (HistoryPoint F)
  unfolding by_second cross_points
  cross_history from_side to_side = cross_points (by_second from_side []) to_side

  -- An error of the store is an empty series.
  unfoldable pub history_side : Text → Time → Time → Duration → M F (List (HistoryPoint F))
  history_side quote start end step = do
    r ← attempt (Store.history quote start end step)
    return (elim r [ ok raw ↦ raw | err e ↦ [] ])

  unfoldable pub history_upper :
      Config F → Text → Text → Time → Time → Duration → M F (List (HistoryPoint F))
  unfolding history_side invert_history cross_history
  history_upper cfg from to start end step =
      if text_eq from to
      then fail (message "from and to must differ")
      else if text_eq from cfg.base
      then history_side to start end step
      else if text_eq to cfg.base
      then (do pts ← history_side from start end step; return (invert_history pts))
      else do
        from_pts ← history_side from start end step
        to_pts ← history_side to start end step
        return (cross_history from_pts to_pts)

  unfoldable pub history :
      Config F → Text → Text → Time → Time → Duration → M F (List (HistoryPoint F))
  unfolding history_upper
  history cfg from to start end step =
      history_upper cfg (to_upper from) (to_upper to) start end step

  unfoldable pub prune : Duration → M F ℕ
  unfolding prune_older_than
  prune retention = do t ← now; prune_older_than (add_duration t (neg_duration retention))

-- ===== src/Store/History.antt =====
-- internal/store/store.go: `History` and `downsample`.
use argos_fx.Prelude.{
  ℕ, Bool, ◌&&◌, ◌||◌, List, [], ◌∷◌, ◌++◌, map, length, keep, leb, ltb, ◌==◌, if◌then◌else◌,
}
use argos_fx.Prelude.Int.{pos, leb_ℤ}
use argos_fx.Prelude.Sort.{sort}
use argos_fx.Text.{Text, to_upper}
use argos_fx.Clock.{Time, Duration, rfc3339, parse_rfc3339, truncate}
use argos_fx.Error.{ok}
use argos_fx.Float.{Double}
use argos_fx.Store.Tables.{ReadingRow}
use argos_fx.Store.Monad.{M, ◌>>=◌, return, query, arrange}
use argos_fx.Store.Readings.{text_eq}

-- `type HistoryPoint struct`, of the store and of the aggregator alike.
pub record HistoryPoint (F : Type 0) : Type 0 where
  pub fetched_at : Time
  pub rate : F

-- The variables of `downsample`. `n` counts by floats in the source: small whole numbers, which a
-- float holds exactly; it is converted for the division.
pub record Bucket (F : Type 0) : Type 0 where
  pub out : List (HistoryPoint F)
  pub bucket_start : Time
  pub sum : F
  pub n : F

module _ {F : Type 0} ⦃d : Double F⦄ where
  abbrev point : Time → F → HistoryPoint F
  point t r = record { fetched_at = t; rate = r }

  -- The closure `flush`.
  unfoldable pub flush : Bucket F → Bucket F
  flush b = record {
    out =
        if d.lt d.nought b.n then b.out ++ (point b.bucket_start (d.div b.sum b.n) ∷ []) else b.out;
    bucket_start = b.bucket_start;
    sum = d.nought;
    n = d.nought;
  }

  abbrev pub add_point : HistoryPoint F → Bucket F → Bucket F
  add_point p b = record b { sum = d.add b.sum p.rate; n = d.add b.n d.one }

  -- One round of the loop.
  unfoldable pub sample : Duration → HistoryPoint F → Bucket F → Bucket F
  unfolding flush
  sample step p b =
      let start = truncate p.fetched_at step in
      add_point p (if start == b.bucket_start then b else record (flush b) { bucket_start = start })

  unfoldable pub sample_all : Duration → List (HistoryPoint F) → Bucket F → Bucket F
  sample_all step [] b = b
  sample_all step (p ∷ ps) b = sample_all step ps (sample step p b)

  abbrev pub empty_bucket : Bucket F
  empty_bucket = record { out = []; bucket_start = 0; sum = d.nought; n = d.nought }

  unfoldable pub downsample : List (HistoryPoint F) → Duration → List (HistoryPoint F)
  unfolding sample_all sample flush
  downsample points step = (flush (sample_all step points empty_bucket)).out

  -- WHERE quote = ? AND fetched_at >= ? AND fetched_at <= ?.
  abbrev pub in_range : Text → ℕ → ℕ → ReadingRow F → Bool
  in_range quote start end r =
      text_eq r.quote quote && leb start r.fetched_at && leb r.fetched_at end

  -- ORDER BY fetched_at ASC. Rows of one time come in no certain order.
  abbrev pub fetched_before : ReadingRow F → ReadingRow F → Bool
  fetched_before r s = ltb r.fetched_at s.fetched_at

  unfoldable pub scan_point : ReadingRow F → HistoryPoint F
  scan_point r = point (parse_rfc3339 r.fetched_at) r.rate

  unfoldable pub history : Text → Time → Time → Duration → M F (List (HistoryPoint F))
  unfolding scan_point downsample
  history quote start end step = do
    rows ←
        query λ db.
          (ok (keep (in_range (to_upper quote) (rfc3339 start) (rfc3339 end)) db.readings), db)
    arranged ← arrange rows
    let raw = map scan_point (sort fetched_before arranged)
    return (if leb_ℤ step (pos 0) || (length raw == 0) then raw else downsample raw step)

-- ===== src/Metrics/Laws.antt =====
-- internal/obs/metrics.go: what the labelled gauges read back.
use argos_fx.Prelude.{◌≡◌, arith, ite}
use argos_fx.Text.{Text, text_discrete}
use argos_fx.Assoc
use argos_fx.Assoc.{get-put}
use argos_fx.Float.{Double}
use argos_fx.Metrics.{Metrics, labels_of, set_labeled, labeled_value}

module _ {F : Type 0} ⦃d : Double F⦄ where
  -- A labelled gauge has the value that it was set to, and every other is left alone.
  pub labeled_value-set_labeled :
      (name label q k : Text) (v : F) (m : Metrics F)
      → labeled_value q k (set_labeled name label v m)
        ≡ ite
            (text_discrete name q)
            (ite (text_discrete label k) v (labeled_value q k m))
            (labeled_value q k m)
  unfolding labeled_value set_labeled
  labeled_value-set_labeled name label q k v m =
      let labels = Assoc.put text_discrete label v (labels_of name m) in
      ground (
        arith,
        get-put text_discrete name q labels m.labeled,
        get-put text_discrete label k v (labels_of name m),
      )

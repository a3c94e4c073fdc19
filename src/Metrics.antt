-- ===== src/Metrics.antt =====
-- internal/obs/metrics.go and format.go: the registry of metrics and its text. The formatting of
-- numbers is strconv's: an argument. Each operation is atomic under its locks.
pub mod Laws
use argos_fx.Prelude.{ℕ, ◌+◌, ◌%◌, ◌^◌, List, [], ◌∷◌, ◌++◌, map, Option, none, some, if◌then◌else◌}
use argos_fx.Prelude.Sort.{sort}
use argos_fx.Text.{Text, codes, text_discrete, text_less}
use argos_fx.Assoc
use argos_fx.Float.{Double}

-- The maps are made with their first entry.
pub record Metrics (F : Type 0) : Type 0 where
  pub gauges : List (Text × F)
  pub counters : List (Text × ℕ)
  pub labeled : List (Text × List (Text × F))

abbrev or_else {ℓ} : {A : Type ℓ} → A → Option A → A
or_else a none = a
or_else a (some b) = b

module _ {F : Type 0} where
  abbrev pub new_metrics : Metrics F
  new_metrics = record { gauges = []; counters = []; labeled = [] }

  unfoldable pub set_gauge : Text → F → Metrics F → Metrics F
  set_gauge name value m = record m { gauges = Assoc.put text_discrete name value m.gauges }

  unfoldable pub counter : Text → Metrics F → ℕ
  counter name m = or_else 0 (Assoc.get text_discrete name m.counters)

  -- `atomic.AddUint64`.
  unfoldable pub add_counter : Text → ℕ → Metrics F → Metrics F
  unfolding counter
  add_counter name delta m = record m {
    counters = Assoc.put text_discrete name ((counter name m + delta) % 2 ^ 64) m.counters;
  }

  unfoldable pub inc_counter : Text → Metrics F → Metrics F
  unfolding add_counter
  inc_counter name = add_counter name 1

  abbrev labels_of : Text → Metrics F → List (Text × F)
  labels_of name m = or_else [] (Assoc.get text_discrete name m.labeled)

  unfoldable pub set_labeled : Text → Text → F → Metrics F → Metrics F
  set_labeled name label value m = record m {
    labeled =
        Assoc.put text_discrete name (Assoc.put text_discrete label value (labels_of name m))
          m.labeled;
  }

module _ {F : Type 0} ⦃d : Double F⦄ where
  unfoldable pub get_gauge : Text → Metrics F → F
  get_gauge name m = or_else d.nought (Assoc.get text_discrete name m.gauges)

  unfoldable pub labeled_value : Text → Text → Metrics F → F
  labeled_value name label m = or_else d.nought (Assoc.get text_discrete label (labels_of name m))

abbrev pub newline : Text
newline = codes "\n"

-- `strconv.FormatFloat` and `strconv.FormatUint`.
pub record NumberFormat (F : Type 0) : Type 0 where
  pub float : F → Text
  pub uint : ℕ → Text

-- The keys of a map, as `Range` collects them, sorted.
abbrev pub sorted_names {ℓ} : {A : Type ℓ} → List (Text × A) → List Text
sorted_names m = sort text_less (map (λ p. p.0) m)

-- The concatenation of the lines for each name.
unfoldable pub concat_map {ℓ} : {A : Type ℓ} → (A → Text) → List A → Text
concat_map f [] = []
concat_map f (x ∷ xs) = f x ++ concat_map f xs

module _ {F : Type 0} ⦃d : Double F⦄ (numbers : NumberFormat F) where
  unfoldable pub format_float : F → Text
  format_float v = if d.eq v d.nought then codes "0" else numbers.float v

  abbrev type_line : Text → Text → Text
  type_line name kind = codes "# TYPE " ++ (name ++ (codes " " ++ (kind ++ newline)))

  unfoldable pub gauge_lines : Metrics F → Text → Text
  unfolding format_float
  gauge_lines m name =
      type_line name (codes "gauge")
      ++ (name ++ (codes " " ++ (format_float (get_gauge name m) ++ newline)))

  unfoldable pub labeled_row : Text → Text × F → Text
  unfolding format_float
  labeled_row name (label, val) = name ++ (codes "{" ++ (label ++ (codes "} " ++ format_float val)))

  unfoldable pub labeled_lines : Metrics F → Text → Text
  unfolding labeled_row
  labeled_lines m name =
      type_line name (codes "gauge")
      ++ concat_map (λ r. r ++ newline) (sort text_less (map (labeled_row name) (labels_of name m)))

  unfoldable pub counter_lines : Metrics F → Text → Text
  counter_lines m name =
      type_line name (codes "counter")
      ++ (name ++ (codes " " ++ (numbers.uint (counter name m) ++ newline)))

  -- `Text`.
  unfoldable pub exposition : Metrics F → Text
  unfolding gauge_lines labeled_lines counter_lines
  exposition m =
      concat_map (gauge_lines m) (sorted_names m.gauges)
      ++ (concat_map (labeled_lines m) (sorted_names m.labeled)
          ++ concat_map (counter_lines m) (sorted_names m.counters))

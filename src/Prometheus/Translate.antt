-- ===== src/Prometheus/Translate.antt =====
-- `_translate_data` and what it calls, from prometheus_remote_write/__init__.py. A list of bucket counts
-- that is too short raises an `IndexError`, here `none`.
pub mod Sizes
pub mod Counted
pub mod Grouped
use opentelemetry_python_con.Common.{
  ℕ, zero, suc, ◌+◌, ◌/◌, Bool, true, false, ◌&&◌, Option, none, some, List, [], ◌∷◌, ◌++◌, map,
  get_elem?, Text, text, text_eq, text_lt, if◌then◌else◌, or_default,
}
use opentelemetry_python_con.Prometheus.Sdk.{
  Values, Classes, Pairs, NumberDataPoint, HistogramDataPoint, Data, gauge_or_sum, histogram,
  unsupported, Metric, ResourceMetrics, Label, Sample, TimeSeries,
}
use opentelemetry_python_con.Prometheus.Names.{name, label, sanitize_string}

infixl 5 ◌>>=◌
abbrev pub ◌>>=◌ : {A B : Type 0} → Option A → (A → Option B) → Option B
none >>= f = none
some a >>= f = f a

module _ {V N : Type 0} (values : Values V N) (classes : Classes) where
  -- a pair of attributes and sample, which holds a value and a timestamp in milliseconds
  abbrev pub Entry : Type 0
  Entry = Pairs V × Sample N

  unfoldable pub sample : N → ℕ → Sample N
  sample value timestamp = record { value = value; timestamp = timestamp }

  unfoldable pub parse_data_point : NumberDataPoint V N → Text → Entry
  parse_data_point p n = (
    p.attributes ++ (text "__name__", values.of_text (sanitize_string classes n name)) ∷ [],
    sample p.value (p.time_unix_nano / 1000000),
  )

  -- with the text of a bound, if it has one that is true
  unfoldable pub handle_bucket : HistogramDataPoint V N → N → Option Text → Text → Entry
  handle_bucket p value bound n = (
    p.attributes
        ++ (text "__name__", values.of_text (sanitize_string classes n name))
          ∷ (elim bound [ none ↦ [] | some b ↦ (text "le", values.of_text b) ∷ [] ]),
    sample value (p.time_unix_nano / 1000000),
  )

  -- `if bound:`
  unfoldable pub bound_text : N → Option Text
  bound_text bound = if values.is_true bound then some (values.str_number bound) else none

  unfoldable pub bucket_entries : HistogramDataPoint V N → Text → List N → ℕ → Option (List Entry)
  bucket_entries p n [] pos = some []
  bucket_entries p n (bound ∷ bounds) pos = do
    count ← get_elem? p.bucket_counts pos
    rest ← bucket_entries p n bounds (pos + 1)
    some (handle_bucket p (values.of_count count) (bound_text bound) n ∷ rest)

  -- `xs[-1]`
  unfoldable pub last : List ℕ → Option ℕ
  last [] = none
  last (x ∷ []) = some x
  last (x ∷ y ∷ xs) = last (y ∷ xs)

  unfoldable pub parse_histogram_data_point : HistogramDataPoint V N → Text → Option (List Entry)
  parse_histogram_data_point p n = do
    buckets ← bucket_entries p n p.explicit_bounds 0
    count ← last p.bucket_counts
    some (
        buckets
        ++ handle_bucket p (values.of_count count) (some (text "+Inf")) n
          ∷ handle_bucket p p.sum none (n ++ text "_sum")
          ∷ handle_bucket p (values.of_count p.count) none (n ++ text "_count")
          ∷ [])

  -- The equality of two tuples of attributes.
  unfoldable pub pairs_eq : Pairs V → Pairs V → Bool
  pairs_eq [] [] = true
  pairs_eq [] (q ∷ qs) = false
  pairs_eq (p ∷ ps) [] = false
  pairs_eq ((k, v) ∷ ps) ((l, w) ∷ qs) = text_eq k l && values.eq v w && pairs_eq ps qs

  -- `sample_sets`, a dict of lists in the order of insertion, and `sample_sets[attrs].append(sample)`
  abbrev pub SampleSets : Type 0
  SampleSets = List (Pairs V × List (Sample N))

  unfoldable pub append_sample : Pairs V → Sample N → SampleSets → SampleSets
  append_sample attrs s [] = (attrs, s ∷ []) ∷ []
  append_sample attrs s ((key, samples) ∷ sets) =
      let rest = append_sample attrs s sets in
      if pairs_eq key attrs then (key, samples ++ s ∷ []) ∷ sets else (key, samples) ∷ rest

  unfoldable pub group : List Entry → SampleSets → SampleSets
  group [] sets = sets
  group ((attrs, s) ∷ entries) sets = group entries (append_sample attrs s sets)

  -- The `<` of two pairs, and `sorted`.
  unfoldable pub pair_lt : (Text × V) → (Text × V) → Bool
  pair_lt (k, v) (l, w) = if text_eq k l then values.lt v w else text_lt k l

  unfoldable pub insert : (Text × V) → Pairs V → Pairs V
  insert p [] = p ∷ []
  insert p (q ∷ qs) = let rest = insert p qs in if pair_lt q p then q ∷ rest else p ∷ q ∷ qs

  unfoldable pub sorted : Pairs V → Pairs V
  sorted [] = []
  sorted (p ∷ ps) = insert p (sorted ps)

  unfoldable pub make_label : (Text × V) → Label
  make_label (n, v) = record { name = sanitize_string classes n label; value = values.str v }

  unfoldable pub convert_to_timeseries : SampleSets → Pairs V → List (TimeSeries N)
  convert_to_timeseries [] resource_labels = []
  convert_to_timeseries ((labels, samples) ∷ sets) resource_labels =
      record { labels = map make_label (sorted (resource_labels ++ labels)); samples = samples }
      ∷ convert_to_timeseries sets resource_labels

  unfoldable pub metric_name : Metric V N → Text
  metric_name m = elim m.unit [ [] ↦ m.name | c ∷ cs ↦ m.name ++ text "_" ++ c ∷ cs ]

  unfoldable pub histogram_entries : Text → List (HistogramDataPoint V N) → Option (List Entry)
  histogram_entries n [] = some []
  histogram_entries n (p ∷ ps) = do
    entries ← parse_histogram_data_point p n
    rest ← histogram_entries n ps
    some (entries ++ rest)

  unfoldable pub entries_of : Text → Data V N → Option (List Entry)
  entries_of n (gauge_or_sum ps) = some (map (λ p. parse_data_point p n) ps)
  entries_of n (histogram ps) = histogram_entries n ps
  entries_of n unsupported = some []

  unfoldable pub parse_metric : Metric V N → Pairs V → Option (List (TimeSeries N))
  parse_metric m resource_labels = do
    entries ← entries_of (metric_name m) m.points
    some (convert_to_timeseries (group entries []) resource_labels)

  unfoldable pub parse_metrics : List (Metric V N) → Pairs V → Option (List (TimeSeries N))
  parse_metrics [] resource_labels = some []
  parse_metrics (m ∷ ms) resource_labels = do
    series ← parse_metric m resource_labels
    rest ← parse_metrics ms resource_labels
    some (series ++ rest)

  unfoldable pub parse_scopes : List (List (Metric V N)) → Pairs V → Option (List (TimeSeries N))
  parse_scopes [] resource_labels = some []
  parse_scopes (ms ∷ scopes) resource_labels = do
    series ← parse_metrics ms resource_labels
    rest ← parse_scopes scopes resource_labels
    some (series ++ rest)

  unfoldable pub resource_labels : Bool → Pairs V → Pairs V
  resource_labels resources_as_labels attributes =
      if resources_as_labels
      then map (λ (n, v). (n, values.of_text (values.str v))) attributes
      else []

  unfoldable pub translate_data : Bool → List (ResourceMetrics V N) → Option (List (TimeSeries N))
  translate_data resources_as_labels [] = some []
  translate_data resources_as_labels (r ∷ rs) = do
    series ← parse_scopes r.scope_metrics (resource_labels resources_as_labels r.attributes)
    rest ← translate_data resources_as_labels rs
    some (series ++ rest)

-- ===== src/Prometheus/Sdk.antt =====
-- What prometheus_remote_write/__init__.py uses of the SDK: the metrics, with the values of attributes and
-- the numbers as parameters; and of the generated protocol messages, their fields.
use opentelemetry_python_con.Common.{ℕ, Bool, List, Text}

-- An attribute's value has `str`, and the `<` of values that Python can compare; a `str` is one. A number
-- has `str`, and is true if it is not zero; a count is one.
pub record Values (V N : Type 0) : Type 0 where
  pub str : V → Text
  pub of_text : Text → V
  pub eq : V → V → Bool
  pub lt : V → V → Bool
  pub str_number : N → Text
  pub is_true : N → Bool
  pub of_count : ℕ → N

-- The classes of `re` for `str`: `\w` and `\d`.
pub record Classes : Type 0 where
  pub is_word : ℕ → Bool
  pub is_digit : ℕ → Bool

-- the attributes of a point, or the labels of a series
abbrev pub Pairs : Type 0 → Type 0
Pairs V = List (Text × V)

pub record NumberDataPoint (V N : Type 0) : Type 0 where
  pub attributes : Pairs V
  pub time_unix_nano : ℕ
  pub value : N

pub record HistogramDataPoint (V N : Type 0) : Type 0 where
  pub attributes : Pairs V
  pub time_unix_nano : ℕ
  pub count : ℕ
  pub sum : N
  pub bucket_counts : List ℕ
  pub explicit_bounds : List N

pub data Data (V N : Type 0) : Type 0 where
  gauge_or_sum : List (NumberDataPoint V N) → Data V N
  histogram : List (HistogramDataPoint V N) → Data V N
  unsupported : Data V N

pub record Metric (V N : Type 0) : Type 0 where
  pub name : Text
  pub unit : Text
  pub points : Data V N

pub record ResourceMetrics (V N : Type 0) : Type 0 where
  pub attributes : Pairs V
  pub scope_metrics : List (List (Metric V N))

-- The generated messages.
pub record Label : Type 0 where
  pub name : Text
  pub value : Text

pub record Sample (N : Type 0) : Type 0 where
  pub value : N
  pub timestamp : ℕ

pub record TimeSeries (N : Type 0) : Type 0 where
  pub labels : List Label
  pub samples : List (Sample N)

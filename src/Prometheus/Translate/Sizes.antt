-- ===== src/Prometheus/Translate/Sizes.antt =====
-- How many samples there are, in points, in sets and in time series.

use opentelemetry_python_con.Common.{
  ℕ, ◌+◌, ◌≡◌, refl, Option, none, some, List, [], ◌∷◌, ◌++◌, length, length-append, All, arith,
  Bool-cases, inl, inr,
}
use opentelemetry_python_con.Prometheus.Sdk.{
  Values, Classes, Pairs, HistogramDataPoint, Data, gauge_or_sum, histogram, unsupported, Metric,
  ResourceMetrics, Sample, TimeSeries,
}
use opentelemetry_python_con.Prometheus.Translate.{
  Entry, SampleSets, pairs_eq, append_sample, group, convert_to_timeseries, ◌>>=◌,
}

-- How many samples time series hold.
abbrev pub samples_in : {N : Type 0} → List (TimeSeries N) → ℕ
samples_in [] = 0
samples_in (t ∷ ts) = length t.samples + samples_in ts

pub samples_in-append :
    {N : Type 0} (ts us : List (TimeSeries N))
    → samples_in (ts ++ us) ≡ samples_in ts + samples_in us
samples_in-append [] us = omega arith
samples_in-append (t ∷ ts) us = omega (arith, samples_in-append ts us)

-- How many a point makes: one for a number; for a histogram one for each bound, and three.
module _ {V N : Type 0} where
  abbrev pub buckets : List (HistogramDataPoint V N) → ℕ
  buckets [] = 0
  buckets (p ∷ ps) = length p.explicit_bounds + 3 + buckets ps

  abbrev pub of_data : Data V N → ℕ
  of_data (gauge_or_sum ps) = length ps
  of_data (histogram ps) = buckets ps
  of_data unsupported = 0

  abbrev pub of_metrics : List (Metric V N) → ℕ
  of_metrics [] = 0
  of_metrics (m ∷ ms) = of_data m.points + of_metrics ms

  abbrev pub of_scopes : List (List (Metric V N)) → ℕ
  of_scopes [] = 0
  of_scopes (ms ∷ scopes) = of_metrics ms + of_scopes scopes

  abbrev pub of_resources : List (ResourceMetrics V N) → ℕ
  of_resources [] = 0
  of_resources (r ∷ rs) = of_scopes r.scope_metrics + of_resources rs

  -- A histogram of the SDK has a bucket more than bounds.
  abbrev pub IsFull : Data V N → Type 0
  IsFull (gauge_or_sum ps) = Unit
  IsFull (histogram ps) = All (λ p. length p.bucket_counts ≡ length p.explicit_bounds + 1) ps
  IsFull unsupported = Unit

  abbrev pub AreFull : List (ResourceMetrics V N) → Type 0
  AreFull = All (λ r. All (All (λ m. IsFull m.points)) r.scope_metrics)

module _ {V N : Type 0} (values : Values V N) (classes : Classes) where
  abbrev pub sets_size : SampleSets values classes → ℕ
  sets_size [] = 0
  sets_size ((key, samples) ∷ sets) = length samples + sets_size sets

  append_sample-size :
      (attrs : Pairs V) (s : Sample N) (sets : SampleSets values classes)
      → sets_size (append_sample values classes attrs s sets) ≡ sets_size sets + 1
  unfolding append_sample
  append_sample-size attrs s [] = omega arith
  append_sample-size attrs s ((key, samples) ∷ sets) =
      elim (Bool-cases (pairs_eq values classes key attrs)) [
        | inl e ↦ rw e (omega (arith, length-append samples (s ∷ [])))
        | inr e ↦ rw e (omega (arith, append_sample-size attrs s sets))
      ]

  pub group-size :
      (entries : List (Entry values classes)) (sets : SampleSets values classes)
      → sets_size (group values classes entries sets) ≡ sets_size sets + length entries
  unfolding group
  group-size [] sets = omega arith
  group-size ((attrs, s) ∷ entries) sets = omega (
    arith,
    group-size entries (append_sample values classes attrs s sets),
    append_sample-size attrs s sets,
  )

  pub convert-size :
      (sets : SampleSets values classes) (labels : Pairs V)
      → samples_in (convert_to_timeseries values classes sets labels) ≡ sets_size sets
  unfolding convert_to_timeseries
  convert-size [] labels = refl
  convert-size ((key, samples) ∷ sets) labels = omega (arith, convert-size sets labels)

-- A result that is there, and of a size.
abbrev pub Gives : {A : Type 0} → (A → ℕ) → Option A → ℕ → Type 0
Gives size none n = ⊥
Gives size (some a) n = size a ≡ n

pub Gives->>= :
    {A B : Type 0} (size : A → ℕ) (size' : B → ℕ) (m : Option A) (n n' : ℕ) (f : A → Option B)
    → Gives size m n
    → ((a : A) → size a ≡ n → Gives size' (f a) n')
    → Gives size' (m >>= f) n'
Gives->>= size size' none n n' f h k = elim h [ ]
Gives->>= size size' (some a) n n' f h k = k a h

pub Gives-some :
    {A : Type 0} (size : A → ℕ) (m : Option A) (n : ℕ)
    → Gives size m n
    → (a : A) × (m ≡ some a) × (size a ≡ n)
Gives-some size none n h = elim h [ ]
Gives-some size (some a) n h = (a, refl, h)

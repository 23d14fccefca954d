-- ===== src/Labeler.antt =====
-- `Labeler` and `enrich_metric_attributes` of opentelemetry/instrumentation/_labeler/_internal. The lock
-- makes each operation of a labeler one step. `enrich_metric_attributes` reads the attributes outside the
-- lock, and is modelled without a change by another thread in between. The labeler of the current context
-- is an argument.
pub mod Bounded
pub mod Enriched
mod Tests
use opentelemetry_python_con.Common.{
  ℕ, ◌+◌, Bool, true, false, not, ◌&&◌, Option, none, some, List, [], ◌∷◌, length, take, Text, ltb,
  leb, if◌then◌else◌, Dict, get, put,
}

-- A value: a `str`, an `int`, `float` or `bool`, or of another type.
pub data Value : Type 0 where
  str : Text → Value
  scalar : ℕ → Value
  other : ℕ → Value

pub record Labeler : Type 0 where
  pub max_custom_attrs : ℕ
  pub max_attr_value_length : ℕ
  pub attributes : Dict Value

unfoldable pub init : ℕ → ℕ → Labeler
init max_custom_attrs max_attr_value_length = record {
  max_custom_attrs = max_custom_attrs;
  max_attr_value_length = max_attr_value_length;
  attributes = [];
}

-- `isinstance(value, (str, int, float, bool))`
unfoldable pub is_primitive : Value → Bool
is_primitive (str t) = true
is_primitive (scalar n) = true
is_primitive (other n) = false

-- a text that is longer than the limit is cut
unfoldable pub truncate : ℕ → Value → Value
truncate n (str t) = if ltb n (length t) then str (take n t) else str t
truncate n (scalar k) = scalar k
truncate n (other k) = other k

-- `key in d`
unfoldable pub has : Text → Dict Value → Bool
has key d = elim (get d key) [ none ↦ false | some v ↦ true ]

unfoldable pub add : Text → Value → Labeler → Labeler
add key value l =
    if not (is_primitive value)
    then l
    else if leb l.max_custom_attrs (length l.attributes) && not (has key l.attributes)
    then l
    else record l { attributes = put key (truncate l.max_attr_value_length value) l.attributes }

-- The body of the loop is that of `add`.
unfoldable pub add_attributes : Dict Value → Labeler → Labeler
add_attributes [] l = l
add_attributes ((key, value) ∷ attributes) l = add_attributes attributes (add key value l)

unfoldable pub clear : Labeler → Labeler
clear l = record l { attributes = [] }

-- the loop over the labeler's attributes, with `added_count` and `enriched_attributes`
unfoldable pub enrich_loop : Labeler → Dict Value → Dict Value → ℕ → Dict Value → Dict Value
enrich_loop l base [] added_count enriched = enriched
enrich_loop l base ((key, value) ∷ attributes) added_count enriched =
    elim (leb l.max_custom_attrs added_count) [
      | true ↦ enriched
      | false ↦ elim (has key base) [
        | true ↦ enrich_loop l base attributes added_count enriched
        | false ↦
            enrich_loop l base attributes (added_count + 1)
              (put key (truncate l.max_attr_value_length value) enriched)
      ]
    ]

-- with the labeler of the current context, if it has one
unfoldable pub enrich_metric_attributes : Dict Value → Bool → Option Labeler → Dict Value
enrich_metric_attributes base enrich_enabled none = base
enrich_metric_attributes base enrich_enabled (some l) =
    if enrich_enabled then enrich_loop l base l.attributes 0 base else base

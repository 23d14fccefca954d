-- ===== src/Labeler/Tests.antt =====
-- Runs of a labeler on concrete attributes.
use opentelemetry_python_con.Common.{
  ◌≡◌, refl, true, some, List, [], ◌∷◌, text, text_eq, Dict, get, put,
}
use opentelemetry_python_con.Labeler.{
  Value, str, scalar, other, Labeler, init, is_primitive, truncate, has, add, add_attributes, clear,
  enrich_loop, enrich_metric_attributes,
}
use opentelemetry_python_con.Labeler.Bounded.{
  IsBounded, Use, add_one, add_many, clear_all, use_all, use_all-init-IsBounded,
}

abbrev uses : List Use
uses =
    add_one (text "z") (scalar 9)
    ∷ clear_all
    ∷ add_many ((text "a", str (text "abcdef")) ∷ (text "b", other 1) ∷ (text "c", scalar 2) ∷ [])
    ∷ add_one (text "d") (scalar 3)
    ∷ add_one (text "a") (scalar 4)
    ∷ []

use_all_example :
    (use_all uses (init 2 3)).attributes ≡ (text "a", scalar 4) ∷ (text "c", scalar 2) ∷ []
unfolding use_all init add add_attributes clear is_primitive truncate has get put text_eq
use_all_example = refl

abbrev base : Dict Value
base = (text "a", scalar 7) ∷ []

abbrev labeler : Labeler
labeler = record {
  max_custom_attrs = 2;
  max_attr_value_length = 3;
  attributes = (text "a", scalar 4) ∷ (text "c", str (text "wxyz")) ∷ [];
}

enrich_example :
    enrich_metric_attributes base true (some labeler)
    ≡ (text "a", scalar 7) ∷ (text "c", str (text "wxy")) ∷ []
unfolding enrich_metric_attributes enrich_loop truncate has get put text_eq
enrich_example = refl

use_all-init-IsBounded_example : IsBounded (use_all uses (init 2 3))
use_all-init-IsBounded_example = use_all-init-IsBounded uses 2 3

a_in_base : get base (text "a") ≡ some (scalar 7)
unfolding get text_eq
a_in_base = refl

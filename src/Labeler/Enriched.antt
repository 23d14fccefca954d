-- ===== src/Labeler/Enriched.antt =====
-- What a labeler adds to the attributes of a metric.
use opentelemetry_python_con.Common.{
  ℕ, ◌+◌, ◌≤◌, ◌≡◌, refl, ap, ◌∙◌, Bool, true, false, Option, none, some, [], ◌∷◌, length, Text,
  text_eq, text_eq_sound, leb, arith, Bool-cases, inl, inr, Dict, get, put, length-put,
  get-put_other, if◌then◌else◌,
}
use opentelemetry_python_con.Labeler.{
  Value, Labeler, truncate, has, enrich_loop, enrich_metric_attributes,
}

-- A key that the base does not have is not that of a base attribute.
other_key :
    (key base_key : Text) (base : Dict Value) {v : Value}
    → get base base_key ≡ some v
    → has key base ≡ false
    → text_eq key base_key ≡ false
unfolding has
other_key key base_key base h k = elim (Bool-cases (text_eq key base_key)) [
  | inl e ↦
      let same : get base key ≡ get base base_key = ap (get base) (text_eq_sound key base_key e) in
      absurd (ground arith)
  | inr e ↦ e
]

enrich_loop-get :
    (l : Labeler) (base attributes : Dict Value) (n : ℕ) (enriched : Dict Value) (key : Text)
    {v : Value}
    → get base key ≡ some v
    → get (enrich_loop l base attributes n enriched) key ≡ get enriched key
unfolding enrich_loop
enrich_loop-get l base [] n enriched key h = refl
enrich_loop-get l base ((k, w) ∷ attributes) n enriched key h =
    elim (Bool-cases (leb l.max_custom_attrs n)) [
      | inl e ↦ rw (e, enrich_loop) refl
      | inr e ↦ elim (Bool-cases (has k base)) [
        | inl f ↦ rw (e, f, enrich_loop) (enrich_loop-get l base attributes n enriched key h)
        | inr f ↦
            rw (e, f, enrich_loop)
              (enrich_loop-get l base attributes (n + 1) _ key h
                ∙ get-put_other k key (truncate l.max_attr_value_length w) enriched
                    (other_key k key base h f))
      ]
    ]

enrich_loop-le :
    (l : Labeler) (base attributes : Dict Value) (n : ℕ) (enriched : Dict Value)
    → n ≤ l.max_custom_attrs
    → length (enrich_loop l base attributes n enriched) + n ≤ length enriched + l.max_custom_attrs
unfolding enrich_loop
enrich_loop-le l base [] n enriched h = omega (arith, h)
enrich_loop-le l base ((k, w) ∷ attributes) n enriched h =
    elim (Bool-cases (leb l.max_custom_attrs n)) [
      | inl e ↦ rw (e, enrich_loop) (omega (arith, h))
      | inr e ↦ elim (Bool-cases (has k base)) [
        | inl f ↦ rw (e, f, enrich_loop) (enrich_loop-le l base attributes n enriched h)
        | inr f ↦
            let d = put k (truncate l.max_attr_value_length w) enriched in
            let less : n + 1 ≤ l.max_custom_attrs = ground arith in
            rw (e, f, enrich_loop)
              (omega (
                arith,
                enrich_loop-le l base attributes (n + 1) d less,
                length-put k (truncate l.max_attr_value_length w) enriched,
              ))
      ]
    ]

-- The attributes of a metric keep their values, whatever the labeler holds, and no more are added than
-- the labeler's limit; none, if enriching is not enabled or there is no labeler.
pub enrich_metric_attributes_keeps :
    (base : Dict Value) (enabled : Bool) (labeler : Option Labeler) (key : Text) (v : Value)
    → get base key ≡ some v
    → (get (enrich_metric_attributes base enabled labeler) key ≡ some v)
      × (length (enrich_metric_attributes base enabled labeler)
          ≤ length base
            + (elim labeler [ none ↦ 0 | some l ↦ if enabled then l.max_custom_attrs else 0 ]))
unfolding enrich_metric_attributes
enrich_metric_attributes_keeps base enabled none key v h = (h, omega arith)
enrich_metric_attributes_keeps base true (some l) key v h = (
  enrich_loop-get l base l.attributes 0 base key h ∙ h,
  omega (arith, enrich_loop-le l base l.attributes 0 base (omega arith)),
)
enrich_metric_attributes_keeps base false (some l) key v h = (h, omega arith)

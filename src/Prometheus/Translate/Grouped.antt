-- ===== src/Prometheus/Translate/Grouped.antt =====
-- Which samples are in a series: those of the points with its attributes.
use mathlib.Core.List.{append_assoc}
use opentelemetry_python_con.Common.{
  ◌≡◌, refl, sym, ap, ◌∙◌, Bool, true, false, List, [], ◌∷◌, ◌++◌, append-eq-nil, text_eq_iff,
  arith, if◌then◌else◌, Bool-cases, inl, inr,
}
use opentelemetry_python_con.Prometheus.Sdk.{Values, Classes, Pairs, Sample}
use opentelemetry_python_con.Prometheus.Translate.{
  Entry, SampleSets, pairs_eq, append_sample, group,
}

-- The equality of values, as Python has it for the keys of a dict.
pub record IsEquality {V : Type 0} (eq : V → V → Bool) : Type 0 where
  pub symmetric : (u v : V) → eq u v ≡ eq v u
  pub same : (u v w : V) → eq u v ≡ true → eq u w ≡ eq v w

module _ {V N : Type 0} (values : Values V N) (classes : Classes) where
  -- the samples of a set, and those of the entries with its attributes
  abbrev pub find : Pairs V → SampleSets values classes → List (Sample N)
  find attrs [] = []
  find attrs ((key, samples) ∷ sets) =
      if pairs_eq values classes key attrs then samples else find attrs sets

  abbrev pub samples_of : Pairs V → List (Entry values classes) → List (Sample N)
  samples_of attrs [] = []
  samples_of attrs ((key, s) ∷ entries) =
      (if pairs_eq values classes key attrs then s ∷ [] else []) ++ samples_of attrs entries

  module _ (equality : IsEquality values.eq) where
    pairs_eq_symmetric : (p q : Pairs V) → pairs_eq values classes p q ≡ pairs_eq values classes q p
    unfolding pairs_eq
    pairs_eq_symmetric [] [] = refl
    pairs_eq_symmetric [] (y ∷ q) = refl
    pairs_eq_symmetric (x ∷ p) [] = refl
    pairs_eq_symmetric ((k, v) ∷ p) ((l, w) ∷ q) =
        ground
          (arith, text_eq_iff k l, text_eq_iff l k, equality.symmetric v w, pairs_eq_symmetric p q)

    pairs_eq_same :
        (p q r : Pairs V)
        → pairs_eq values classes p q ≡ true
        → pairs_eq values classes p r ≡ pairs_eq values classes q r
    unfolding pairs_eq
    pairs_eq_same [] [] r h = refl
    pairs_eq_same [] (y ∷ q) r h = ground arith
    pairs_eq_same (x ∷ p) [] r h = ground arith
    pairs_eq_same ((k, v) ∷ p) ((l, w) ∷ q) [] h = refl
    pairs_eq_same ((k, v) ∷ p) ((l, w) ∷ q) ((m, u) ∷ r) h =
        ground (arith, text_eq_iff k l, equality.same v w u, pairs_eq_same p q r)

    find-append_sample :
        (attrs key : Pairs V) (s : Sample N) (sets : SampleSets values classes)
        → find attrs (append_sample values classes key s sets)
          ≡ find attrs sets ++ (if pairs_eq values classes key attrs then s ∷ [] else [])
    unfolding append_sample
    find-append_sample attrs key s [] = refl
    find-append_sample attrs key s ((key', samples) ∷ sets) =
        elim (Bool-cases (pairs_eq values classes key' key)) [
          | inl e ↦ elim (Bool-cases (pairs_eq values classes key' attrs)) [
            | inl f ↦ rw (e, f, sym (pairs_eq_same key' key attrs e) ∙ f) refl
            | inr f ↦
                rw (e, f, sym (pairs_eq_same key' key attrs e) ∙ f)
                  (sym (append-eq-nil (find attrs sets)))
          ]
          | inr e ↦ elim (Bool-cases (pairs_eq values classes key' attrs)) [
            | inl f ↦
                let other : pairs_eq values classes key attrs ≡ false =
                  pairs_eq_symmetric key attrs ∙ sym (pairs_eq_same key' attrs key f) ∙ e in
                rw (e, f, other) (sym (append-eq-nil samples))
            | inr f ↦ rw (e, f) (find-append_sample attrs key s sets)
          ]
        ]

    find-group_from :
        (attrs : Pairs V) (entries : List (Entry values classes)) (sets : SampleSets values classes)
        → find attrs (group values classes entries sets)
          ≡ find attrs sets ++ samples_of attrs entries
    unfolding group
    find-group_from attrs [] sets = sym (append-eq-nil (find attrs sets))
    find-group_from attrs ((key, s) ∷ entries) sets =
        find-group_from attrs entries (append_sample values classes key s sets)
        ∙ ap (λ l. l ++ samples_of attrs entries) (find-append_sample attrs key s sets)
        ∙ append_assoc (find attrs sets) _ (samples_of attrs entries)

    -- The set of some attributes holds the samples of all entries with these attributes, of no other, and in
    -- their order. Values are compared by an equality.
    pub find-group :
        (attrs : Pairs V) (entries : List (Entry values classes))
        → find attrs (group values classes entries []) ≡ samples_of attrs entries
    find-group attrs entries = find-group_from attrs entries []

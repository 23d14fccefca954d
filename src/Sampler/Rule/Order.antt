-- ===== src/Sampler/Rule/Order.antt =====
-- The order of rules is a strict order, and a sort by it puts the rules in that order.
use mathlib.Core.List.{Perm}
use mathlib.Core.List.Perm
use opentelemetry_python_con.Common.{
  ◌≡◌, true, false, List, [], ◌∷◌, arith, All, text_lt, text_lt_irrefl, text_lt_trans,
  text_lt_total, Text, Bool-cases, inl, inr,
}
use opentelemetry_python_con.Sampler.Rule.{Rule, rule_lt, insert, sort}

text_not_gt_trans : (r s t : Text) → text_lt s r ≡ false → text_lt t s ≡ false → text_lt t r ≡ false
text_not_gt_trans r s t p q = elim (Bool-cases (text_lt t r)) [
  | inl lt ↦ elim (Bool-cases (text_lt s t)) [
    | inl lt' ↦ cc (text_lt_trans s t r lt' lt)
    | inr ge ↦ let same : s ≡ t = text_lt_total s t ge q in cc
  ]
  | inr ge ↦ ge
]

module _ {Rate : Type 0} where
  pub rule_lt_irrefl : (r : Rule Rate) → rule_lt r r ≡ false
  unfolding rule_lt
  rule_lt_irrefl r = ground (arith, text_lt_irrefl r.rule_name)

  pub rule_lt_trans :
      (r s t : Rule Rate) → rule_lt r s ≡ true → rule_lt s t ≡ true → rule_lt r t ≡ true
  unfolding rule_lt
  rule_lt_trans r s t p q = ground (arith, text_lt_trans r.rule_name s.rule_name t.rule_name)

  -- not greater is transitive as well
  pub not_gt_trans :
      (r s t : Rule Rate) → rule_lt s r ≡ false → rule_lt t s ≡ false → rule_lt t r ≡ false
  unfolding rule_lt
  not_gt_trans r s t p q = ground (arith, text_not_gt_trans r.rule_name s.rule_name t.rule_name)

  -- `r` is at the head of a list in which no rule is less.
  abbrev pub IsLeast : Rule Rate → List (Rule Rate) → Type 0
  IsLeast r rules = All (λ s. rule_lt s r ≡ false) rules

  abbrev pub IsSorted : List (Rule Rate) → Type 0
  IsSorted [] = Unit
  IsSorted (r ∷ rules) = IsLeast r rules × IsSorted rules

  IsLeast-le :
      (q r : Rule Rate) (rules : List (Rule Rate))
      → rule_lt r q ≡ false
      → IsLeast r rules
      → IsLeast q rules
  IsLeast-le q r [] h l = tt
  IsLeast-le q r (s ∷ rules) h l = (not_gt_trans q r s h l.0, IsLeast-le q r rules h l.1)

  IsLeast-insert :
      (q r : Rule Rate) (rules : List (Rule Rate))
      → rule_lt r q ≡ false
      → IsLeast q rules
      → IsLeast q (insert r rules)
  unfolding insert
  IsLeast-insert q r [] h l = (h, tt)
  IsLeast-insert q r (s ∷ rules) h l = elim (Bool-cases (rule_lt s r)) [
    | inl lt ↦ rw lt (l.0, IsLeast-insert q r rules h l.1)
    | inr ge ↦ rw ge (h, l)
  ]

  lt_asymm : (r s : Rule Rate) → rule_lt s r ≡ true → rule_lt r s ≡ false
  lt_asymm r s h = elim (Bool-cases (rule_lt r s)) [
    | inl lt ↦ absurd (ground (arith, rule_lt_trans r s r lt h, rule_lt_irrefl r))
    | inr ge ↦ ge
  ]

  insert-IsSorted :
      (r : Rule Rate) (rules : List (Rule Rate)) → IsSorted rules → IsSorted (insert r rules)
  unfolding insert
  insert-IsSorted r [] h = (tt, tt)
  insert-IsSorted r (s ∷ rules) h = elim (Bool-cases (rule_lt s r)) [
    | inl lt ↦ rw lt (IsLeast-insert s r rules (lt_asymm r s lt) h.0, insert-IsSorted r rules h.1)
    | inr ge ↦ rw ge ((ge, IsLeast-le r s rules ge h.0), h)
  ]

  -- No rule of the sorted list is less than one before it.
  pub sort-IsSorted : (rules : List (Rule Rate)) → IsSorted (sort rules)
  unfolding sort
  sort-IsSorted [] = tt
  sort-IsSorted (r ∷ rules) = insert-IsSorted r (sort rules) (sort-IsSorted rules)

  insert-perm : (r : Rule Rate) (rules : List (Rule Rate)) → Perm (insert r rules) (r ∷ rules)
  unfolding insert
  insert-perm r [] = Perm.refl (r ∷ [])
  insert-perm r (s ∷ rules) = elim (Bool-cases (rule_lt s r)) [
    | inl lt ↦ rw lt (Perm.trans (Perm.cons s (insert-perm r rules)) (Perm.swap r s rules))
    | inr ge ↦ rw ge (Perm.refl (r ∷ s ∷ rules))
  ]

  -- The sorted list holds the same rules, as often.
  pub sort-perm : (rules : List (Rule Rate)) → Perm (sort rules) rules
  unfolding sort
  sort-perm [] = Perm.refl []
  sort-perm (r ∷ rules) = Perm.trans (insert-perm r (sort rules)) (Perm.cons r (sort-perm rules))

  -- `sort` returns the same rules, as often, and none is less than one before it.
  pub sort_lem : (rules : List (Rule Rate)) → IsSorted (sort rules) × Perm (sort rules) rules
  sort_lem rules = (sort-IsSorted rules, sort-perm rules)

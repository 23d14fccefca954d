-- ===== src/Sampler/Cache/Update.antt =====
-- `update_sampling_rules`: the appliers after it.
use mathlib.Core.Path.{subst}
use opentelemetry_python_con.Common.{
  ℕ, ◌≡◌, ◌⊎◌, inl, inr, refl, Bool, true, false, Option, none, some, List, [], ◌∷◌, map, In, All,
  All-at, here, there, arith, Text, Bool-cases, Option-cases, sym, ap, ◌∙◌, if◌then◌else◌,
}
use opentelemetry_python_con.Sampler.Rule.{Rule, rule_eq, sort}
use opentelemetry_python_con.Sampler.Rule.Equal.{rule_eq-fields}
use opentelemetry_python_con.Sampler.Rule.Order.{IsSorted, sort-IsSorted}
use opentelemetry_python_con.Sampler.Applier
use opentelemetry_python_con.Sampler.Applier.{Applier}
use opentelemetry_python_con.Sampler.Cache.{
  Cache, new_appliers, find_applier, keep_unchanged, update_sampling_rules,
}
use opentelemetry_python_con.Sampler.Cache.Choice.{rules}
use opentelemetry_python_con.Sampler.Cache.Keys.{
  SameKey, SameKeys, named, is_supported-named, supported, supported-IsSorted, IsSorted-SameKeys,
}

module _ {Rate : Type 0} where
  pub find_applier-In :
      (name : Text) (old : List (Applier Rate)) {a : Applier Rate}
      → find_applier name old ≡ some a
      → In a old
  unfolding find_applier
  find_applier-In name [] e = absurd (ground arith)
  find_applier-In name (b ∷ old) {a} e = elim (Option-cases (find_applier name old)) [
    | inl missing ↦ let same : b ≡ a = ground arith in subst (λ x. In x (b ∷ old)) same here
    | inr (c, found) ↦
        let same : c ≡ a = ground arith in there (find_applier-In name old (found ∙ ap some same))
  ]

module _ {Rate : Type 0} (rate_eq : Rate → Rate → Bool) (client_id : Text) (now : ℕ)
    (old : List (Applier Rate)) where
  -- The cache had an applier with the rule's name, whose rule is equal, and `a` is that applier.
  abbrev pub Kept : Rule Rate → Applier Rate → Type 0
  Kept r a = (find_applier r.rule_name old ≡ some a) × (rule_eq rate_eq r a.rule ≡ true)

  abbrev pub Changed : Rule Rate → Option (Applier Rate) → Type 0
  Changed r none = Unit
  Changed r (some b) = rule_eq rate_eq r b.rule ≡ false

  -- The cache had no applier with the rule's name and an equal rule, and `a` is new.
  abbrev pub Fresh : Rule Rate → Applier Rate → Type 0
  Fresh r a =
      Changed r (find_applier r.rule_name old) × (a ≡ Applier.init r client_id now none none)

  -- One applier for each rule, in order.
  abbrev pub Carries : List (Rule Rate) → List (Applier Rate) → Type 0
  Carries [] [] = Unit
  Carries [] (a ∷ l) = ⊥
  Carries (r ∷ rs) [] = ⊥
  Carries (r ∷ rs) (a ∷ l) = (Kept r a ⊎ Fresh r a) × Carries rs l

  -- the applier for a rule that is new
  abbrev fresh : Rule Rate → Applier Rate
  fresh r = Applier.init r client_id now none none

  keep-missing :
      (r : Rule Rate)
      → find_applier r.rule_name old ≡ none
      → keep_unchanged rate_eq old (fresh r) ≡ fresh r
  unfolding keep_unchanged Applier.init Applier.init_untargeted
  keep-missing r e = rw (e, keep_unchanged)

  keep-found :
      (r : Rule Rate) {b : Applier Rate}
      → find_applier r.rule_name old ≡ some b
      → keep_unchanged rate_eq old (fresh r) ≡ (if rule_eq rate_eq r b.rule then b else fresh r)
  unfolding keep_unchanged Applier.init Applier.init_untargeted
  keep-found r e = rw (e, keep_unchanged)

  keep_unchanged_cases :
      (r : Rule Rate)
      → Kept r (keep_unchanged rate_eq old (fresh r))
        ⊎ Fresh r (keep_unchanged rate_eq old (fresh r))
  keep_unchanged_cases r = elim (Option-cases (find_applier r.rule_name old)) [
    | inl missing ↦ inr (rw missing tt, keep-missing r missing)
    | inr (b, found) ↦ elim (Bool-cases (rule_eq rate_eq r b.rule)) [
      | inl equal ↦
          let kept : keep_unchanged rate_eq old (fresh r) ≡ b = keep-found r found ∙ rw equal in
          inl (subst (λ x. Kept r x) (sym kept) (found, equal))
      | inr changed ↦ inr (rw found changed, keep-found r found ∙ rw changed)
    ]
  ]

  Carries-new_appliers :
      (rs : List (Rule Rate))
      → Carries (supported rs) (map (keep_unchanged rate_eq old) (new_appliers client_id now rs))
  unfolding supported new_appliers
  Carries-new_appliers [] = tt
  Carries-new_appliers (r ∷ rs) = elim (Bool-cases (named r)) [
    | inl p ↦ rw (is_supported-named r, p) (keep_unchanged_cases r, Carries-new_appliers rs)
    | inr p ↦ rw (is_supported-named r, p) (Carries-new_appliers rs)
  ]

  Kept-SameKey : (r : Rule Rate) (a : Applier Rate) → Kept r a ⊎ Fresh r a → SameKey r a.rule
  unfolding Applier.init Applier.init_untargeted
  Kept-SameKey r a (inl (found, equal)) =
      let (name, priority, size, version) = rule_eq-fields rate_eq r a.rule equal in
      (name, priority, version)
  Kept-SameKey r a (inr (changed, e)) = ground arith

  -- What holds of the appliers of the cache, and of the new ones, holds of all.
  pub Carries-All :
      (P : Applier Rate → Type 0) (Q : Rule Rate → Type 0)
      → All P old
      → ((r : Rule Rate) → Q r → P (Applier.init r client_id now none none))
      → (rs : List (Rule Rate)) (l : List (Applier Rate)) → All Q rs
      → Carries rs l
      → All P l
  Carries-All P Q g new [] [] q h = tt
  Carries-All P Q g new [] (a ∷ l) q h = absurd h
  Carries-All P Q g new (r ∷ rs) [] q h = absurd h
  Carries-All P Q g new (r ∷ rs) (a ∷ l) q (inl (found, equal), h) =
      (All-at P g (find_applier-In r.rule_name old found), Carries-All P Q g new rs l q.1 h)
  Carries-All P Q g new (r ∷ rs) (a ∷ l) q (inr (changed, e), h) =
      (subst P (sym e) (new r q.0), Carries-All P Q g new rs l q.1 h)

  pub Carries-SameKeys :
      (rs : List (Rule Rate)) (l : List (Applier Rate)) → Carries rs l → SameKeys rs l
  Carries-SameKeys [] [] h = tt
  Carries-SameKeys [] (a ∷ l) h = h
  Carries-SameKeys (r ∷ rs) [] h = h
  Carries-SameKeys (r ∷ rs) (a ∷ l) h = (Kept-SameKey r a h.0, Carries-SameKeys rs l h.1)

module _ {Rate : Type 0} (rate_eq : Rate → Rate → Bool) (now : ℕ) (new_rules : List (Rule Rate))
    (c : Cache Rate) where
  -- After an update the cache has one applier for each rule with a name and of version 1, in the order
  -- of priority and name: the applier that it had, with its counts and its reservoir, if its rule is
  -- equal to the new one, and a new applier if not. The time of the update is noted.
  pub update_sampling_rules-Carries :
      Carries rate_eq c.client_id now c.appliers
        (supported (sort new_rules))
        (update_sampling_rules rate_eq now new_rules c).appliers
      × IsSorted (supported (sort new_rules))
      × ((update_sampling_rules rate_eq now new_rules c).last_modified ≡ now)
  unfolding update_sampling_rules
  update_sampling_rules-Carries = (
    Carries-new_appliers rate_eq c.client_id now c.appliers (sort new_rules),
    supported-IsSorted (sort new_rules) (sort-IsSorted new_rules),
    refl,
  )

  pub update_sampling_rules-IsSorted :
      IsSorted (rules (update_sampling_rules rate_eq now new_rules c).appliers)
  update_sampling_rules-IsSorted =
      let (carries, sorted, _) = update_sampling_rules-Carries in
      IsSorted-SameKeys (supported (sort new_rules)) _
        (Carries-SameKeys rate_eq c.client_id now c.appliers (supported (sort new_rules)) _ carries)
        sorted

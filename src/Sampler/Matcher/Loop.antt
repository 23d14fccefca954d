-- ===== src/Sampler/Matcher/Loop.antt =====
-- The loop of `to_regex_pattern` with its two indices writes the parts of the pattern in order.
use mathlib.Core.List.{append_assoc}
use opentelemetry_python_con.Common.{
  ℕ, suc, ◌+◌, ◌≡◌, refl, ap, ◌∙◌, true, false, Option, none, some, List, [], ◌∷◌, ◌++◌, Text,
  arith, take, or_default, drop, length, if◌then◌else◌, Bool-cases, inl, inr, length-append,
  take-append, drop-append,
}
use opentelemetry_python_con.Sampler.Matcher.{
  Part, escaped, is_wildcard, flush, regex_loop, to_regex_pattern, wildcard_part,
}

-- The parts for a pattern, where `lit` is the literal that has begun, if any.
unfoldable pub parts : Option Text → Text → List Part
parts none [] = []
parts (some lit) [] = escaped lit ∷ []
parts none (c ∷ p) =
    let part = wildcard_part c ∷ parts none p in
    let token = parts (some (c ∷ [])) p in if is_wildcard c then part else token
parts (some lit) (c ∷ p) =
    let part = escaped lit ∷ wildcard_part c ∷ parts none p in
    let token = parts (some (lit ++ c ∷ [])) p in if is_wildcard c then part else token

abbrev pub begun : Option Text → List Part
begun none = []
begun (some lit) = escaped lit ∷ []

slice_lem :
    (pre lit rest : Text) {n : ℕ}
    → n ≡ length lit
    → take n (drop (length pre) (pre ++ (lit ++ rest))) ≡ lit
slice_lem pre lit rest e = rw (e, drop-append) (take-append lit rest)

module _ (pattern : Text) (regex : List Part) (i c : ℕ) (rest : Text) where
  regex_loop-wildcard :
      (start : Option ℕ)
      → is_wildcard c ≡ true
      → regex_loop pattern start regex i (c ∷ rest)
        ≡ regex_loop pattern none
            (regex ++ (flush pattern start i ++ wildcard_part c ∷ []))
            (suc i)
            rest
  unfolding regex_loop
  regex_loop-wildcard start w = rw w

  regex_loop-token :
      (start : Option ℕ)
      → is_wildcard c ≡ false
      → regex_loop pattern start regex i (c ∷ rest)
        ≡ regex_loop pattern (some (or_default start i)) regex (suc i) rest
  unfolding regex_loop
  regex_loop-token start w = rw w

  pub parts-wildcard :
      (lit : Option Text)
      → is_wildcard c ≡ true
      → parts lit (c ∷ rest) ≡ begun lit ++ wildcard_part c ∷ parts none rest
  unfolding parts
  parts-wildcard none w = rw w
  parts-wildcard (some l) w = rw w

  pub parts-token :
      (lit : Option Text)
      → is_wildcard c ≡ false
      → parts lit (c ∷ rest) ≡ parts (some (or_default lit [] ++ c ∷ [])) rest
  unfolding parts
  parts-token none w = rw w
  parts-token (some l) w = rw w

-- The literal `lit` stands in the pattern before `rest`, where the loop's two indices say.
data Begun (pattern rest : Text) (i : ℕ) : Option Text → Option ℕ → Type 0 where
  none_begun :
      (pre : Text) → pattern ≡ pre ++ rest → i ≡ length pre → Begun pattern rest i none none
  begun_at :
      (pre lit : Text) (start : ℕ)
      → pattern ≡ pre ++ (lit ++ rest)
      → start ≡ length pre
      → i ≡ length pre + length lit
      → Begun pattern rest i (some lit) (some start)

module _ (pattern rest : Text) (i : ℕ) where
  flush-Begun :
      {lit : Option Text} {start : Option ℕ}
      → Begun pattern rest i lit start
      → flush pattern start i ≡ begun lit
  unfolding flush
  flush-Begun (none_begun pre e f) = refl
  flush-Begun (begun_at pre lit start e f g) =
      rw (e, f) (ap (λ l. escaped l ∷ []) (slice_lem pre lit rest (omega arith)))

module _ (pattern rest : Text) (i c : ℕ) where
  Begun-wildcard :
      {lit : Option Text} {start : Option ℕ}
      → Begun pattern (c ∷ rest) i lit start
      → Begun pattern rest (suc i) none none
  Begun-wildcard (none_begun pre e f) =
      none_begun (pre ++ c ∷ []) (e ∙ simp append_assoc) (omega (arith, length-append pre (c ∷ [])))
  Begun-wildcard (begun_at pre lit start e f g) =
      none_begun (pre ++ (lit ++ c ∷ [])) (e ∙ simp append_assoc)
        (omega (arith, length-append pre (lit ++ c ∷ []), length-append lit (c ∷ [])))

  Begun-token :
      {lit : Option Text} {start : Option ℕ}
      → Begun pattern (c ∷ rest) i lit start
      → Begun pattern rest (suc i) (some (or_default lit [] ++ c ∷ [])) (some (or_default start i))
  Begun-token (none_begun pre e f) = begun_at pre (c ∷ []) i e f (omega arith)
  Begun-token (begun_at pre lit start e f g) =
      begun_at pre (lit ++ c ∷ []) start (e ∙ simp append_assoc) f
        (omega (arith, length-append lit (c ∷ [])))

module _ (pattern : Text) (i : ℕ) (regex : List Part) where
  regex_loop-end :
      {lit : Option Text} {start : Option ℕ}
      → Begun pattern [] i lit start
      → regex_loop pattern start regex i [] ≡ regex ++ parts lit []
  unfolding regex_loop parts flush
  regex_loop-end (none_begun pre e f) = refl
  regex_loop-end (begun_at pre lit start e f g) =
      ap (◌++◌ regex) (flush-Begun pattern [] i (begun_at pre lit start e f g))

regex_loop-parts :
    (pattern rest : Text) (regex : List Part) (i : ℕ) {lit : Option Text} {start : Option ℕ}
    → Begun pattern rest i lit start
    → regex_loop pattern start regex i rest ≡ regex ++ parts lit rest
regex_loop-parts pattern [] regex i b = regex_loop-end pattern i regex b
regex_loop-parts pattern (c ∷ rest) regex i {lit} {start} b = elim (Bool-cases (is_wildcard c)) [
  | inl w ↦
      rw
        (
          regex_loop-wildcard pattern regex i c rest start w,
          parts-wildcard pattern regex i c rest lit w,
          flush-Begun pattern (c ∷ rest) i b,
        )
        (regex_loop-parts pattern rest _ (suc i) (Begun-wildcard pattern rest i c b)
          ∙ simp append_assoc)
  | inr w ↦
      rw (regex_loop-token pattern regex i c rest start w, parts-token pattern regex i c rest lit w)
        (regex_loop-parts pattern rest regex (suc i) (Begun-token pattern rest i c b))
]

pub to_regex_pattern-parts : (pattern : Text) → to_regex_pattern pattern ≡ parts none pattern
unfolding to_regex_pattern
to_regex_pattern-parts pattern = regex_loop-parts pattern pattern [] 0 (none_begun [] refl refl)

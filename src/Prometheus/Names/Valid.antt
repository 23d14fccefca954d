-- ===== src/Prometheus/Names/Valid.antt =====
-- Sanitized names.
use opentelemetry_python_con.Common.{
  ◌≡◌, refl, ap, true, false, not, ◌&&◌, [], ◌∷◌, All, Text, arith, Bool-cases, inl, inr,
}
use opentelemetry_python_con.Prometheus.Sdk.{Classes}
use opentelemetry_python_con.Prometheus.Names.{
  Kind, name, label, stays, replace_rest, sanitize_string,
}

module _ (classes : Classes) (word : classes.is_word b'_' ≡ true)
    (no_digit : classes.is_digit b'_' ≡ false) where
  -- what the patterns ask for: characters of the class, and no digit first
  abbrev pub IsValid : Kind → Text → Type 0
  IsValid kind [] = Unit
  IsValid kind (c ∷ s) =
      (classes.is_digit c ≡ false) × All (λ d. stays classes kind d ≡ true) (c ∷ s)

  stays_underscore : (kind : Kind) → stays classes kind b'_' ≡ true
  unfolding stays
  stays_underscore name = rw word refl
  stays_underscore label = word

  replace_rest-stays :
      (kind : Kind) (s : Text)
      → All (λ d. stays classes kind d ≡ true) (replace_rest classes kind s)
  unfolding replace_rest
  replace_rest-stays kind [] = tt
  replace_rest-stays kind (c ∷ s) = elim (Bool-cases (stays classes kind c)) [
    | inl e ↦ rw e (e, replace_rest-stays kind s)
    | inr e ↦ rw e (stays_underscore kind, replace_rest-stays kind s)
  ]

  sanitize_string-IsValid : (kind : Kind) (s : Text) → IsValid kind (sanitize_string classes s kind)
  unfolding sanitize_string
  sanitize_string-IsValid kind [] = tt
  sanitize_string-IsValid kind (c ∷ s) =
      elim (Bool-cases (stays classes kind c && not (classes.is_digit c))) [
        | inl e ↦ rw e (ground (arith, replace_rest-stays kind s))
        | inr e ↦ rw e (no_digit, (stays_underscore kind, replace_rest-stays kind s))
      ]

  replace_rest-valid :
      (kind : Kind) (s : Text)
      → All (λ d. stays classes kind d ≡ true) s
      → replace_rest classes kind s ≡ s
  unfolding replace_rest
  replace_rest-valid kind [] h = refl
  replace_rest-valid kind (c ∷ s) h = rw h.0 (ap (◌∷◌ c) (replace_rest-valid kind s h.1))

  sanitize_string-valid :
      (kind : Kind) (s : Text) → IsValid kind s → sanitize_string classes s kind ≡ s
  unfolding sanitize_string
  sanitize_string-valid kind [] h = refl
  sanitize_string-valid kind (c ∷ s) h =
      rw (h.0, h.1.0) (ap (◌∷◌ c) (replace_rest-valid kind s h.1.1))

  -- A sanitized name, or label, has no character outside the class of its pattern and no digit first, and
  -- stays as it is when it is sanitized again. The underscore is a word character and no digit.
  pub sanitize_string_lem :
      (kind : Kind) (s : Text)
      → IsValid kind (sanitize_string classes s kind)
        × (sanitize_string classes (sanitize_string classes s kind) kind
            ≡ sanitize_string classes s kind)
  sanitize_string_lem kind s = (
    sanitize_string-IsValid kind s,
    sanitize_string-valid kind (sanitize_string classes s kind) (sanitize_string-IsValid kind s),
  )

-- ===== src/Xray/Hex/Bounds.antt =====
-- A text of `w` characters stands for a number of at most `w` hexadecimal digits.
use mathlib.Core.Option
use mathlib.Core.Path.{subst}
use native.Mathlib.Nat.{mul-le-mul_right, one-le-pow, pow-succ'}
use opentelemetry_python_con.Common.{
  ℕ, zero, suc, ◌+◌, ◌*◌, ◌^◌, ◌≤◌, ◌<◌, ◌≡◌, Bool, true, false, none, some, [], ◌∷◌, Text, length,
  ◌==◌, ◌&&◌, ◌||◌, arith, ◌⊎◌, Bool-cases, Option-cases, inl, inr,
}
use opentelemetry_python_con.Xray.Hex.{
  ℤ, pos, negsuc, negate, hex_value, more_digits, digits, after_prefix, unsigned, signed,
  skip_int_space, is_int_space, int16,
}

hex_value-lt : (c d : ℕ) → hex_value c ≡ some d → d < 16
unfolding hex_value
hex_value-lt c d h = ground arith

one_more_digit : (acc d n p : ℕ) → d < 16 → n < (16 * acc + d + 1) * p → n < (acc + 1) * (16 * p)
one_more_digit acc d n p h k =
    let more : 16 * acc + d + 1 ≤ 16 * (acc + 1) = omega arith in
    grind (arith, mul-le-mul_right p more)

ends_or_separated :
    (acc : ℕ) (u : Bool) (c : ℕ) (t : Text) {n : ℕ}
    → hex_value c ≡ none
    → more_digits acc u (c ∷ t) ≡ some n
    → (acc ≡ n) ⊎ (more_digits acc true t ≡ some n)
unfolding more_digits
ends_or_separated acc u c t e h = ground arith

no_more_digits : (acc n p : ℕ) → 0 < p → acc ≡ n → n < (acc + 1) * (16 * p)
no_more_digits acc n p h e = grind arith

separator : (acc n p : ℕ) → n < (acc + 1) * p → n < (acc + 1) * (16 * p)
separator acc n p h = grind arith

first_digit : (d n p : ℕ) → d < 16 → n < (d + 1) * p → n < 16 * p
first_digit d n p h k =
    let more : d + 1 ≤ 16 = omega arith in grind (arith, mul-le-mul_right p more)

more_digits-lt :
    (acc : ℕ) (u : Bool) (t : Text) {n : ℕ}
    → more_digits acc u t ≡ some n
    → n < (acc + 1) * 16 ^ length t
unfolding more_digits
more_digits-lt acc u [] h = ground arith
more_digits-lt acc u (c ∷ t) {n} h =
    let wide : 16 ^ length (c ∷ t) ≡ 16 * 16 ^ length t = pow-succ' 16 (length t) in
    elim (Option-cases (hex_value c)) [
      | inl e ↦ elim (ends_or_separated acc u c t e h) [
        | inl same ↦
            rw wide
              (no_more_digits acc n (16 ^ length t) (one-le-pow (length t) 16 (omega arith)) same)
        | inr rest ↦ rw wide (separator acc n (16 ^ length t) (more_digits-lt acc true t rest))
      ]
      | inr (d, e) ↦ rw wide (
          one_more_digit acc d n (16 ^ length t) (hex_value-lt c d e)
            (more_digits-lt (16 * acc + d) false t (ground arith)))
    ]

digits-lt : (t : Text) {n : ℕ} → digits t ≡ some n → n < 16 ^ length t
unfolding digits
digits-lt [] h = ground arith
digits-lt (c ∷ t) {n} h = elim (Option-cases (hex_value c)) [
  | inl e ↦ ground arith
  | inr (d, e) ↦
      let wide : 16 ^ length (c ∷ t) ≡ 16 * 16 ^ length t = pow-succ' 16 (length t) in
      rw wide (
        first_digit d n (16 ^ length t) (hex_value-lt c d e)
          (more_digits-lt d false t (ground arith)))
]

widen : (w n : ℕ) → n < 16 ^ w → n < 16 ^ suc w
widen w n h = omega arith

after_prefix-lt : (t : Text) {n : ℕ} → after_prefix t ≡ some n → n < 16 ^ length t
unfolding after_prefix
after_prefix-lt [] h = ground arith
after_prefix-lt (c ∷ t) {n} h = elim (Bool-cases (c == 95)) [
  | inl e ↦ widen (length t) n (digits-lt t (ground arith))
  | inr e ↦ digits-lt (c ∷ t) (ground arith)
]

unsigned-lt : (t : Text) {n : ℕ} → unsigned t ≡ some n → n < 16 ^ length t
unfolding unsigned
unsigned-lt [] h = ground arith
unsigned-lt (c ∷ []) h = digits-lt (c ∷ []) h
unsigned-lt (c ∷ x ∷ t) {n} h = elim (Bool-cases ((c == 48) && ((x == 120) || (x == 88)))) [
  | inl e ↦ widen (suc (length t)) n (widen (length t) n (after_prefix-lt t (ground arith)))
  | inr e ↦ digits-lt (c ∷ x ∷ t) (ground arith)
]

-- A number of at most `w` hexadecimal digits, and a sign.
abbrev pub IsBelow : ℕ → ℤ → Type 0
IsBelow w (pos n) = n < 16 ^ w
IsBelow w (negsuc n) = n < 16 ^ w

negate-IsBelow : (w n : ℕ) → n < 16 ^ w → IsBelow w (negate n)
unfolding negate
negate-IsBelow w zero h = h
negate-IsBelow w (suc n) h = omega arith

pub IsBelow-suc : (w : ℕ) (z : ℤ) → IsBelow w z → IsBelow (suc w) z
IsBelow-suc w (pos n) h = widen w n h
IsBelow-suc w (negsuc n) h = widen w n h

positive-IsBelow : (t : Text) {z : ℤ} → Option.map pos (unsigned t) ≡ some z → IsBelow (length t) z
positive-IsBelow t {z} h = elim (Option-cases (unsigned t)) [
  | inl e ↦ absurd (ground arith)
  | inr (n, e) ↦
      let same : pos n ≡ z = ground arith in
      subst (λ x. IsBelow (length t) x) same (unsigned-lt t e)
]

negative-IsBelow :
    (t : Text) {z : ℤ} → Option.map negate (unsigned t) ≡ some z → IsBelow (length t) z
negative-IsBelow t {z} h = elim (Option-cases (unsigned t)) [
  | inl e ↦ absurd (ground arith)
  | inr (n, e) ↦
      let same : negate n ≡ z = ground arith in
      subst (λ x. IsBelow (length t) x) same (negate-IsBelow (length t) n (unsigned-lt t e))
]

signed-IsBelow : (t : Text) {z : ℤ} → signed t ≡ some z → IsBelow (length t) z
unfolding signed
signed-IsBelow [] h = absurd (ground arith)
signed-IsBelow (c ∷ t) {z} h = elim (Bool-cases (c == 43)) [
  | inl e ↦ IsBelow-suc (length t) z (positive-IsBelow t (ground arith))
  | inr e ↦ elim (Bool-cases (c == 45)) [
    | inl m ↦ IsBelow-suc (length t) z (negative-IsBelow t (ground arith))
    | inr m ↦ positive-IsBelow (c ∷ t) (ground arith)
  ]
]

skipped-IsBelow : (t : Text) {z : ℤ} → signed (skip_int_space t) ≡ some z → IsBelow (length t) z
unfolding skip_int_space
skipped-IsBelow [] h = signed-IsBelow [] h
skipped-IsBelow (c ∷ t) {z} h = elim (Bool-cases (is_int_space c)) [
  | inl e ↦ IsBelow-suc (length t) z (skipped-IsBelow t (ground arith))
  | inr e ↦ signed-IsBelow (c ∷ t) (ground arith)
]

-- What `int(t, 16)` returns has no more digits than the text has characters.
pub int16-IsBelow : (t : Text) {z : ℤ} → int16 t ≡ some z → IsBelow (length t) z
unfolding int16
int16-IsBelow t h = skipped-IsBelow t h

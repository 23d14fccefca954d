-- ===== src/Ottrace/Ids/RoundTrip.antt =====
-- An id that is printed is read back, as far as its last 64 bits go.
use native.Mathlib.Nat.{
  mul-le-mul_right, pow-succ', pow-le-pow_right, mul-add-mod_self_right, mod-eq_of_lt,
}
use mathlib.Core.Path.{subst}
use opentelemetry_python_con.Common.{
  ℕ, zero, ◌+◌, ◌-◌, ◌*◌, ◌/◌, ◌%◌, ◌^◌, ◌≤◌, ◌<◌, ◌≡◌, refl, sym, ap, ◌∙◌, true, some, [], ◌∷◌,
  All, All-drop, length, take, drop, length-append, length-drop, take-append-drop, or_default, Text,
  leb, leb→le, arith, Bool-cases, inl, inr, min,
}
use opentelemetry_python_con.Xray.Hex.{ℤ, pos, hex_value, int16, digit, pad_hex}
use opentelemetry_python_con.Xray.Hex.Digits.{
  IsDigit, hex_value-digit, value, value-append, int16-digits, pad_hex-IsDigit, value-pad_hex_fuel,
  lt-pow,
}
use opentelemetry_python_con.Ottrace.Ids.{
  hex, last, print_id, is_lower_hex, all_lower_hex, valid_extract_id, extract_first_element,
  extract_identifier,
}

shift_digit : (acc d p v : ℕ) → (16 * acc + d) * p + v ≡ acc * (16 * p) + ((16 * 0 + d) * p + v)
shift_digit acc d p v = grind arith

value-shift : (acc : ℕ) (t : Text) → value acc t ≡ acc * 16 ^ length t + value 0 t
unfolding value
value-shift acc [] = omega arith
value-shift acc (c ∷ t) =
    let d = or_default (hex_value c) 0 in
    let wide : 16 ^ length (c ∷ t) ≡ 16 * 16 ^ length t = pow-succ' 16 (length t) in
    value-shift (16 * acc + d) t
    ∙ shift_digit acc d (16 ^ length t) (value 0 t)
    ∙ ap (λ p. acc * p + ((16 * 0 + d) * 16 ^ length t + value 0 t)) (sym wide)
    ∙ ap (λ v. acc * 16 ^ length (c ∷ t) + v) (sym (value-shift (16 * 0 + d) t))

bound_digit : (d p v : ℕ) → d < 16 → v < p → (16 * 0 + d) * p + v < 16 * p
bound_digit d p v h k =
    let more : d + 1 ≤ 16 = omega arith in grind (arith, mul-le-mul_right p more)

value-lt : (t : Text) → All IsDigit t → value 0 t < 16 ^ length t
unfolding value
value-lt [] h = omega arith
value-lt (c ∷ t) ((d, (b, e)), h) =
    let read : hex_value c ≡ some d = ap hex_value e ∙ hex_value-digit d b in
    let wide : 16 ^ length (c ∷ t) ≡ 16 * 16 ^ length t = pow-succ' 16 (length t) in
    rw (wide, value, read, value-shift (16 * 0 + d) t)
      (bound_digit d (16 ^ length t) (value 0 t) b (value-lt t h))

mod_last : (a p b : ℕ) → b < p → (a * p + b) % p ≡ b
mod_last a p b h = mul-add-mod_self_right a p b ∙ mod-eq_of_lt h

-- The last digits stand for the number without the first ones.
value-last : (k : ℕ) (t : Text) → All IsDigit t → value 0 (last k t) ≡ value 0 t % 16 ^ k
unfolding last
value-last k t h = elim (Bool-cases (leb (length t) k)) [
  | inl e ↦
      let none_cut : length t - k ≡ 0 = ground arith in
      let wide : 16 ^ length t ≤ 16 ^ k = pow-le-pow_right (omega arith) (leb→le (length t) k e) in
      ap (λ i. value 0 (drop i t)) none_cut ∙ sym (mod-eq_of_lt (omega (arith, value-lt t h, wide)))
  | inr e ↦
      let i = length t - k in
      let a = take i t in
      let b = drop i t in
      let len : length b ≡ k = length-drop i t ∙ ground arith in
      let small : value 0 b < 16 ^ k =
        subst (λ l. value 0 b < 16 ^ l) len (value-lt b (All-drop IsDigit i t h)) in
      let both : value 0 t ≡ value 0 a * 16 ^ k + value 0 b =
        ap (value 0) (sym (take-append-drop i t))
        ∙ value-append 0 a b
        ∙ value-shift (value 0 a) b
        ∙ ap (λ l. value 0 a * 16 ^ l + value 0 b) len in
      sym (ap (λ v. v % 16 ^ k) both ∙ mod_last (value 0 a) (16 ^ k) (value 0 b) small)
]

all_lower_hex-digits : (t : Text) → All IsDigit t → all_lower_hex t ≡ true
unfolding all_lower_hex is_lower_hex digit
all_lower_hex-digits [] h = refl
all_lower_hex-digits (c ∷ t) ((d, (b, e)), h) = ground (arith, all_lower_hex-digits t h)

length-last : (k : ℕ) (t : Text) → length (last k t) ≡ min k (length t)
unfolding last
length-last k t = length-drop (length t - k) t ∙ omega arith

length-pad_hex_one : (fuel n : ℕ) → 1 ≤ length (pad_hex 1 fuel n)
unfolding pad_hex
length-pad_hex_one fuel n =
    omega (arith, length-append (pad_hex zero fuel (n / 16)) (digit (n % 16) ∷ []))

last-IsDigit : (k : ℕ) (t : Text) → All IsDigit t → All IsDigit (last k t)
unfolding last
last-IsDigit k t h = All-drop IsDigit (length t - k) t h

-- `extract` reads from the header of an id the id without the bits before the last 64, and the default
-- is not used: the pattern of the header has room for at least 16 digits.
pub extract_identifier-print_id :
    (n room : ℕ) (default : ℤ)
    → 16 ≤ room
    → extract_identifier (some (print_id (pos n) ∷ [])) room default ≡ pos (n % 16 ^ 16)
unfolding extract_identifier extract_first_element print_id hex valid_extract_id
extract_identifier-print_id n room default h =
    let t = pad_hex 1 n n in
    let digits : All IsDigit t = pad_hex-IsDigit 1 n n in
    let len : length (last 16 t) ≡ min 16 (length t) = length-last 16 t in
    let some_digit : leb 1 (length (last 16 t)) ≡ true =
      ground (arith, len, length-pad_hex_one n n) in
    let fits : leb (length (last 16 t)) room ≡ true = ground (arith, len) in
    let read : int16 (last 16 t) ≡ some (pos (value 0 (last 16 t))) =
      int16-digits (last 16 t) (last-IsDigit 16 t digits)
        (λ e. absurd (omega (arith, e, len, length-pad_hex_one n n))) in
    rw (some_digit, fits, all_lower_hex-digits (last 16 t) (last-IsDigit 16 t digits), read)
      (ap pos
        (value-last 16 t digits ∙ ap (λ v. v % 16 ^ 16) (value-pad_hex_fuel 1 n n (lt-pow n))))

-- ===== src/Xray/Hex/Digits.antt =====
-- A number that is printed in hexadecimal digits is read back.
use native.Mathlib.Nat.{pow-succ'}
use mathlib.Core.Path.{subst}
use opentelemetry_python_con.Common.{
  ℕ, zero, suc, ◌+◌, ◌*◌, ◌*◌, ◌/◌, ◌%◌, ◌^◌, ◌<◌, ◌≡◌, ◌≢◌, refl, ap, ◌∙◌, false, some, [], ◌∷◌,
  ◌++◌, All, All-append, Text, length, length-append, or_default, ◌==◌, arith, Bool-cases, inl, inr,
}
use opentelemetry_python_con.Words.{is_space}
use opentelemetry_python_con.Xray.Hex.{
  pos, hex_value, is_int_space, more_digits, digits, unsigned, signed, skip_int_space, int16, digit,
  pad_hex,
}

-- A lower-case hexadecimal digit.
abbrev pub IsDigit : ℕ → Type 0
IsDigit c = (d : ℕ) × ((d < 16) × (c ≡ digit d))

pub hex_value-digit : (d : ℕ) → d < 16 → hex_value (digit d) ≡ some d
unfolding hex_value digit
hex_value-digit d h = ground arith

pub is_space-digit : (c : ℕ) → IsDigit c → is_space c ≡ false
unfolding is_space digit
is_space-digit c (d, (h, e)) = ground arith

-- A digit is none of the signs, and neither an `x` nor a separator of the header.
pub digit-other :
    (c : ℕ)
    → IsDigit c
    → ((c == 43) ≡ false)
      × ((c == 45) ≡ false)
      × ((c == 120) ≡ false)
      × ((c == 88) ≡ false)
      × ((c == 59) ≡ false)
      × ((c == 61) ≡ false)
      × (is_int_space c ≡ false)
unfolding digit is_int_space
digit-other c (d, (h, e)) = ground arith

-- the number that digits stand for, after `acc`
unfoldable pub value : ℕ → Text → ℕ
value acc [] = acc
value acc (c ∷ t) = value (16 * acc + or_default (hex_value c) 0) t

pub value-append : (acc : ℕ) (s t : Text) → value acc (s ++ t) ≡ value (value acc s) t
unfolding value
value-append acc [] t = refl
value-append acc (c ∷ s) t = value-append (16 * acc + or_default (hex_value c) 0) s t

more_digits-value :
    (acc : ℕ) (t : Text) → All IsDigit t → more_digits acc false t ≡ some (value acc t)
unfolding more_digits value
more_digits-value acc [] h = refl
more_digits-value acc (c ∷ t) ((d, (b, e)), h) =
    let read : hex_value c ≡ some d = ap hex_value e ∙ hex_value-digit d b in
    rw (read, more_digits) (more_digits-value (16 * acc + d) t h)

digits-value : (c : ℕ) (t : Text) → All IsDigit (c ∷ t) → digits (c ∷ t) ≡ some (value 0 (c ∷ t))
unfolding digits value
digits-value c t ((d, (b, e)), h) =
    let read : hex_value c ≡ some d = ap hex_value e ∙ hex_value-digit d b in
    let start : 0 + d ≡ d = omega arith in rw (read, digits, start) (more_digits-value d t h)

unsigned-value :
    (c : ℕ) (t : Text) → All IsDigit (c ∷ t) → unsigned (c ∷ t) ≡ some (value 0 (c ∷ t))
unfolding unsigned
unsigned-value c [] h = digits-value c [] h
unsigned-value c (x ∷ t) h =
    let (p, m, lower, upper, a, b, sp) = digit-other x h.1.0 in
    ground (arith, digits-value c (x ∷ t) h)

pub int16-value :
    (c : ℕ) (t : Text) → All IsDigit (c ∷ t) → int16 (c ∷ t) ≡ some (pos (value 0 (c ∷ t)))
unfolding int16 skip_int_space signed
int16-value c t h =
    let (plus, minus, _, _, _, _, space) = digit-other c h.0 in
    rw (space, plus, minus, unsigned-value c t h) refl

pub int16-digits : (t : Text) → All IsDigit t → length t ≢ 0 → int16 t ≡ some (pos (value 0 t))
int16-digits [] h k = absurd (k refl)
int16-digits (c ∷ t) h k = int16-value c t h

pub pad_hex-IsDigit : (w fuel n : ℕ) → All IsDigit (pad_hex w fuel n)
unfolding pad_hex
pad_hex-IsDigit zero zero n = tt
pad_hex-IsDigit zero (suc fuel) n = elim (Bool-cases (n == 0)) [
  | inl z ↦ rw (z, All, pad_hex) tt
  | inr p ↦
      rw (p, All, pad_hex)
        (All-append IsDigit (pad_hex zero fuel (n / 16)) (digit (n % 16) ∷ [])
          (pad_hex-IsDigit zero fuel (n / 16)) ((n % 16, (omega arith, refl)), tt))
]
pad_hex-IsDigit (suc w) fuel n =
    All-append IsDigit (pad_hex w fuel (n / 16)) (digit (n % 16) ∷ [])
      (pad_hex-IsDigit w fuel (n / 16)) ((n % 16, (omega arith, refl)), tt)

pad_hex-zero : (fuel : ℕ) → pad_hex 0 fuel 0 ≡ []
unfolding pad_hex
pad_hex-zero zero = refl
pad_hex-zero (suc fuel) = refl

div-lt : (w n : ℕ) → n < 16 ^ suc w → n / 16 < 16 ^ w
div-lt w n h = omega arith

-- A number below `16 ^ w` is printed in `w` digits.
pub length-pad_hex : (w fuel n : ℕ) → n < 16 ^ w → length (pad_hex w fuel n) ≡ w
unfolding pad_hex
length-pad_hex zero fuel n h =
    let z : 0 ≡ n = omega arith in
    subst (λ m. length (pad_hex 0 fuel m) ≡ 0) z (ap length (pad_hex-zero fuel))
length-pad_hex (suc w) fuel n h =
    length-append (pad_hex w fuel (n / 16)) (digit (n % 16) ∷ [])
    ∙ omega (arith, length-pad_hex w fuel (n / 16) (div-lt w n h))

pub value-pad_hex : (w fuel n : ℕ) → n < 16 ^ w → value 0 (pad_hex w fuel n) ≡ n
unfolding pad_hex value
value-pad_hex zero fuel n h =
    let z : 0 ≡ n = omega arith in
    subst (λ m. value 0 (pad_hex 0 fuel m) ≡ m) z (ap (value 0) (pad_hex-zero fuel))
value-pad_hex (suc w) fuel n h =
    rw
      (
        value-append 0 (pad_hex w fuel (n / 16)) (digit (n % 16) ∷ []),
        value-pad_hex w fuel (n / 16) (div-lt w n h),
        hex_value-digit (n % 16) (omega arith),
      )
      (omega arith)

-- The digits beyond `w` are not cut off, as long as the fuel lasts.
pub value-pad_hex_fuel : (w fuel n : ℕ) → n < 16 ^ (w + fuel) → value 0 (pad_hex w fuel n) ≡ n
unfolding pad_hex value
value-pad_hex_fuel zero zero n h = omega arith
value-pad_hex_fuel zero (suc fuel) n h = elim (Bool-cases (n == 0)) [
  | inl z ↦ rw (z, pad_hex) (ground arith)
  | inr p ↦
      rw
        (
          p,
          pad_hex,
          value-append 0 (pad_hex zero fuel (n / 16)) (digit (n % 16) ∷ []),
          value-pad_hex_fuel zero fuel (n / 16)
              (div-lt (0 + fuel) n (subst (λ k. n < 16 ^ k) (omega arith) h)),
          hex_value-digit (n % 16) (omega arith),
        )
        (omega arith)
]
value-pad_hex_fuel (suc w) fuel n h =
    let less : n / 16 < 16 ^ (w + fuel) =
      div-lt (w + fuel) n (subst (λ k. n < 16 ^ k) (omega arith) h) in
    rw
      (
        value-append 0 (pad_hex w fuel (n / 16)) (digit (n % 16) ∷ []),
        value-pad_hex_fuel w fuel (n / 16) less,
        hex_value-digit (n % 16) (omega arith),
      )
      (omega arith)

lt-suc_pow : (n : ℕ) → n < 16 ^ suc n
lt-suc_pow zero = omega arith
lt-suc_pow (suc n) =
    let wide : 16 ^ suc (suc n) ≡ 16 * 16 ^ suc n = pow-succ' 16 (suc n) in
    omega (arith, lt-suc_pow n, wide)

pub lt-pow : (n : ℕ) → n < 16 ^ (1 + n)
lt-pow n = subst (λ k. n < 16 ^ k) (omega arith) (lt-suc_pow n)

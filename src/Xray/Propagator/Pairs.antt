-- ===== src/Xray/Propagator/Pairs.antt =====
-- The pairs of a header, one at a time, and the trace id in its three parts.
use mathlib.Core.Path.{subst}
use opentelemetry_python_con.Common.{
  ℕ, suc, ◌^◌, ◌<◌, ◌≡◌, ◌≢◌, refl, sym, ap, ◌∙◌, Bool, true, false, none, some, List, ◌∷◌, ◌++◌,
  All, All-append, All-map, length, take, drop, get_elem?, length-append, take-append, take-length,
  drop-suc-append, get_elem?-append, Text, text_eq, ◌==◌, if◌then◌else◌, arith,
}
use opentelemetry_python_con.Words.{is_space, split}
use opentelemetry_python_con.Words.Laws.{Without, NoSpace, split-single, split-append, strip-same}
use opentelemetry_python_con.Xray.Hex.{pos, int16, pad_hex}
use opentelemetry_python_con.Xray.Hex.Digits.{
  IsDigit, int16-digits, is_space-digit, digit-other, value, pad_hex-IsDigit, length-pad_hex,
  value-pad_hex,
}
use opentelemetry_python_con.Xray.Header.{
  Properties, trace_id_key, parent_id_key, sampled_flag_key, has_char, validate_trace_id,
  parse_trace_id, validate_sampled_flag, parse_sampled_flag, read_pair, key_and_value, read_pairs,
  key_and_value_delimiter, kv_pair_delimiter, is_sampled, not_sampled,
}

-- The character is no delimiter of the header, and no white space.
pub record Plain (c : ℕ) : Type 0 where
  pub kv : (c == kv_pair_delimiter) ≡ false
  pub key : (c == key_and_value_delimiter) ≡ false
  pub space : is_space c ≡ false

pub digit-Plain : (c : ℕ) → IsDigit c → Plain c
digit-Plain c h =
    let (_, _, _, _, kv, key, _) = digit-other c h in
    record { kv = kv; key = key; space = is_space-digit c h }

module _ (a b : Text) where
  -- a trace id in the header, in three parts
  abbrev pub parts : Text
  parts = 49 ∷ 45 ∷ a ++ 45 ∷ b

  pub parts-Plain : All IsDigit a → All IsDigit b → All Plain parts
  unfolding is_space
  parts-Plain h k = (
    record { kv = refl; key = refl; space = refl },
    (
      record { kv = refl; key = refl; space = refl },
      All-append Plain a (45 ∷ b) (All-map IsDigit Plain a digit-Plain h)
          (record { kv = refl; key = refl; space = refl }, All-map IsDigit Plain b digit-Plain k),
    ),
  )

  second_delimiter : length a ≡ 8 → has_char parts 10 45 ≡ true
  unfolding has_char
  second_delimiter h =
      ap (λ o. elim o [ none ↦ false | some d ↦ d == 45 ])
        (subst (λ i. get_elem? (a ++ 45 ∷ b) i ≡ some 45) h (get_elem?-append a 45 b))

  first_delimiter : has_char parts 1 45 ≡ true
  unfolding has_char
  first_delimiter = refl

  version : has_char parts 0 49 ≡ true
  unfolding has_char
  version = refl

  pub validate_trace_id-parts : length a ≡ 8 → length b ≡ 24 → validate_trace_id parts ≡ true
  unfolding validate_trace_id
  validate_trace_id-parts h k =
      let all : length parts ≡ 35 = omega (arith, length-append a (45 ∷ b)) in
      rw (all, version, first_delimiter, second_delimiter h) refl

  pub parse_trace_id-parts : length a ≡ 8 → length b ≡ 24 → parse_trace_id parts ≡ int16 (a ++ b)
  unfolding parse_trace_id
  parse_trace_id-parts h k =
      let first : take 8 (a ++ 45 ∷ b) ≡ a =
        subst (λ i. take i (a ++ 45 ∷ b) ≡ a) h (take-append a (45 ∷ b)) in
      let rest : drop 9 (a ++ 45 ∷ b) ≡ b =
        subst (λ i. drop (suc i) (a ++ 45 ∷ b) ≡ b) h (drop-suc-append a 45 b) in
      let all : take 24 b ≡ b = subst (λ i. take i b ≡ b) k (take-length b) in
      rw (first, rest, all) refl

-- `key=value`
abbrev pub pair : Text → Text → Text
pair key value = key ++ key_and_value_delimiter ∷ value

pub pair-Without :
    (key value : Text)
    → Without kv_pair_delimiter key
    → All Plain value
    → Without kv_pair_delimiter (pair key value)
pair-Without key value h k =
    All-append (λ c. (c == kv_pair_delimiter) ≡ false) key (key_and_value_delimiter ∷ value) h
      (refl, All-map Plain (λ c. (c == kv_pair_delimiter) ≡ false) value (λ c p. p.kv) k)

pub key_and_value-pair :
    (key value : Text)
    → Without key_and_value_delimiter key
    → NoSpace key
    → All Plain value
    → key_and_value (split key_and_value_delimiter (pair key value)) ≡ some (key, value)
unfolding key_and_value
key_and_value-pair key value h s k =
    rw
      (
        split-append key_and_value_delimiter key value h,
        split-single key_and_value_delimiter value
            (All-map Plain (λ c. (c == key_and_value_delimiter) ≡ false) value (λ c p. p.key) k),
        strip-same key s,
        strip-same value (All-map Plain (λ c. is_space c ≡ false) value (λ c p. p.space) k),
      )
      refl

pub read_pairs-pair :
    (key value : Text) (rest : List Text) (p q : Properties)
    → key_and_value (split key_and_value_delimiter (pair key value)) ≡ some (key, value)
    → read_pair key value p ≡ some q
    → read_pairs (pair key value ∷ rest) p ≡ read_pairs rest q
unfolding read_pairs
read_pairs-pair key value rest p q h k = rw (h, k, read_pairs) refl

pub int16-pad_hex : (w n : ℕ) → w ≢ 0 → n < 16 ^ w → int16 (pad_hex w n n) ≡ some (pos n)
int16-pad_hex w n k h =
    int16-digits (pad_hex w n n) (pad_hex-IsDigit w n n) (λ e. k (sym (length-pad_hex w n n h) ∙ e))
    ∙ ap (λ m. some (pos m)) (value-pad_hex w n n h)

pub read_flag :
    (b : Bool) (p : Properties)
    → read_pair sampled_flag_key (if b then is_sampled else not_sampled) p
      ≡ some (record p { sampled = b })
unfolding read_pair text_eq validate_sampled_flag parse_sampled_flag has_char
read_flag true p = refl
read_flag false p = refl

pub trace_id_key-Without : Without kv_pair_delimiter trace_id_key
trace_id_key-Without = (refl, (refl, (refl, (refl, tt))))

pub trace_id_key-key : Without key_and_value_delimiter trace_id_key
trace_id_key-key = (refl, (refl, (refl, (refl, tt))))

pub trace_id_key-NoSpace : NoSpace trace_id_key
unfolding is_space
trace_id_key-NoSpace = (refl, (refl, (refl, (refl, tt))))

pub parent_id_key-Without : Without kv_pair_delimiter parent_id_key
parent_id_key-Without = (refl, (refl, (refl, (refl, (refl, (refl, tt))))))

pub parent_id_key-key : Without key_and_value_delimiter parent_id_key
parent_id_key-key = (refl, (refl, (refl, (refl, (refl, (refl, tt))))))

pub parent_id_key-NoSpace : NoSpace parent_id_key
unfolding is_space
parent_id_key-NoSpace = (refl, (refl, (refl, (refl, (refl, (refl, tt))))))

pub sampled_flag_key-Without : Without kv_pair_delimiter sampled_flag_key
sampled_flag_key-Without = (refl, (refl, (refl, (refl, (refl, (refl, (refl, tt)))))))

pub sampled_flag_key-key : Without key_and_value_delimiter sampled_flag_key
sampled_flag_key-key = (refl, (refl, (refl, (refl, (refl, (refl, (refl, tt)))))))

pub sampled_flag_key-NoSpace : NoSpace sampled_flag_key
unfolding is_space
sampled_flag_key-NoSpace = (refl, (refl, (refl, (refl, (refl, (refl, (refl, tt)))))))

pub flag-Plain : (b : Bool) → All Plain (if b then is_sampled else not_sampled)
unfolding is_space
flag-Plain true = (record { kv = refl; key = refl; space = refl }, tt)
flag-Plain false = (record { kv = refl; key = refl; space = refl }, tt)

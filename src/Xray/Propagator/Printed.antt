-- ===== src/Xray/Propagator/Printed.antt =====
-- A printed header is read back.
use opentelemetry_python_con.Common.{
  ℕ, ◌^◌, ◌<◌, ◌≡◌, refl, ap, ◌∙◌, some, [], ◌∷◌, ◌++◌, All, All-map, All-take, All-drop, length,
  take, drop, length-take, length-drop, take-append-drop, Text, text_eq, if◌then◌else◌, arith,
}
use opentelemetry_python_con.Words.{split}
use opentelemetry_python_con.Words.Laws.{split-single, split-append}
use opentelemetry_python_con.Xray.Hex.{pos, int16, pad_hex, format_hex}
use opentelemetry_python_con.Xray.Hex.Digits.{IsDigit, pad_hex-IsDigit, length-pad_hex}
use opentelemetry_python_con.Xray.Header.{
  Properties, no_properties, trace_id_key, parent_id_key, sampled_flag_key, parse_trace_id,
  validate_span_id, parse_span_id, read_pair, read_pairs, extract_span_properties,
  kv_pair_delimiter, is_sampled, not_sampled,
}
use opentelemetry_python_con.Xray.Propagator.{print_header, xray_trace_id, join, sampled_bit}
use opentelemetry_python_con.Xray.Propagator.Pairs.{
  Plain, digit-Plain, parts, parts-Plain, validate_trace_id-parts, parse_trace_id-parts, pair,
  pair-Without, key_and_value-pair, read_pairs-pair, int16-pad_hex, read_flag, trace_id_key-Without,
  trace_id_key-key, trace_id_key-NoSpace, parent_id_key-Without, parent_id_key-key,
  parent_id_key-NoSpace, sampled_flag_key-Without, sampled_flag_key-key, sampled_flag_key-NoSpace,
  flag-Plain,
}

module _ (n m : ℕ) (h : n < 16 ^ 32) (k : m < 16 ^ 16) where
  abbrev trace_digits : Text
  trace_digits = pad_hex 32 n n

  abbrev root : Text
  root = parts (take 8 trace_digits) (drop 8 trace_digits)

  root-Plain : All Plain root
  root-Plain =
      parts-Plain (take 8 trace_digits) (drop 8 trace_digits)
        (All-take IsDigit 8 trace_digits (pad_hex-IsDigit 32 n n))
        (All-drop IsDigit 8 trace_digits (pad_hex-IsDigit 32 n n))

  length-first : length (take 8 trace_digits) ≡ 8
  length-first = omega (arith, length-take 8 trace_digits, length-pad_hex 32 n n h)

  length-rest : length (drop 8 trace_digits) ≡ 24
  length-rest = omega (arith, length-drop 8 trace_digits, length-pad_hex 32 n n h)

  parse_trace_id-root : parse_trace_id root ≡ some (pos n)
  parse_trace_id-root =
      parse_trace_id-parts (take 8 trace_digits) (drop 8 trace_digits) length-first length-rest
      ∙ ap int16 (take-append-drop 8 trace_digits)
      ∙ int16-pad_hex 32 n (omega arith) h

  read_root :
      (p : Properties) → read_pair trace_id_key root p ≡ some (record p { trace_id = pos n })
  unfolding read_pair text_eq
  read_root p =
      rw
        (
          validate_trace_id-parts (take 8 trace_digits) (drop 8 trace_digits) length-first
              length-rest,
          parse_trace_id-root,
        )
        refl

  read_parent :
      (p : Properties)
      → read_pair parent_id_key (pad_hex 16 m m) p ≡ some (record p { span_id = pos m })
  unfolding read_pair text_eq validate_span_id parse_span_id
  read_parent p = rw (length-pad_hex 16 m m k, int16-pad_hex 16 m (omega arith) k) refl

module _ (n m flags : ℕ) (h : n < 16 ^ 32) (k : m < 16 ^ 16) where
  abbrev flag : Text
  flag = if sampled_bit flags then is_sampled else not_sampled

  print_header-pairs :
      print_header (pos n) (pos m) flags
      ≡ pair trace_id_key (root n m h k)
        ++ kv_pair_delimiter
          ∷ (pair parent_id_key (pad_hex 16 m m) ++ kv_pair_delimiter ∷ pair sampled_flag_key flag)
  unfolding print_header join xray_trace_id format_hex
  print_header-pairs = refl

  parent-Plain : All Plain (pad_hex 16 m m)
  parent-Plain = All-map IsDigit Plain (pad_hex 16 m m) digit-Plain (pad_hex-IsDigit 16 m m)

  split-print_header :
      split kv_pair_delimiter (print_header (pos n) (pos m) flags)
      ≡ pair trace_id_key (root n m h k)
        ∷ pair parent_id_key (pad_hex 16 m m)
        ∷ pair sampled_flag_key flag
        ∷ []
  split-print_header =
      ap (split kv_pair_delimiter) print_header-pairs
      ∙ split-append kv_pair_delimiter (pair trace_id_key (root n m h k)) _
          (pair-Without trace_id_key (root n m h k) trace_id_key-Without (root-Plain n m h k))
      ∙ ap (◌∷◌ (pair trace_id_key (root n m h k))) (
          split-append kv_pair_delimiter (pair parent_id_key (pad_hex 16 m m)) _
            (pair-Without parent_id_key (pad_hex 16 m m) parent_id_key-Without parent-Plain)
          ∙ ap (◌∷◌ (pair parent_id_key (pad_hex 16 m m))) (
              split-single kv_pair_delimiter (pair sampled_flag_key flag) (
                pair-Without sampled_flag_key flag sampled_flag_key-Without
                  (flag-Plain (sampled_bit flags)))))

  abbrev read_ids : Properties
  read_ids = record no_properties { trace_id = pos n; span_id = pos m }

  -- The header of two ids that fit in their fields is read back, with the flag.
  pub extract_span_properties-print_header :
      extract_span_properties (print_header (pos n) (pos m) flags)
      ≡ some (record { trace_id = pos n; span_id = pos m; sampled = sampled_bit flags })
  unfolding extract_span_properties read_pairs
  extract_span_properties-print_header =
      ap (λ l. read_pairs l no_properties) split-print_header
      ∙ read_pairs-pair trace_id_key (root n m h k)
          (pair parent_id_key (pad_hex 16 m m) ∷ pair sampled_flag_key flag ∷ []) no_properties
          (record no_properties { trace_id = pos n })
          (key_and_value-pair trace_id_key (root n m h k) trace_id_key-key trace_id_key-NoSpace
            (root-Plain n m h k))
          (read_root n m h k no_properties)
      ∙ read_pairs-pair parent_id_key (pad_hex 16 m m) (pair sampled_flag_key flag ∷ [])
          (record no_properties { trace_id = pos n }) read_ids
          (key_and_value-pair parent_id_key (pad_hex 16 m m) parent_id_key-key parent_id_key-NoSpace
            parent-Plain)
          (read_parent n m h k (record no_properties { trace_id = pos n }))
      ∙ read_pairs-pair sampled_flag_key flag [] read_ids
          (record read_ids { sampled = sampled_bit flags })
          (key_and_value-pair sampled_flag_key flag sampled_flag_key-key sampled_flag_key-NoSpace
            (flag-Plain (sampled_bit flags)))
          (read_flag (sampled_bit flags) read_ids)

-- ===== src/Ottrace/Baggage.antt =====
-- The baggage loops of `extract` and `inject` of ot_trace/__init__.py. A baggage is a dict, whose size
-- the code counts in characters. `is_word` says which characters match `\w`, by the tables of Unicode.
pub mod Limits
pub mod Injected
use opentelemetry_python_con.Common.{
  put, ℕ, zero, suc, ◌+◌, ◌-◌, Bool, true, false, not, ◌&&◌, ◌||◌, Option, none, some, List, [],
  ◌∷◌, ◌++◌, length, drop, Text, text, text_eq, ltb, leb, ◌==◌, if◌then◌else◌,
}
use opentelemetry_python_con.Common.{Dict, get}
use opentelemetry_python_con.Sampler.Applier.Matching.{starts_with}

abbrev pub ot_baggage_prefix : Text
ot_baggage_prefix = text "ot-baggage-"

abbrev pub max_baggage_entries : ℕ
max_baggage_entries = 180

abbrev pub max_baggage_bytes_per_entry : ℕ
max_baggage_bytes_per_entry = 4096

abbrev pub max_baggage_total_bytes : ℕ
max_baggage_total_bytes = 8192

-- `len(key) + len(value)`
abbrev pub entry_size : Text → Text → ℕ
entry_size key value = length key + length value

-- the sum over a dict
unfoldable pub size : Dict Text → ℕ
size [] = 0
size ((key, value) ∷ rest) = entry_size key value + size rest

-- the size of the entry that a key has already, or zero
unfoldable pub old_size : Text → Dict Text → ℕ
old_size key baggage = elim (get baggage key) [ none ↦ 0 | some v ↦ entry_size key v ]

-- what one pass of the loop in `extract` does: `break`, or the variables for the next pass
pub data Pass : Type 0 where
  stop_loop : Pass
  next : Dict Text → ℕ → ℕ → Pass

-- an entry that is given, under the name that follows the prefix
unfoldable pub read_entry : Text → Text → Dict Text → ℕ → ℕ → Pass
read_entry key value baggage total entries =
    if leb max_baggage_entries entries
    then stop_loop
    else if ltb max_baggage_bytes_per_entry (entry_size key value)
    then next baggage total (entries + 1)
    else if ltb (max_baggage_total_bytes + old_size key baggage) (total + entry_size key value)
    then stop_loop
    else next (put key value baggage) (total + entry_size key value - old_size key baggage)
        (entries + 1)

unfoldable pub read_key : Text → Option Text → Dict Text → ℕ → ℕ → Pass
read_key key none baggage total entries = next baggage total entries
read_key key (some value) baggage total entries =
    if starts_with ot_baggage_prefix key
    then read_entry (drop 11 key) value baggage total entries
    else next baggage total entries

-- the loop over the keys of the carrier, where `value_of key` is the first element of its values
unfoldable pub extract_loop : (Text → Option Text) → List Text → Dict Text → ℕ → ℕ → Dict Text
extract_loop value_of [] baggage total entries = baggage
extract_loop value_of (key ∷ keys) baggage total entries =
    elim (read_key key (value_of key) baggage total entries) [
      | stop_loop ↦ baggage
      | next baggage' total' entries' ↦ extract_loop value_of keys baggage' total' entries'
    ]

-- the baggage of the context, with what the carrier adds
unfoldable pub extract_baggage : (Text → Option Text) → List Text → Dict Text → Dict Text
extract_baggage value_of keys baggage =
    extract_loop value_of keys baggage (size baggage) (length baggage)

-- What one pass of the loop in `inject` does: `break`, go on, or set a header and go on.
pub data Step : Type 0 where
  break : Step
  skip : Step
  set_header : Step

module _ (is_word : ℕ → Bool) where
  -- `[\w_^`!#$%&'*+.|~]`
  unfoldable pub is_name_char : ℕ → Bool
  is_name_char c =
      is_word c
      || ((c == 95)
          || ((c == 94)
              || ((c == 96)
                  || ((c == 33)
                      || ((leb 35 c && leb c 39)
                          || ((c == 42)
                              || ((c == 43) || ((c == 46) || ((c == 124) || (c == 126))))))))))

  unfoldable pub all_name : Text → Bool
  all_name [] = true
  all_name (c ∷ t) = is_name_char c && all_name t

  -- `_valid_header_name.fullmatch(t) is not None`
  unfoldable pub valid_header_name : Text → Bool
  valid_header_name t = not (length t == 0) && all_name t

  unfoldable pub all_value : Text → Bool
  all_value [] = true
  all_value (c ∷ t) =
      ((c == 9) || ((leb 32 c && leb c 126) || (leb 128 c && leb c 255))) && all_value t

  unfoldable pub valid_header_value : Text → Bool
  valid_header_value t = not (length t == 0) && all_value t

  unfoldable pub inject_entry : Text → Text → ℕ → ℕ → Step
  inject_entry name value total entries =
      if leb max_baggage_entries entries
      then break
      else if ltb max_baggage_bytes_per_entry (entry_size name value)
      then skip
      else if not (valid_header_name name) || not (valid_header_value value)
      then skip
      else if ltb max_baggage_total_bytes (total + entry_size name value)
      then break
      else set_header

  -- the headers that the loop sets, in order
  unfoldable pub inject_loop : Dict Text → ℕ → ℕ → List (Text × Text)
  inject_loop [] total entries = []
  inject_loop ((name, value) ∷ baggage) total entries =
      elim (inject_entry name value total entries) [
        | break ↦ []
        | skip ↦ inject_loop baggage total (entries + 1)
        | set_header ↦
            (ot_baggage_prefix ++ name, value)
            ∷ inject_loop baggage (total + entry_size name value) (entries + 1)
      ]

  unfoldable pub inject_baggage : Dict Text → List (Text × Text)
  inject_baggage baggage = inject_loop baggage 0 0

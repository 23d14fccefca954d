-- ===== src/Ottrace/Tests.antt =====
-- Runs of the OT trace propagator, with contexts that hold a span and a baggage, and carriers that hold
-- one value under each key.
use Prim.Native.Nat.{max}
use opentelemetry_python_con.Common.{
  put, ℕ, ◌≤◌, ◌≡◌, ◌≢◌, refl, Bool, true, false, ◌&&◌, ◌||◌, Option, none, some, List, [], ◌∷◌,
  map, All, length, Text, text, text_eq, text_eq_iff, text_eq_refl, leb, if◌then◌else◌, arith,
  Bool-cases, inl, inr,
}
use opentelemetry_python_con.Common.{Dict, get}
use opentelemetry_python_con.Sampler.Applier.Matching.{starts_with}
use opentelemetry_python_con.Xray.Hex.{pos}
use opentelemetry_python_con.Xray.Api.{SpanContext, Api}
use opentelemetry_python_con.Xray.Api.Ids.{is_id, both_iff}
use opentelemetry_python_con.Ottrace.Baggage.{
  size, old_size, read_entry, read_key, extract_loop, extract_baggage, max_baggage_total_bytes,
  max_baggage_entries, is_name_char, all_name, valid_header_name, all_value, valid_header_value,
  inject_entry, inject_loop, inject_baggage,
}
use opentelemetry_python_con.Ottrace.Baggage.Limits.{extract_baggage-le}
use opentelemetry_python_con.Ottrace.Baggage.Injected.{IsHeaderOf, sent_size, inject_baggage_lem}
use opentelemetry_python_con.Ottrace.Propagator.{Services, extract, inject}
use opentelemetry_python_con.Ottrace.Propagator.RoundTrip.{received, extract-inject_low}

abbrev span_of : ℕ → ℕ → ℕ → SpanContext Unit
span_of n m flags = record {
  trace_id = pos n;
  span_id = pos m;
  is_remote = false;
  trace_flags = flags;
  trace_state = tt;
}

abbrev Ctx : Type 0
Ctx = SpanContext Unit × Dict Text

abbrev baggage : Dict Text
baggage = (text "user", text "ann") ∷ (text "a-b", text "x") ∷ (text "n", []) ∷ []

abbrev api : Api
api = record {
  Context = Ctx;
  TraceState = Unit;
  empty = (span_of 0 0 0, []);
  runtime = (span_of 18446744073709551618 255 1, baggage);
  current = λ c. c.0;
  with_span = λ s c. (s, c.1);
  is_valid = λ t s. is_id 32 t && is_id 16 s;
  current-with_span = λ s c. refl;
  is_valid_iff = both_iff;
}

abbrev find : Text → Dict Text → Option (List Text)
find k [] = none
find k ((j, v) ∷ c) = if text_eq j k then some (v ∷ []) else find k c

find-cons : (c : Dict Text) (k v : Text) → find k ((k, v) ∷ c) ≡ some (v ∷ [])
find-cons c k v = rw (text_eq_refl k) refl

find-other : (c : Dict Text) (k l v : Text) → k ≢ l → find l ((k, v) ∷ c) ≡ find l c
find-other c k l v h = elim (Bool-cases (text_eq k l)) [
  | inl e ↦ absurd (h ((text_eq_iff k l).0 e))
  | inr e ↦ rw e refl
]

abbrev is_word : ℕ → Bool
is_word c = (leb 97 c && leb c 122) || ((leb 65 c && leb c 90) || (leb 48 c && leb c 57))

abbrev services : Services api
services = record {
  no_state = tt;
  get_all = λ c. c.1;
  set_baggage = λ k v c. (c.0, put k v c.1);
  Carrier = Dict Text;
  get = λ c k. find k c;
  keys = λ c. map (λ e. e.0) c;
  set = λ c k v. (k, v) ∷ c;
  is_word = is_word;
  current-set_baggage = λ k v c. refl;
  get-set = find-cons;
  get-set_other = find-other;
}

inject_baggage_example : inject_baggage is_word baggage ≡ (text "ot-baggage-user", text "ann") ∷ []
unfolding inject_baggage inject_loop inject_entry valid_header_name all_name is_name_char
    valid_header_value all_value
inject_baggage_example = refl

extract_baggage_example :
    extract_baggage (λ k. some k) (text "ot-baggage-a" ∷ text "other" ∷ []) baggage
    ≡ (text "user", text "ann")
      ∷ (text "a-b", text "x")
      ∷ (text "n", [])
      ∷ (text "a", text "ot-baggage-a")
      ∷ []
unfolding extract_baggage extract_loop read_key read_entry old_size size put get starts_with text_eq
extract_baggage_example = refl

extract_baggage-le_example :
    (size (extract_baggage (λ k. some k) (text "ot-baggage-a" ∷ []) baggage)
      ≤ max (size baggage) max_baggage_total_bytes)
    × (length (extract_baggage (λ k. some k) (text "ot-baggage-a" ∷ []) baggage)
        ≤ max (length baggage) max_baggage_entries)
extract_baggage-le_example = extract_baggage-le (λ k. some k) (text "ot-baggage-a" ∷ []) baggage

inject_baggage_lem_example :
    All (IsHeaderOf is_word baggage) (inject_baggage is_word baggage)
    × ((sent_size (inject_baggage is_word baggage) ≤ max_baggage_total_bytes)
        × (length (inject_baggage is_word baggage) ≤ max_baggage_entries))
inject_baggage_lem_example = inject_baggage_lem is_word baggage

extract-inject_low_example :
    (extract api services (inject api services [] none) none).0 ≡ received api services 2 255 true
extract-inject_low_example =
    extract-inject_low api services [] none 18446744073709551618 255 refl refl (omega arith)
      (omega arith) none

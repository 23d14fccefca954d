-- ===== src/Agents/Content.antt =====
-- What span_processor.py gathers for the span of an agent from the spans below it.
pub mod Ancestor
pub mod Nearest
pub mod Merged
use opentelemetry_python_con.Common.{
  ℕ, suc, zero, ◌+◌, Bool, true, false, not, ◌&&◌, ◌||◌, Option, none, some, List, [], ◌∷◌, ◌++◌,
  Text, text, text_eq, ltb, length, if◌then◌else◌, Dict, get, put, or_default,
}
use opentelemetry_python_con.Agents.Spans.{or_else}

-- A part of a message: `{"type": "text", "content": ...}`, or any other.
pub data Part : Type 0 where
  text_part : Text → Part
  other_part : Text → Part

-- A normalized message: a dict whose `parts` are a list, or any other.
pub data Message : Type 0 where
  parts_message : Text → List Part → Message
  other_message : Text → Message

unfoldable pub part_eq : Part → Part → Bool
part_eq (text_part s) (text_part t) = text_eq s t
part_eq (other_part s) (other_part t) = text_eq s t
part_eq (text_part s) (other_part t) = false
part_eq (other_part s) (text_part t) = false

unfoldable pub parts_eq : List Part → List Part → Bool
parts_eq [] [] = true
parts_eq (p ∷ ps) (q ∷ qs) = part_eq p q && parts_eq ps qs
parts_eq [] (q ∷ qs) = false
parts_eq (p ∷ ps) [] = false

unfoldable pub message_eq : Message → Message → Bool
message_eq (parts_message role ps) (parts_message role' qs) = text_eq role role' && parts_eq ps qs
message_eq (other_message s) (other_message t) = text_eq s t
message_eq (parts_message role ps) (other_message t) = false
message_eq (other_message s) (parts_message role qs) = false

-- The text that stands for one that is not captured, as the source spells it.
unfoldable pub is_redacted : Part → Bool
is_redacted (text_part t) = text_eq t (text "readacted")
is_redacted (other_part t) = false

unfoldable pub all_redacted : List Part → Bool
all_redacted [] = true
all_redacted (p ∷ ps) = is_redacted p && all_redacted ps

unfoldable pub is_placeholder_message : Message → Bool
is_placeholder_message (parts_message role []) = false
is_placeholder_message (parts_message role (p ∷ ps)) = all_redacted (p ∷ ps)
is_placeholder_message (other_message t) = false

unfoldable pub without_placeholders : List Message → List Message
without_placeholders [] = []
without_placeholders (m ∷ ms) =
    let rest = without_placeholders ms in if is_placeholder_message m then rest else m ∷ rest

unfoldable pub any_real : List Message → Bool
any_real [] = false
any_real (m ∷ ms) = not (is_placeholder_message m) || any_real ms

unfoldable pub has_message : Message → List Message → Bool
has_message m [] = false
has_message m (n ∷ ns) = message_eq m n || has_message m ns

-- `result[idx]`, and `result[idx] = message`, where the index is in range
unfoldable pub placeholder_at : ℕ → List Message → Bool
placeholder_at i [] = false
placeholder_at zero (m ∷ ms) = is_placeholder_message m
placeholder_at (suc i) (m ∷ ms) = placeholder_at i ms

unfoldable pub set_at : ℕ → Message → List Message → List Message
set_at i new [] = []
set_at zero new (m ∷ ms) = new ∷ ms
set_at (suc i) new (m ∷ ms) = m ∷ set_at i new ms

-- One pass of the loop. To assign a message that is equal changes nothing.
unfoldable pub merge_one : Bool → ℕ → Message → List Message → List Message
merge_one sensitive idx new result =
    if ltb idx (length result)
    then (if sensitive && is_placeholder_message new && not (placeholder_at idx result)
        then result
        else set_at idx new result)
    else if sensitive && is_placeholder_message new && (any_real result || has_message new result)
    then result
    else result ++ new ∷ []

unfoldable pub merge_loop : Bool → ℕ → List Message → List Message → List Message
merge_loop sensitive idx [] result = result
merge_loop sensitive idx (new ∷ news) result =
    merge_loop sensitive (idx + 1) news (merge_one sensitive idx new result)

-- the incoming messages, without the placeholders where that leaves any
unfoldable pub kept_messages : Bool → List Message → List Message
kept_messages sensitive incoming =
    if sensitive
    then (elim (without_placeholders incoming) [ [] ↦ incoming | m ∷ ms ↦ m ∷ ms ])
    else incoming

unfoldable pub merge_kept : Bool → List Message → List Message → List Message
merge_kept sensitive [] incoming = incoming
merge_kept sensitive (m ∷ ms) incoming = merge_loop sensitive 0 incoming (m ∷ ms)

unfoldable pub merge_content_sequence : Bool → List Message → List Message → List Message
merge_content_sequence sensitive existing [] = existing
merge_content_sequence sensitive existing (m ∷ ms) =
    merge_kept sensitive existing (kept_messages sensitive (m ∷ ms))

-- An entry of `_agent_content`, and the part of a `ContentPayload` that goes into one.
pub record Content : Type 0 where
  pub input_messages : List Message
  pub output_messages : List Message
  pub system_instructions : List Message
  pub request_model : Option Text

pub record Payload : Type 0 where
  pub input_messages : List Message
  pub output_messages : List Message
  pub system_instructions : List Message

unfoldable pub empty_content : Content
empty_content = record {
  input_messages = [];
  output_messages = [];
  system_instructions = [];
  request_model = none;
}

unfoldable pub has_key : {V : Type 0} → Dict V → Text → Bool
has_key d key = elim (get d key) [ none ↦ false | some v ↦ true ]

-- `self._span_parents.get(current)`
unfoldable pub parent_of : Dict (Option Text) → Text → Option Text
parent_of parents key = elim (get parents key) [ none ↦ none | some parent ↦ parent ]

unfoldable pub is_visited : Text → List Text → Bool
is_visited key [] = false
is_visited key (v ∷ vs) = text_eq key v || is_visited key vs

-- `_find_agent_parent_span_id`: the loop with `visited` and `current`, on fuel; `none` is that there is not
-- enough of it.
unfoldable pub find_loop :
    ℕ → Dict (Option Text) → Dict Content → List Text → Option Text → Option (Option Text)
find_loop fuel parents contents visited none = some none
find_loop fuel parents contents visited (some []) = some none
find_loop zero parents contents visited (some (c ∷ cs)) = none
find_loop (suc fuel) parents contents visited (some (c ∷ cs)) =
    let rest = find_loop fuel parents contents ((c ∷ cs) ∷ visited) (parent_of parents (c ∷ cs)) in
    if is_visited (c ∷ cs) visited
    then some none
    else if has_key contents (c ∷ cs)
    then some (some (c ∷ cs))
    else rest

-- Each pass visits another key of the dict of parents, but for the last.
unfoldable pub find_agent_parent_span_id :
    Dict (Option Text) → Dict Content → Option Text → Option (Option Text)
find_agent_parent_span_id parents contents current =
    find_loop (length parents + 1) parents contents [] current

-- A model that is found is kept where the entry has none.
unfoldable pub new_model : Option Text → Option Text → Option Text
new_model old model = elim (or_else model none) [ none ↦ old | some m ↦ or_else old (some m) ]

-- `_update_agent_aggregate`, for the entry of the agent; `model` is that of the span.
unfoldable pub merge_payload : Bool → Option Text → Payload → Content → Content
merge_payload sensitive model payload entry = record {
  input_messages = merge_content_sequence sensitive entry.input_messages payload.input_messages;
  output_messages = merge_content_sequence sensitive entry.output_messages payload.output_messages;
  system_instructions =
      merge_content_sequence sensitive entry.system_instructions payload.system_instructions;
  request_model = new_model entry.request_model model;
}

unfoldable pub update_agent_aggregate :
    Bool → Dict (Option Text) → Option Text → Option Text → Payload → Dict Content → Dict Content
update_agent_aggregate sensitive parents parent_id model payload contents =
    elim (find_agent_parent_span_id parents contents parent_id) [
      | none ↦ contents
      | some none ↦ contents
      | some (some agent_id) ↦
          put agent_id
            (merge_payload sensitive model payload
              (or_default (get contents agent_id) empty_content))
            contents
    ]

-- ===== src/Xray/Api.antt =====
-- What the X-Ray propagator uses of the OpenTelemetry API, as parameters: span contexts, contexts and
-- carriers.
pub mod Ids
use opentelemetry_python_con.Common.{
  ℕ, ◌^◌, ◌<◌, ◌≡◌, ◌≢◌, ◌↔◌, Bool, true, Option, some, List, [], ◌∷◌, Text,
}
use opentelemetry_python_con.Xray.Hex.{ℤ, pos, negsuc}

-- `SpanContext`, without `is_valid`, which the API computes from the two ids
pub record SpanContext (TraceState : Type 0) : Type 0 where
  pub trace_id : ℤ
  pub span_id : ℤ
  pub is_remote : Bool
  pub trace_flags : ℕ
  pub trace_state : TraceState

-- A positive number of at most `w` hexadecimal digits.
abbrev pub IsId : ℕ → ℤ → Type 0
IsId w (pos n) = (n ≢ 0) × (n < 16 ^ w)
IsId w (negsuc n) = ⊥

-- `current` is the span context of `get_current_span`, which always gives a span; `with_span` sets a
-- span that does not record; `runtime` is the context of the caller's thread. The laws are what the
-- API documents.
pub record Api : Type 1 where
  pub Context : Type 0
  pub TraceState : Type 0
  pub empty : Context
  pub runtime : Context
  pub current : Context → SpanContext TraceState
  pub with_span : SpanContext TraceState → Context → Context
  pub is_valid : ℤ → ℤ → Bool
  pub current-with_span : (s : SpanContext TraceState) (c : Context) → current (with_span s c) ≡ s
  pub is_valid_iff : (t s : ℤ) → (is_valid t s ≡ true) ↔ (IsId 32 t × IsId 16 s)

-- The getter and the setter of a carrier; `dict k v` is the carrier `{k: v}`.
pub record Carriers : Type 1 where
  pub Carrier : Type 0
  pub get : Carrier → Text → Option (List Text)
  pub set : Carrier → Text → Text → Carrier
  pub dict : Text → Text → Carrier
  pub get-set : (c : Carrier) (k v : Text) → get (set c k v) k ≡ some (v ∷ [])
  pub get-dict : (k v : Text) → get (dict k v) k ≡ some (v ∷ [])

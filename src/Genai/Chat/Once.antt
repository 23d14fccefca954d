-- ===== src/Genai/Chat/Once.antt =====
-- The invocation of a chat stream.
use opentelemetry_python_con.Common.{◌≡◌, refl, Option, Text, Bool-cases, inl, inr}
use opentelemetry_python_con.Genai.Invocation.{Api}
use opentelemetry_python_con.Genai.Chat.{Chat, set_output_messages, set_response, cleanup}

module _ {Json : Type 0} (json_loads : Text → Option Json) (json_str : Text → Json)
    {Context Error : Type 0} where
  -- the fields that the response leaves alone
  pub set_response-fields :
      (c : Chat Json Context Error)
      → ((set_response json_loads json_str c).invocation ≡ c.invocation)
        × ((set_response json_loads json_str c).gathered ≡ c.gathered)
  unfolding set_response set_output_messages
  set_response-fields c = elim (Bool-cases c.capture_content) [
    | inl e ↦ rw e (refl, refl)
    | inr e ↦ rw e (refl, refl)
  ]

module _ {Json : Type 0} (json_loads : Text → Option Json) (json_str : Text → Json)
    {Context Error : Type 0} (api : Api Context Error) where
  pub cleanup-gathered :
      (error : Option Error) (c : Chat Json Context Error)
      → (cleanup json_loads json_str api error c).0.gathered ≡ c.gathered
  unfolding cleanup
  cleanup-gathered error c = (set_response-fields json_loads json_str c).1

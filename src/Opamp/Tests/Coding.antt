-- ===== src/Opamp/Tests/Coding.antt =====
-- A concrete encoding of messages, which is decoded.
use opentelemetry_python_con.Common.{
  ℕ, zero, suc, ◌≡◌, refl, Bool, true, false, Option, none, some, [], ◌∷◌, ◌++◌, length, take, drop,
  take-append, drop-append,
}
use opentelemetry_python_con.Opamp.Proto.{Bytes, RemoteConfigStatus, Message, Proto}

abbrev code : Option ℕ → ℕ
code none = 0
code (some n) = suc n

abbrev uncode : ℕ → Option ℕ
uncode zero = none
uncode (suc n) = some n

abbrev bit : Bool → ℕ
bit false = 0
bit true = 1

abbrev unbit : ℕ → Bool
unbit zero = false
unbit (suc n) = true

abbrev code_status : Option RemoteConfigStatus → Bytes
code_status none = []
code_status (some s) =
    s.status ∷ length s.last_remote_config_hash ∷ s.last_remote_config_hash ++ s.error_message

abbrev uncode_status : Bytes → Option RemoteConfigStatus
uncode_status [] = none
uncode_status (n ∷ []) = none
uncode_status (n ∷ k ∷ t) =
    some (record { last_remote_config_hash = take k t; status = n; error_message = drop k t })

abbrev encode : Message ℕ ℕ → Bytes
encode m =
    m.sequence_num
      ∷ m.capabilities
      ∷ code m.agent_description
      ∷ code m.effective_config
      ∷ bit m.agent_disconnect
      ∷ length m.instance_uid
      ∷ m.instance_uid
    ++ code_status m.remote_config_status

abbrev decode : Bytes → Option (Message ℕ ℕ)
decode (n ∷ c ∷ d ∷ e ∷ b ∷ k ∷ t) = some (record {
  instance_uid = take k t;
  sequence_num = n;
  capabilities = c;
  agent_description = uncode d;
  remote_config_status = uncode_status (drop k t);
  effective_config = uncode e;
  agent_disconnect = unbit b;
})
decode other = none

uncode-code : (o : Option ℕ) → uncode (code o) ≡ o
uncode-code none = refl
uncode-code (some n) = refl

unbit-bit : (b : Bool) → unbit (bit b) ≡ b
unbit-bit false = refl
unbit-bit true = refl

uncode_status-code_status : (o : Option RemoteConfigStatus) → uncode_status (code_status o) ≡ o
uncode_status-code_status none = refl
uncode_status-code_status (some s) =
    rw
      (
        take-append s.last_remote_config_hash s.error_message,
        drop-append s.last_remote_config_hash s.error_message,
      )
      refl

pub decode-encode : (m : Message ℕ ℕ) → decode (encode m) ≡ some m
decode-encode m =
    rw
      (
        take-append m.instance_uid (code_status m.remote_config_status),
        drop-append m.instance_uid (code_status m.remote_config_status),
        uncode-code m.agent_description,
        uncode-code m.effective_config,
        unbit-bit m.agent_disconnect,
        uncode_status-code_status m.remote_config_status,
      )
      refl

abbrev pub proto : Proto
proto = record {
  Description = ℕ;
  Config = ℕ;
  encode = encode;
  decode = decode;
  decode-encode = decode-encode;
}

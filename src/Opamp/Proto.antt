-- ===== src/Opamp/Proto.antt =====
-- The protocol messages of OpAMP that the client builds, with the generated encoder and decoder as
-- parameters.
use opentelemetry_python_con.Common.{ℕ, ◌≡◌, Bool, Option, some, Text}

-- Bytes are numbers below 256.
abbrev pub Bytes : Type 0
Bytes = Text

pub record RemoteConfigStatus : Type 0 where
  pub last_remote_config_hash : Bytes
  pub status : ℕ
  pub error_message : Text

-- `AgentToServer`
pub record Message (Description Config : Type 0) : Type 0 where
  pub instance_uid : Bytes
  pub sequence_num : ℕ
  pub capabilities : ℕ
  pub agent_description : Option Description
  pub remote_config_status : Option RemoteConfigStatus
  pub effective_config : Option Config
  pub agent_disconnect : Bool

-- `encode` is `SerializeToString`, and `decode` is `ParseFromString`, which may fail. What is encoded is
-- decoded, as the documentation of protocol buffers says.
pub record Proto : Type 1 where
  pub Description : Type 0
  pub Config : Type 0
  pub encode : Message Description Config → Bytes
  pub decode : Bytes → Option (Message Description Config)
  pub decode-encode : (m : Message Description Config) → decode (encode m) ≡ some m

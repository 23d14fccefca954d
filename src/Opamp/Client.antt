-- ===== src/Opamp/Client.antt =====
-- `OpAMPClient` of client.py, with the messages that messages.py builds. `send`, which gives the bytes to
-- the transport, is an event of the agent. The lock makes `prepare_message` one step.
pub mod Status
pub mod Prepare
use opentelemetry_python_con.Common.{
  ℕ, ◌+◌, Bool, true, false, not, ◌&&◌, ◌||◌, Option, none, some, Text, text_eq, ◌==◌,
  if◌then◌else◌,
}
use opentelemetry_python_con.Opamp.Proto.{Bytes, RemoteConfigStatus, Message, Proto}

pub record Client (Description Config : Type 0) : Type 0 where
  pub instance_uid : Bytes
  pub sequence_num : ℕ
  pub capabilities : ℕ
  pub agent_description : Description
  pub remote_config_status : Option RemoteConfigStatus
  pub effective_config : Option Config

-- a message, or bytes that encode one
pub data Payload (Description Config : Type 0) : Type 0 where
  message : Message Description Config → Payload Description Config
  encoded : Bytes → Payload Description Config

-- `not status or status.last_remote_config_hash != ... or ...`
unfoldable pub status_changed : Option RemoteConfigStatus → Bytes → ℕ → Text → Bool
status_changed none hash status error_message = true
status_changed (some s) hash status error_message =
    not (text_eq s.last_remote_config_hash hash)
    || (not (s.status == status) || not (text_eq s.error_message error_message))

module _ {Description Config : Type 0} where
  unfoldable pub build_heartbeat_message : Client Description Config → Message Description Config
  build_heartbeat_message c = record {
    instance_uid = c.instance_uid;
    sequence_num = c.sequence_num;
    capabilities = c.capabilities;
    agent_description = none;
    remote_config_status = none;
    effective_config = none;
    agent_disconnect = false;
  }

  unfoldable pub build_agent_disconnect_message :
      Client Description Config → Message Description Config
  build_agent_disconnect_message c = record (build_heartbeat_message c) { agent_disconnect = true }

  unfoldable pub build_remote_config_status_response_message :
      RemoteConfigStatus → Client Description Config → Message Description Config
  build_remote_config_status_response_message s c = record (build_heartbeat_message c) {
    remote_config_status = some s;
  }

  unfoldable pub build_full_state_message : Client Description Config → Message Description Config
  build_full_state_message c = record {
    instance_uid = c.instance_uid;
    sequence_num = c.sequence_num;
    capabilities = c.capabilities;
    agent_description = some c.agent_description;
    remote_config_status = c.remote_config_status;
    effective_config = c.effective_config;
    agent_disconnect = false;
  }

  -- with the message that `build_effective_config_message` built
  unfoldable pub update_effective_config :
      Config → Client Description Config → Client Description Config
  update_effective_config config c = record c { effective_config = some config }

  unfoldable pub update_remote_config_status :
      Bytes
      → ℕ
      → Text
      → Client Description Config
      → Option RemoteConfigStatus × Client Description Config
  update_remote_config_status hash status error_message c =
      let s : RemoteConfigStatus = record {
        last_remote_config_hash = hash;
        status = status;
        error_message = error_message;
      } in
      if status_changed c.remote_config_status hash status error_message
      then (some s, record c { remote_config_status = some s })
      else (none, c)

-- the message of a payload, or `none` where decoding fails
unfoldable pub content :
    (proto : Proto)
    → Payload proto.Description proto.Config
    → Option (Message proto.Description proto.Config)
content proto (message m) = some m
content proto (encoded b) = proto.decode b

unfoldable pub prepare_message :
    (proto : Proto)
    → Payload proto.Description proto.Config
    → Client proto.Description proto.Config
    → Option Bytes × Client proto.Description proto.Config
prepare_message proto payload c = elim (content proto payload) [
  | none ↦ (none, c)
  | some m ↦ (
    some (proto.encode (record m { instance_uid = c.instance_uid; sequence_num = c.sequence_num })),
    record c { sequence_num = c.sequence_num + 1 },
  )
]

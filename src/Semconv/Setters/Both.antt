-- ===== src/Semconv/Setters/Both.antt =====
-- The mode for both conventions.
use opentelemetry_python_con.Common.{Option, Text, Dict}
use opentelemetry_python_con.Semconv.Modes.{Mode}
use opentelemetry_python_con.Semconv.Setters.{
  Values, set_http_status_code, set_http_url, set_http_scheme, set_http_flavor_version,
  set_http_user_agent, set_http_host_client, set_http_net_peer_name_client,
  set_http_peer_port_client, set_http_network_protocol_version, set_http_net_host,
  set_http_net_host_port, set_http_peer_port_server, set_http_net_peer_name_server, set_db_system,
  set_db_name, set_db_operation, set_messaging_destination, set_messaging_conversation_id,
  set_http_target, set_http_host_server, set_http_peer_ip_server, set_db_statement, set_db_user,
  set_db_redis_database_index, set_messaging_operation, set_messaging_temp_destination,
  set_net_transport,
}

-- A call of one of the functions, but for `_set_http_method`, which sets the original method before both.
pub data Call (V : Type 0) : Type 0 where
  http_status_code : V → Call V
  http_url : V → Call V
  http_scheme : V → Call V
  http_flavor_version : V → Call V
  http_user_agent : V → Call V
  http_host_client : V → Call V
  http_net_peer_name_client : V → Call V
  http_peer_port_client : V → Call V
  http_network_protocol_version : V → Call V
  http_net_host : V → Call V
  http_net_host_port : V → Call V
  http_peer_port_server : V → Call V
  http_net_peer_name_server : V → Call V
  db_system : V → Call V
  db_name : V → Call V
  db_operation : V → Call V
  messaging_destination : V → Call V
  messaging_conversation_id : V → Call V
  http_target : V → Option V → Option V → Call V
  http_host_server : V → Call V
  http_peer_ip_server : V → Call V
  db_statement : Option V → Call V
  db_user : V → Call V
  db_redis_database_index : Option V → Call V
  messaging_operation : Text → Call V
  messaging_temp_destination : Option V → Call V
  net_transport : V → V → Call V

module _ {V : Type 0} (values : Values V) where
  unfoldable pub call : Call V → Mode → Dict V → Dict V
  call (http_status_code a) = set_http_status_code values a
  call (http_url a) = set_http_url values a
  call (http_scheme a) = set_http_scheme values a
  call (http_flavor_version a) = set_http_flavor_version values a
  call (http_user_agent a) = set_http_user_agent values a
  call (http_host_client a) = set_http_host_client values a
  call (http_net_peer_name_client a) = set_http_net_peer_name_client values a
  call (http_peer_port_client a) = set_http_peer_port_client values a
  call (http_network_protocol_version a) = set_http_network_protocol_version values a
  call (http_net_host a) = set_http_net_host values a
  call (http_net_host_port a) = set_http_net_host_port values a
  call (http_peer_port_server a) = set_http_peer_port_server values a
  call (http_net_peer_name_server a) = set_http_net_peer_name_server values a
  call (db_system a) = set_db_system values a
  call (db_name a) = set_db_name values a
  call (db_operation a) = set_db_operation values a
  call (messaging_destination a) = set_messaging_destination values a
  call (messaging_conversation_id a) = set_messaging_conversation_id values a
  call (http_target a b c) = set_http_target values a b c
  call (http_host_server a) = set_http_host_server values a
  call (http_peer_ip_server a) = set_http_peer_ip_server values a
  call (db_statement a) = set_db_statement values a
  call (db_user a) = set_db_user values a
  call (db_redis_database_index a) = set_db_redis_database_index values a
  call (messaging_operation a) = set_messaging_operation values a
  call (messaging_temp_destination a) = set_messaging_temp_destination values a
  call (net_transport a b) = set_net_transport values a b

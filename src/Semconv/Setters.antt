-- ===== src/Semconv/Setters.antt =====
-- The functions of _semconv.py that set an attribute by the mode. The names of the attributes and the values
-- are parameters.
pub mod Both
use opentelemetry_python_con.Common.{
  Bool, true, false, not, ◌&&◌, Option, none, some, Text, text_eq, Dict, get, put, if◌then◌else◌,
}
use opentelemetry_python_con.Words.{strip}
use opentelemetry_python_con.Semconv.Modes.{Mode, report_old, report_new}

-- The constants of the semantic conventions that the code names.
pub data Name : Type 0 where
  http_status_code : Name
  http_response_status_code : Name
  http_url : Name
  url_full : Name
  http_scheme : Name
  url_scheme : Name
  http_flavor : Name
  network_protocol_version : Name
  http_user_agent : Name
  user_agent_original : Name
  http_host : Name
  server_address : Name
  net_peer_name : Name
  net_peer_port : Name
  server_port : Name
  net_host_name : Name
  net_host_port : Name
  client_port : Name
  client_address : Name
  db_system : Name
  db_system_name : Name
  db_name : Name
  db_namespace : Name
  db_operation : Name
  db_operation_name : Name
  messaging_destination : Name
  messaging_destination_name : Name
  messaging_conversation_id : Name
  messaging_message_conversation_id : Name
  http_method : Name
  http_request_method : Name
  http_request_method_original : Name
  http_target : Name
  url_path : Name
  url_query : Name
  net_peer_ip : Name
  db_statement : Name
  db_query_text : Name
  db_user : Name
  db_redis_database_index : Name
  messaging_operation : Name
  messaging_operation_type : Name
  messaging_temp_destination : Name
  messaging_destination_temporary : Name
  net_transport : Name
  network_transport : Name
  error_type : Name
  http_server_name : Name
  http_route : Name

-- What Python does with values: their truth, `int`, and values of other types; and the constants' names,
-- with those of the two operations that a message may have.
pub record Values (V : Type 0) : Type 0 where
  pub is_true : V → Bool
  pub to_int : V → Option V
  pub of_text : Text → V
  pub name : Name → Text
  pub publish : Text
  pub send : Text

module _ {V : Type 0} (values : Values V) where
  unfoldable pub set_string_attribute : Name → V → Dict V → Dict V
  set_string_attribute key value result =
      if values.is_true value then put (values.name key) value result else result

  -- `none` of `int` is a `ValueError` or a `TypeError`.
  unfoldable pub set_int_attribute : Name → V → Dict V → Dict V
  set_int_attribute key value result =
      if values.is_true value
      then elim (values.to_int value) [ none ↦ result | some n ↦ put (values.name key) n result ]
      else result

  -- The code that most of the functions have: under the old name, then under the new one.
  unfoldable pub set_string : Name → Name → V → Mode → Dict V → Dict V
  set_string old new value mode result =
      let result' = if report_old mode then set_string_attribute old value result else result in
      if report_new mode then set_string_attribute new value result' else result'

  unfoldable pub set_int : Name → Name → V → Mode → Dict V → Dict V
  set_int old new value mode result =
      let result' = if report_old mode then set_int_attribute old value result else result in
      if report_new mode then set_int_attribute new value result' else result'

  -- under a name that the new conventions do not have
  unfoldable pub set_old : (Dict V → Dict V) → Mode → Dict V → Dict V
  set_old set mode result = if report_old mode then set result else result

  unfoldable pub set_new : (Dict V → Dict V) → Mode → Dict V → Dict V
  set_new set mode result = if report_new mode then set result else result

  unfoldable pub set_http_status_code : V → Mode → Dict V → Dict V
  set_http_status_code = set_int http_status_code http_response_status_code

  unfoldable pub set_http_url : V → Mode → Dict V → Dict V
  set_http_url = set_string http_url url_full

  unfoldable pub set_http_scheme : V → Mode → Dict V → Dict V
  set_http_scheme = set_string http_scheme url_scheme

  unfoldable pub set_http_flavor_version : V → Mode → Dict V → Dict V
  set_http_flavor_version = set_string http_flavor network_protocol_version

  unfoldable pub set_http_user_agent : V → Mode → Dict V → Dict V
  set_http_user_agent = set_string http_user_agent user_agent_original

  unfoldable pub set_http_host_client : V → Mode → Dict V → Dict V
  set_http_host_client = set_string http_host server_address

  unfoldable pub set_http_net_peer_name_client : V → Mode → Dict V → Dict V
  set_http_net_peer_name_client = set_string net_peer_name server_address

  unfoldable pub set_http_peer_port_client : V → Mode → Dict V → Dict V
  set_http_peer_port_client = set_int net_peer_port server_port

  unfoldable pub set_http_network_protocol_version : V → Mode → Dict V → Dict V
  set_http_network_protocol_version = set_string http_flavor network_protocol_version

  unfoldable pub set_http_net_host : V → Mode → Dict V → Dict V
  set_http_net_host = set_string net_host_name server_address

  unfoldable pub set_http_net_host_port : V → Mode → Dict V → Dict V
  set_http_net_host_port = set_int net_host_port server_port

  unfoldable pub set_http_peer_port_server : V → Mode → Dict V → Dict V
  set_http_peer_port_server = set_int net_peer_port client_port

  unfoldable pub set_http_net_peer_name_server : V → Mode → Dict V → Dict V
  set_http_net_peer_name_server = set_string net_peer_name client_address

  unfoldable pub set_db_system : V → Mode → Dict V → Dict V
  set_db_system = set_string db_system db_system_name

  unfoldable pub set_db_name : V → Mode → Dict V → Dict V
  set_db_name = set_string db_name db_namespace

  unfoldable pub set_db_operation : V → Mode → Dict V → Dict V
  set_db_operation = set_string db_operation db_operation_name

  unfoldable pub set_messaging_destination : V → Mode → Dict V → Dict V
  set_messaging_destination = set_string messaging_destination messaging_destination_name

  unfoldable pub set_messaging_conversation_id : V → Mode → Dict V → Dict V
  set_messaging_conversation_id =
      set_string messaging_conversation_id messaging_message_conversation_id

  unfoldable pub set_http_method : Text → Text → Mode → Dict V → Dict V
  set_http_method original normalized mode result =
      let original' = strip original in
      let normalized' = strip normalized in
      let result' =
        if not (text_eq original' normalized') && report_new mode
        then set_string_attribute http_request_method_original (values.of_text original') result
        else result in
      set_string http_method http_request_method (values.of_text normalized') mode result'

  unfoldable pub set_optional : Name → Option V → Dict V → Dict V
  set_optional key none result = result
  set_optional key (some value) result = set_string_attribute key value result

  -- with the path and the query, if they are there
  unfoldable pub set_http_target : V → Option V → Option V → Mode → Dict V → Dict V
  set_http_target target path query mode result = set_new (set_optional url_query query) mode (
      set_new (set_optional url_path path) mode
        (set_old (set_string_attribute http_target target) mode result))

  -- `if not result.get(key)`
  unfoldable pub set_if_missing : Name → V → Dict V → Dict V
  set_if_missing key value result = elim (get result (values.name key)) [
    | none ↦ set_string_attribute key value result
    | some v ↦ if values.is_true v then result else set_string_attribute key value result
  ]

  unfoldable pub set_http_host_server : V → Mode → Dict V → Dict V
  set_http_host_server host mode result =
      set_new (set_if_missing server_address host) mode
        (set_old (set_string_attribute http_host host) mode result)

  unfoldable pub set_http_peer_ip_server : V → Mode → Dict V → Dict V
  set_http_peer_ip_server ip mode result =
      set_new (set_if_missing client_address ip) mode
        (set_old (set_string_attribute net_peer_ip ip) mode result)

  -- `result[old] = value` and `result[new] = value`, if there is a value
  unfoldable pub set_value : Name → Name → Option V → Mode → Dict V → Dict V
  set_value old new none mode result = result
  set_value old new (some value) mode result =
      set_new (put (values.name new) value) mode (set_old (put (values.name old) value) mode result)

  unfoldable pub set_db_statement : Option V → Mode → Dict V → Dict V
  set_db_statement = set_value db_statement db_query_text

  unfoldable pub set_db_user : V → Mode → Dict V → Dict V
  set_db_user user = set_old (set_string_attribute db_user user)

  -- an index is an `int`
  unfoldable pub set_db_redis_database_index : Option V → Mode → Dict V → Dict V
  set_db_redis_database_index none mode result = result
  set_db_redis_database_index (some index) mode result =
      set_old (put (values.name db_redis_database_index) index) mode result

  unfoldable pub set_messaging_operation : Text → Mode → Dict V → Dict V
  set_messaging_operation operation mode result =
      let new_operation = if text_eq operation values.publish then values.send else operation in
      set_new (set_string_attribute messaging_operation_type (values.of_text new_operation)) mode
        (set_old (set_string_attribute messaging_operation (values.of_text operation)) mode result)

  unfoldable pub set_messaging_temp_destination : Option V → Mode → Dict V → Dict V
  set_messaging_temp_destination =
      set_value messaging_temp_destination messaging_destination_temporary

  unfoldable pub set_net_transport : V → V → Mode → Dict V → Dict V
  set_net_transport old_transport new_transport mode result =
      set_new (set_string_attribute network_transport new_transport) mode
        (set_old (set_string_attribute net_transport old_transport) mode result)

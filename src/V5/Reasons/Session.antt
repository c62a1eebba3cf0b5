-- ===== src/V5/Reasons/Session.antt =====
-- The reason codes of CONNACK, DISCONNECT and AUTH (src/v5/codec/packet/connack.rs, disconnect.rs,
-- auth.rs).
use ntex_mqtt.Base.{ℕ, List, [], ◌∷◌}

pub data AuthReasonCode : Type 0 where
  success continue_auth re_auth : AuthReasonCode

unfoldable pub auth_bits : AuthReasonCode → ℕ
auth_bits success = 0
auth_bits continue_auth = 24
auth_bits re_auth = 25

unfoldable pub auth_codes : List (ℕ × AuthReasonCode)
auth_codes =
    (0, AuthReasonCode.success)
    ∷ (24, AuthReasonCode.continue_auth)
    ∷ (25, AuthReasonCode.re_auth)
    ∷ []

pub data ConnectAckReason : Type 0 where
  success unspecified_error malformed_packet protocol_error : ConnectAckReason
  implementation_specific_error unsupported_protocol_version : ConnectAckReason
  client_identifier_not_valid bad_user_name_or_password not_authorized : ConnectAckReason
  server_unavailable server_busy banned bad_authentication_method : ConnectAckReason
  topic_name_invalid packet_too_large quota_exceeded : ConnectAckReason
  payload_format_invalid retain_not_supported qos_not_supported : ConnectAckReason
  use_another_server server_moved connection_rate_exceeded : ConnectAckReason

unfoldable pub connect_ack_bits : ConnectAckReason → ℕ
connect_ack_bits success = 0
connect_ack_bits unspecified_error = 128
connect_ack_bits malformed_packet = 129
connect_ack_bits protocol_error = 130
connect_ack_bits implementation_specific_error = 131
connect_ack_bits unsupported_protocol_version = 132
connect_ack_bits client_identifier_not_valid = 133
connect_ack_bits bad_user_name_or_password = 134
connect_ack_bits not_authorized = 135
connect_ack_bits server_unavailable = 136
connect_ack_bits server_busy = 137
connect_ack_bits banned = 138
connect_ack_bits bad_authentication_method = 140
connect_ack_bits topic_name_invalid = 144
connect_ack_bits packet_too_large = 149
connect_ack_bits quota_exceeded = 151
connect_ack_bits payload_format_invalid = 153
connect_ack_bits retain_not_supported = 154
connect_ack_bits qos_not_supported = 155
connect_ack_bits use_another_server = 156
connect_ack_bits server_moved = 157
connect_ack_bits connection_rate_exceeded = 159

unfoldable pub connect_ack_codes : List (ℕ × ConnectAckReason)
connect_ack_codes =
    (0, ConnectAckReason.success)
    ∷ (128, ConnectAckReason.unspecified_error)
    ∷ (129, ConnectAckReason.malformed_packet)
    ∷ (130, ConnectAckReason.protocol_error)
    ∷ (131, ConnectAckReason.implementation_specific_error)
    ∷ (132, ConnectAckReason.unsupported_protocol_version)
    ∷ (133, ConnectAckReason.client_identifier_not_valid)
    ∷ (134, ConnectAckReason.bad_user_name_or_password)
    ∷ (135, ConnectAckReason.not_authorized)
    ∷ (136, ConnectAckReason.server_unavailable)
    ∷ (137, ConnectAckReason.server_busy)
    ∷ (138, ConnectAckReason.banned)
    ∷ (140, ConnectAckReason.bad_authentication_method)
    ∷ (144, ConnectAckReason.topic_name_invalid)
    ∷ (149, ConnectAckReason.packet_too_large)
    ∷ (151, ConnectAckReason.quota_exceeded)
    ∷ (153, ConnectAckReason.payload_format_invalid)
    ∷ (154, ConnectAckReason.retain_not_supported)
    ∷ (155, ConnectAckReason.qos_not_supported)
    ∷ (156, ConnectAckReason.use_another_server)
    ∷ (157, ConnectAckReason.server_moved)
    ∷ (159, ConnectAckReason.connection_rate_exceeded)
    ∷ []

pub data DisconnectReasonCode : Type 0 where
  normal_disconnection disconnect_with_will_message unspecified_error : DisconnectReasonCode
  malformed_packet protocol_error implementation_specific_error : DisconnectReasonCode
  not_authorized server_busy server_shutting_down : DisconnectReasonCode
  bad_authentication_method keep_alive_timeout session_taken_over : DisconnectReasonCode
  topic_filter_invalid topic_name_invalid receive_maximum_exceeded : DisconnectReasonCode
  topic_alias_invalid packet_too_large message_rate_too_high : DisconnectReasonCode
  quota_exceeded administrative_action payload_format_invalid : DisconnectReasonCode
  retain_not_supported qos_not_supported use_another_server server_moved : DisconnectReasonCode
  shared_subscription_not_supported connection_rate_exceeded : DisconnectReasonCode
  maximum_connect_time subscription_identifiers_not_supported : DisconnectReasonCode
  wildcard_subscriptions_not_supported : DisconnectReasonCode

unfoldable pub disconnect_bits : DisconnectReasonCode → ℕ
disconnect_bits normal_disconnection = 0
disconnect_bits disconnect_with_will_message = 4
disconnect_bits unspecified_error = 128
disconnect_bits malformed_packet = 129
disconnect_bits protocol_error = 130
disconnect_bits implementation_specific_error = 131
disconnect_bits not_authorized = 135
disconnect_bits server_busy = 137
disconnect_bits server_shutting_down = 139
disconnect_bits bad_authentication_method = 140
disconnect_bits keep_alive_timeout = 141
disconnect_bits session_taken_over = 142
disconnect_bits topic_filter_invalid = 143
disconnect_bits topic_name_invalid = 144
disconnect_bits receive_maximum_exceeded = 147
disconnect_bits topic_alias_invalid = 148
disconnect_bits packet_too_large = 149
disconnect_bits message_rate_too_high = 150
disconnect_bits quota_exceeded = 151
disconnect_bits administrative_action = 152
disconnect_bits payload_format_invalid = 153
disconnect_bits retain_not_supported = 154
disconnect_bits qos_not_supported = 155
disconnect_bits use_another_server = 156
disconnect_bits server_moved = 157
disconnect_bits shared_subscription_not_supported = 158
disconnect_bits connection_rate_exceeded = 159
disconnect_bits maximum_connect_time = 160
disconnect_bits subscription_identifiers_not_supported = 161
disconnect_bits wildcard_subscriptions_not_supported = 162

unfoldable pub disconnect_codes : List (ℕ × DisconnectReasonCode)
disconnect_codes =
    (0, DisconnectReasonCode.normal_disconnection)
    ∷ (4, DisconnectReasonCode.disconnect_with_will_message)
    ∷ (128, DisconnectReasonCode.unspecified_error)
    ∷ (129, DisconnectReasonCode.malformed_packet)
    ∷ (130, DisconnectReasonCode.protocol_error)
    ∷ (131, DisconnectReasonCode.implementation_specific_error)
    ∷ (135, DisconnectReasonCode.not_authorized)
    ∷ (137, DisconnectReasonCode.server_busy)
    ∷ (139, DisconnectReasonCode.server_shutting_down)
    ∷ (140, DisconnectReasonCode.bad_authentication_method)
    ∷ (141, DisconnectReasonCode.keep_alive_timeout)
    ∷ (142, DisconnectReasonCode.session_taken_over)
    ∷ (143, DisconnectReasonCode.topic_filter_invalid)
    ∷ (144, DisconnectReasonCode.topic_name_invalid)
    ∷ (147, DisconnectReasonCode.receive_maximum_exceeded)
    ∷ (148, DisconnectReasonCode.topic_alias_invalid)
    ∷ (149, DisconnectReasonCode.packet_too_large)
    ∷ (150, DisconnectReasonCode.message_rate_too_high)
    ∷ (151, DisconnectReasonCode.quota_exceeded)
    ∷ (152, DisconnectReasonCode.administrative_action)
    ∷ (153, DisconnectReasonCode.payload_format_invalid)
    ∷ (154, DisconnectReasonCode.retain_not_supported)
    ∷ (155, DisconnectReasonCode.qos_not_supported)
    ∷ (156, DisconnectReasonCode.use_another_server)
    ∷ (157, DisconnectReasonCode.server_moved)
    ∷ (158, DisconnectReasonCode.shared_subscription_not_supported)
    ∷ (159, DisconnectReasonCode.connection_rate_exceeded)
    ∷ (160, DisconnectReasonCode.maximum_connect_time)
    ∷ (161, DisconnectReasonCode.subscription_identifiers_not_supported)
    ∷ (162, DisconnectReasonCode.wildcard_subscriptions_not_supported)
    ∷ []

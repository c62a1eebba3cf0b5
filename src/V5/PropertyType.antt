-- ===== src/V5/PropertyType.antt =====
-- The module `property_type` of src/v5/codec/packet/mod.rs: the identifiers of properties.
use ntex_mqtt.Base.{ℕ}

abbrev pub utf8_payload : ℕ
utf8_payload = 0x01

abbrev pub msg_expiry_int : ℕ
msg_expiry_int = 0x02

abbrev pub content_type : ℕ
content_type = 0x03

abbrev pub resp_topic : ℕ
resp_topic = 0x08

abbrev pub corr_data : ℕ
corr_data = 0x09

abbrev pub sub_id : ℕ
sub_id = 0x0b

abbrev pub sess_expiry_int : ℕ
sess_expiry_int = 0x11

abbrev pub assnd_client_id : ℕ
assnd_client_id = 0x12

abbrev pub server_ka : ℕ
server_ka = 0x13

abbrev pub auth_method : ℕ
auth_method = 0x15

abbrev pub auth_data : ℕ
auth_data = 0x16

abbrev pub req_prob_info : ℕ
req_prob_info = 0x17

abbrev pub will_delay_int : ℕ
will_delay_int = 0x18

abbrev pub req_resp_info : ℕ
req_resp_info = 0x19

abbrev pub resp_info : ℕ
resp_info = 0x1a

abbrev pub server_ref : ℕ
server_ref = 0x1c

abbrev pub reason_string : ℕ
reason_string = 0x1f

abbrev pub receive_max : ℕ
receive_max = 0x21

abbrev pub topic_alias_max : ℕ
topic_alias_max = 0x22

abbrev pub topic_alias : ℕ
topic_alias = 0x23

abbrev pub max_qos : ℕ
max_qos = 0x24

abbrev pub retain_avail : ℕ
retain_avail = 0x25

abbrev pub user : ℕ
user = 0x26

abbrev pub max_packet_size : ℕ
max_packet_size = 0x27

abbrev pub wildcard_sub_avail : ℕ
wildcard_sub_avail = 0x28

abbrev pub sub_ids_avail : ℕ
sub_ids_avail = 0x29

abbrev pub shared_sub_avail : ℕ
shared_sub_avail = 0x2a

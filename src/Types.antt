-- ===== src/Types.antt =====
-- Constants and small types that both protocol versions share (src/types.rs).
-- `bitflags` values are their bits: `from_bits` refuses a bit that no flag names, and `contains`
-- asks for all bits of a flag.
pub mod PacketType
pub mod Flags
use ntex_mqtt.Base.{ℕ, Bool, List, [], ◌∷◌, ◌==◌, if◌then◌else◌, bit_and, Result, ok, err, panic}
use ntex_mqtt.Wire.{DecodeError, malformed_packet}

abbrev pub mqtt : List ℕ
mqtt = b'M' ∷ b'Q' ∷ b'T' ∷ b'T' ∷ []

abbrev pub mqtt_level_3 : ℕ
mqtt_level_3 = 4

abbrev pub mqtt_level_5 : ℕ
mqtt_level_5 = 5

abbrev pub max_packet_size : ℕ
max_packet_size = 0xfff_ffff

pub data QoS : Type 0 where
  at_most_once at_least_once exactly_once : QoS

-- `u8::from` and `TryFrom<u8>`, as `prim_enum!` generates them.
abbrev pub qos_bits : QoS → ℕ
qos_bits at_most_once = 0
qos_bits at_least_once = 1
qos_bits exactly_once = 2

abbrev pub qos_from : ℕ → Result DecodeError QoS
qos_from v =
    if v == 0
    then ok at_most_once
    else if v == 1
    then ok at_least_once
    else if v == 2
    then ok exactly_once
    else err malformed_packet

abbrev pub is_at_most_once : QoS → Bool
is_at_most_once at_most_once = Bool.true
is_at_most_once _ = Bool.false

-- `ConnectFlags` and `ConnectAckFlags`.
abbrev pub contains : ℕ → ℕ → Bool
contains flags flag = bit_and flags flag == flag

abbrev pub username_flag : ℕ
username_flag = 0b1000_0000

abbrev pub password_flag : ℕ
password_flag = 0b0100_0000

abbrev pub will_retain_flag : ℕ
will_retain_flag = 0b0010_0000

abbrev pub will_qos_flag : ℕ
will_qos_flag = 0b0001_1000

abbrev pub will_flag : ℕ
will_flag = 0b0000_0100

abbrev pub clean_start_flag : ℕ
clean_start_flag = 0b0000_0010

abbrev pub session_present_flag : ℕ
session_present_flag = 0b0000_0001

-- The bits that no `ConnectFlags`, or no `ConnectAckFlags`, names.
abbrev pub connect_reserved_bits : ℕ
connect_reserved_bits = 0b0000_0001

abbrev pub connect_ack_reserved_bits : ℕ
connect_ack_reserved_bits = 0b1111_1110

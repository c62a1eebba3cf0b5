-- ===== src/Types/PacketType.antt =====
-- The module `packet_type` of src/types.rs: the first byte of each packet.
use ntex_mqtt.Base.{ℕ}

abbrev pub connect : ℕ
connect = 0b0001_0000

abbrev pub connack : ℕ
connack = 0b0010_0000

abbrev pub publish_start : ℕ
publish_start = 0b0011_0000

abbrev pub publish_end : ℕ
publish_end = 0b0011_1111

abbrev pub puback : ℕ
puback = 0b0100_0000

abbrev pub pubrec : ℕ
pubrec = 0b0101_0000

abbrev pub pubrel : ℕ
pubrel = 0b0110_0010

abbrev pub pubcomp : ℕ
pubcomp = 0b0111_0000

abbrev pub subscribe : ℕ
subscribe = 0b1000_0010

abbrev pub suback : ℕ
suback = 0b1001_0000

abbrev pub unsubscribe : ℕ
unsubscribe = 0b1010_0010

abbrev pub unsuback : ℕ
unsuback = 0b1011_0000

abbrev pub pingreq : ℕ
pingreq = 0b1100_0000

abbrev pub pingresp : ℕ
pingresp = 0b1101_0000

abbrev pub disconnect : ℕ
disconnect = 0b1110_0000

abbrev pub auth : ℕ
auth = 0b1111_0000

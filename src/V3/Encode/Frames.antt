-- ===== src/V3/Encode/Frames.antt =====
-- The frame that `encode` writes: a first byte, the remaining length, the content.
use ntex_mqtt.Base.{
  Bool, true, false, ◌*◌, ◌^◌, refl, bit_or, ℕ, ◌+◌, ◌≤◌, ◌≡◌, ap, ◌∙◌, List, [], ◌∷◌, ◌++◌, length,
  length-append, ok, arith,
}
use ntex_mqtt.Wire.{write_variable_length}
use ntex_mqtt.Wire.Frames.{IsFrame, header-IsFrame, no_content}
use ntex_mqtt.Wire.Varint.{varint_size, cursor-write_variable_length}
use ntex_mqtt.Types
use ntex_mqtt.Types.{QoS, qos_bits}
use ntex_mqtt.Types.Flags.{bool_bit}
use ntex_mqtt.V3.Packet.{Packet, packet_type}
use ntex_mqtt.V3.Encode.{encode, publish_first_byte, get_encoded_size}
use ntex_mqtt.V3.Encode.Sizes.{first_byte, content, content-Writes}

-- An `encode` that succeeds.
pub encode-IsFrame :
    (p : Packet)
    → (encode p (get_encoded_size p)).result ≡ ok tt
    → IsFrame (encode p (get_encoded_size p)).bytes (first_byte p) (get_encoded_size p) (content p)
unfolding encode content packet_type get_encoded_size
encode-IsFrame (Packet.connect c) h =
    header-IsFrame Types.PacketType.connect _ (content (Packet.connect c)) h
encode-IsFrame (Packet.connect_ack a) h =
    header-IsFrame Types.PacketType.connack _ (content (Packet.connect_ack a)) h
encode-IsFrame (Packet.publish p) h =
    header-IsFrame (publish_first_byte p) _ (content (Packet.publish p)) h
encode-IsFrame (Packet.publish_ack id) h =
    header-IsFrame Types.PacketType.puback _ (content (Packet.publish_ack id)) h
encode-IsFrame (Packet.publish_received id) h =
    header-IsFrame Types.PacketType.pubrec _ (content (Packet.publish_received id)) h
encode-IsFrame (Packet.publish_release id) h =
    header-IsFrame Types.PacketType.pubrel _ (content (Packet.publish_release id)) h
encode-IsFrame (Packet.publish_complete id) h =
    header-IsFrame Types.PacketType.pubcomp _ (content (Packet.publish_complete id)) h
encode-IsFrame (Packet.subscribe id fs) h =
    header-IsFrame Types.PacketType.subscribe _ (content (Packet.subscribe id fs)) h
encode-IsFrame (Packet.subscribe_ack id st) h =
    header-IsFrame Types.PacketType.suback _ (content (Packet.subscribe_ack id st)) h
encode-IsFrame (Packet.unsubscribe id fs) h =
    header-IsFrame Types.PacketType.unsubscribe _ (content (Packet.unsubscribe id fs)) h
encode-IsFrame (Packet.unsubscribe_ack id) h =
    header-IsFrame Types.PacketType.unsuback _ (content (Packet.unsubscribe_ack id)) h
encode-IsFrame Packet.ping_request h = no_content Types.PacketType.pingreq
encode-IsFrame Packet.ping_response h = no_content Types.PacketType.pingresp
encode-IsFrame Packet.disconnect h = no_content Types.PacketType.disconnect

-- The first byte by the tables of the specification, section 2.2: the type in the upper half, and
-- for PUBLISH the flags DUP, QoS and RETAIN in the lower.
abbrev pub type_and_flags : Packet → ℕ
type_and_flags (Packet.publish p) =
    0x30 + 8 * bool_bit p.dup + 2 * qos_bits p.qos + bool_bit p.retain
type_and_flags (Packet.connect c) = 0x10
type_and_flags (Packet.connect_ack a) = 0x20
type_and_flags (Packet.publish_ack id) = 0x40
type_and_flags (Packet.publish_received id) = 0x50
type_and_flags (Packet.publish_release id) = 0x62
type_and_flags (Packet.publish_complete id) = 0x70
type_and_flags (Packet.subscribe id fs) = 0x82
type_and_flags (Packet.subscribe_ack id st) = 0x90
type_and_flags (Packet.unsubscribe id fs) = 0xA2
type_and_flags (Packet.unsubscribe_ack id) = 0xB0
type_and_flags Packet.ping_request = 0xC0
type_and_flags Packet.ping_response = 0xD0
type_and_flags Packet.disconnect = 0xE0

publish_first_byte-flags :
    (dup retain : Bool) (qos : QoS)
    → bit_or
        (bit_or (bit_or Types.PacketType.publish_start (qos_bits qos * 2)) (bool_bit dup * 2 ^ 3))
        (bool_bit retain)
      ≡ 0x30 + 8 * bool_bit dup + 2 * qos_bits qos + bool_bit retain
publish_first_byte-flags true true QoS.at_most_once = refl
publish_first_byte-flags true true QoS.at_least_once = refl
publish_first_byte-flags true true QoS.exactly_once = refl
publish_first_byte-flags true false QoS.at_most_once = refl
publish_first_byte-flags true false QoS.at_least_once = refl
publish_first_byte-flags true false QoS.exactly_once = refl
publish_first_byte-flags false true QoS.at_most_once = refl
publish_first_byte-flags false true QoS.at_least_once = refl
publish_first_byte-flags false true QoS.exactly_once = refl
publish_first_byte-flags false false QoS.at_most_once = refl
publish_first_byte-flags false false QoS.at_least_once = refl
publish_first_byte-flags false false QoS.exactly_once = refl

first_byte-type_and_flags : (p : Packet) → first_byte p ≡ type_and_flags p
unfolding packet_type
first_byte-type_and_flags (Packet.publish p) = publish_first_byte-flags p.dup p.retain p.qos
first_byte-type_and_flags (Packet.connect c) = refl
first_byte-type_and_flags (Packet.connect_ack a) = refl
first_byte-type_and_flags (Packet.publish_ack id) = refl
first_byte-type_and_flags (Packet.publish_received id) = refl
first_byte-type_and_flags (Packet.publish_release id) = refl
first_byte-type_and_flags (Packet.publish_complete id) = refl
first_byte-type_and_flags (Packet.subscribe id fs) = refl
first_byte-type_and_flags (Packet.subscribe_ack id st) = refl
first_byte-type_and_flags (Packet.unsubscribe id fs) = refl
first_byte-type_and_flags (Packet.unsubscribe_ack id) = refl
first_byte-type_and_flags Packet.ping_request = refl
first_byte-type_and_flags Packet.ping_response = refl
first_byte-type_and_flags Packet.disconnect = refl

-- A whole frame: the first byte of the packet, the remaining length, which is what
-- `get_encoded_size` computes and within the protocol's limit, and as many bytes as it says.
pub record IsExact (p : Packet) (bytes : List ℕ) : Type 0 where
  pub body : List ℕ
  pub layout :
      bytes ≡ type_and_flags p ∷ ((write_variable_length (get_encoded_size p)).bytes ++ body)
  pub exact : length body ≡ get_encoded_size p
  pub fits : get_encoded_size p ≤ 268_435_455
  pub total : length bytes ≡ 1 + varint_size (get_encoded_size p) + get_encoded_size p

-- Whenever `encode` succeeds with the size that `get_encoded_size` computes, it writes the first
-- byte that the specification gives the packet, that size, which is at most 268435455,
-- as `write_variable_length` writes it, in as few bytes as it takes, and then exactly that many
-- bytes, and no others.
pub encode-IsExact :
    (p : Packet)
    → (encode p (get_encoded_size p)).result ≡ ok tt
    → IsExact p (encode p (get_encoded_size p)).bytes
encode-IsExact p h =
    let frame = encode-IsFrame p h in
    let n : ℕ = get_encoded_size p in
    record {
      body = (content p).bytes;
      layout = rw (← first_byte-type_and_flags p) frame.layout;
      exact = content-Writes p frame.body_ok;
      fits = frame.fits;
      total =
          ap (λ (l : List ℕ). length l) frame.layout
          ∙ omega (
            arith,
            length-append (write_variable_length n).bytes (content p).bytes,
            (cursor-write_variable_length n [] frame.fits).1,
            content-Writes p frame.body_ok,
          );
    }

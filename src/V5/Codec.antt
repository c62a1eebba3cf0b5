-- ===== src/V5/Codec.antt =====
-- The codec of MQTT 5: frames out of a stream of bytes, and into it (src/v5/codec/codec.rs).
-- `reserve` only makes room in the buffer, and is left out. The flags are the bits of a `u8`.
pub mod Frames
pub mod Limits
pub mod RoundTrip
pub mod Outbound
pub mod ProblemInfo
use mathlib.Core.Option.{Option, none, some}
use ntex_mqtt.Base.{
  ℕ, ◌+◌, ◌-◌, ◌%◌, ◌^◌, Bool, true, false, not, ◌&&◌, List, [], ◌∷◌, ltb, ◌==◌, if◌then◌else◌,
  length, take, drop, Result, ok, err, panic, bit_or, bit_and,
}
use ntex_mqtt.Wire.{
  DecodeError, max_size_exceeded, decode_variable_length, Writer, fail, over_max_packet_size,
}
use ntex_mqtt.Types.{contains, max_packet_size}
use ntex_mqtt.V5.Packet.{Packet, Ack, StatusAck}
use ntex_mqtt.V5.Decode.{decode_packet}
use ntex_mqtt.V5.Encode

-- `FixedHeader` (src/types.rs).
pub record FixedHeader : Type 0 where
  pub first_byte : ℕ
  pub remaining_length : ℕ

pub data DecodeState : Type 0 where
  frame_header : DecodeState
  frame : FixedHeader → DecodeState

pub record Codec : Type 0 where
  pub state : DecodeState
  pub max_in_size : ℕ
  pub max_out_size : ℕ
  pub flags : ℕ

-- `CodecFlags`.
abbrev pub no_problem_info : ℕ
no_problem_info = 0b0000_0001

abbrev no_retain : ℕ
no_retain = 0b0000_0010

abbrev no_sub_ids : ℕ
no_sub_ids = 0b0000_1000

-- `CodecFlags::set`.
abbrev pub set_flag : ℕ → ℕ → Bool → ℕ
set_flag flags flag true = bit_or flags flag
set_flag flags flag false = bit_and flags (0xff - flag)

abbrev pub new : Codec
new = record { state = frame_header; max_in_size = 0; max_out_size = 0; flags = 0 }

abbrev set_max_inbound_size : Codec → ℕ → Codec
set_max_inbound_size c size = record c { max_in_size = size }

-- Five bytes are kept for the fixed header.
abbrev pub set_max_outbound_size : Codec → ℕ → Codec
set_max_outbound_size c size = record c { max_out_size = if ltb 5 size then size - 5 else size }

abbrev pub retain_available : Codec → Bool
retain_available c = not (contains c.flags no_retain)

abbrev sub_ids_available : Codec → Bool
sub_ids_available c = not (contains c.flags no_sub_ids)

abbrev set_retain_available : Codec → Bool → Codec
set_retain_available c val = record c { flags = set_flag c.flags no_retain (not val) }

abbrev set_sub_ids_available : Codec → Bool → Codec
set_sub_ids_available c val = record c { flags = set_flag c.flags no_sub_ids (not val) }

-- What a call of `decode` answers, and the codec and the buffer that it leaves.
pub record Decoded : Type 0 where
  pub answer : Result DecodeError (Option (Packet × ℕ))
  pub codec : Codec
  pub rest : List ℕ

-- The flags once a packet has been read.
abbrev pub note_connect : Packet → ℕ → ℕ
note_connect (Packet.connect p) flags = set_flag flags no_problem_info (not p.request_problem_info)
note_connect _ flags = flags

module _ (utf8 : List ℕ → Bool) where
  -- The arm `DecodeState::Frame`. When the packet is malformed the state stays as it is.
  unfoldable pub packet_answer : Codec → ℕ → List ℕ → Result DecodeError Packet → Decoded
  packet_answer c n rest (ok packet) = record {
    answer = ok (some (packet, n));
    codec = record c { state = frame_header; flags = note_connect packet c.flags };
    rest = rest;
  }
  packet_answer c n rest (err e) = record { answer = err e; codec = c; rest = rest }
  packet_answer c n rest panic = record { answer = panic; codec = c; rest = rest }

  unfoldable pub decode_frame : Codec → FixedHeader → List ℕ → Decoded
  unfolding packet_answer
  decode_frame c fixed src =
      if ltb (length src) fixed.remaining_length
      then (record { answer = ok none; codec = c; rest = src })
      else packet_answer c fixed.remaining_length (drop fixed.remaining_length src)
          (decode_packet utf8 (take fixed.remaining_length src) fixed.first_byte)

  -- The arm `DecodeState::FrameHeader` behind `decode_variable_length`. Once the header is read the
  -- loop goes on with the other arm.
  unfoldable pub header_answer : Codec → List ℕ → ℕ → Result DecodeError (Option (ℕ × ℕ)) → Decoded
  unfolding decode_frame
  header_answer c src first_byte (err e) = record { answer = err e; codec = c; rest = src }
  header_answer c src first_byte panic = record { answer = panic; codec = c; rest = src }
  header_answer c src first_byte (ok none) = record { answer = ok none; codec = c; rest = src }
  header_answer c src first_byte (ok (some (remaining_length, consumed))) =
      let fixed : FixedHeader = record {
        first_byte = first_byte;
        remaining_length = remaining_length;
      } in
      let c' = record c { state = frame fixed } in
      let src' = drop (consumed + 1) src in
      if not (c.max_in_size == 0) && ltb c.max_in_size remaining_length
      then (record { answer = err max_size_exceeded; codec = c; rest = src })
      else if ltb (length src') remaining_length
      then (record { answer = ok none; codec = c'; rest = src' })
      else decode_frame c' fixed src'

  unfoldable pub decode_header : Codec → List ℕ → Decoded
  unfolding header_answer
  decode_header c [] = record { answer = ok none; codec = c; rest = [] }
  decode_header c (b ∷ []) = record { answer = ok none; codec = c; rest = b ∷ [] }
  decode_header c (first_byte ∷ b ∷ src) =
      header_answer c (first_byte ∷ b ∷ src) first_byte (decode_variable_length (b ∷ src))

  abbrev pub decode_in : DecodeState → Codec → List ℕ → Decoded
  decode_in frame_header c src = decode_header c src
  decode_in (frame fixed) c src = decode_frame c fixed src

  -- `Decoder::decode`.
  unfoldable pub decode : Codec → List ℕ → Decoded
  unfolding decode_header decode_frame
  decode c src = decode_in c.state c src

abbrev clear_ack : {R : Type 0} → Ack R → Ack R
clear_ack a = record a { properties = []; reason_string = none }

abbrev clear_status_ack : {R : Type 0} → StatusAck R → StatusAck R
clear_status_ack a = record a { properties = []; reason_string = none }

-- The `match` of `encode` that heeds MQTT 3.1.2.11.7.
abbrev pub without_problem_info : Packet → Packet
without_problem_info (Packet.publish_ack a) = Packet.publish_ack (clear_ack a)
without_problem_info (Packet.publish_received a) = Packet.publish_received (clear_ack a)
without_problem_info (Packet.publish_release a) = Packet.publish_release (clear_ack a)
without_problem_info (Packet.publish_complete a) = Packet.publish_complete (clear_ack a)
without_problem_info (Packet.subscribe s) = Packet.subscribe (record s { user_properties = [] })
without_problem_info (Packet.subscribe_ack a) = Packet.subscribe_ack (clear_status_ack a)
without_problem_info (Packet.unsubscribe u) = Packet.unsubscribe (record u { user_properties = [] })
without_problem_info (Packet.unsubscribe_ack a) = Packet.unsubscribe_ack (clear_status_ack a)
without_problem_info (Packet.auth a) =
    Packet.auth (record a { user_properties = []; reason_string = none })
without_problem_info p = p

-- The packet that is sent for an item, and the limit on its content.
abbrev pub sent : Codec → Packet → Packet
sent c item = if contains c.flags no_problem_info then without_problem_info item else item

abbrev pub out_limit : Codec → ℕ
out_limit c = if not (c.max_out_size == 0) then c.max_out_size else max_packet_size

-- `Encoder::encode`; `content_size as u32` keeps the low 32 bits.
unfoldable pub encode : Codec → Packet → Writer
encode c item =
    let content_size = Encode.encoded_size (sent c item) (out_limit c) in
    if ltb (out_limit c) content_size
    then fail over_max_packet_size
    else Encode.encode (sent c item) (content_size % 2 ^ 32)

-- ===== src/V3/Codec.antt =====
-- The codec of MQTT 3.1.1: frames out of a stream of bytes, and into it (src/v3/codec/codec.rs).
-- `reserve` only makes room in the buffer, and is left out.
pub mod Stream
pub mod RoundTrip
pub mod Limits
mod Tests
use mathlib.Core.Option.{Option, none, some}
use ntex_mqtt.Base.{
  ℕ, ◌+◌, ◌%◌, ◌^◌, Bool, true, false, not, ◌&&◌, List, [], ◌∷◌, ltb, ◌==◌, if◌then◌else◌, length,
  take, drop, is_some, Result, ok, err, panic,
}
use ntex_mqtt.Wire.{
  DecodeError, max_size_exceeded, decode_variable_length, Writer, fail, packet_id_required,
}
use ntex_mqtt.Types.{is_at_most_once}
use ntex_mqtt.V3.Packet
use ntex_mqtt.V3.Packet.{Packet}
use ntex_mqtt.V3.Decode.{decode_packet}
use ntex_mqtt.V3.Encode

-- `FixedHeader` (src/types.rs).
pub record FixedHeader : Type 0 where
  pub first_byte : ℕ
  pub remaining_length : ℕ

pub data DecodeState : Type 0 where
  frame_header : DecodeState
  frame : FixedHeader → DecodeState

pub record Codec : Type 0 where
  pub state : DecodeState
  pub max_size : ℕ

-- `Codec::new` and `set_max_size`.
pub new : Codec
new = record { state = frame_header; max_size = 0 }

pub set_max_size : Codec → ℕ → Codec
set_max_size c size = record c { max_size = size }

-- What a call of `decode` answers, and the codec and the buffer that it leaves.
pub record Decoded : Type 0 where
  pub answer : Result DecodeError (Option (Packet × ℕ))
  pub codec : Codec
  pub rest : List ℕ

module _ (utf8 : List ℕ → Bool) where
  -- The arm `DecodeState::Frame`. When the packet is malformed the state stays as it is.
  pub packet_answer : Codec → ℕ → List ℕ → Result DecodeError Packet → Decoded
  packet_answer c n rest (ok packet) = record {
    answer = ok (some (packet, n));
    codec = record c { state = frame_header };
    rest = rest;
  }
  packet_answer c n rest (err e) = record { answer = err e; codec = c; rest = rest }
  packet_answer c n rest panic = record { answer = panic; codec = c; rest = rest }

  pub decode_frame : Codec → FixedHeader → List ℕ → Decoded
  unfolding packet_answer
  decode_frame c fixed src =
      if ltb (length src) fixed.remaining_length
      then (record { answer = ok none; codec = c; rest = src })
      else packet_answer c fixed.remaining_length (drop fixed.remaining_length src)
          (decode_packet utf8 (take fixed.remaining_length src) fixed.first_byte)

  -- The arm `DecodeState::FrameHeader` behind `decode_variable_length`. Once the header is read the
  -- loop goes on with the other arm.
  pub header_answer : Codec → List ℕ → ℕ → Result DecodeError (Option (ℕ × ℕ)) → Decoded
  header_answer c src first_byte (err e) = record { answer = err e; codec = c; rest = src }
  header_answer c src first_byte panic = record { answer = panic; codec = c; rest = src }
  header_answer c src first_byte (ok none) = record { answer = ok none; codec = c; rest = src }
  header_answer c src first_byte (ok (some (remaining_length, consumed))) =
      let fixed : FixedHeader = record {
        first_byte = first_byte;
        remaining_length = remaining_length;
      } in
      let c' = record c { state = frame fixed } in
      let src' = drop (consumed + 1) src in
      if not (c.max_size == 0) && ltb c.max_size remaining_length
      then (record { answer = err max_size_exceeded; codec = c; rest = src })
      else if ltb (length src') remaining_length
      then (record { answer = ok none; codec = c'; rest = src' })
      else decode_frame c' fixed src'

  pub decode_header : Codec → List ℕ → Decoded
  unfolding header_answer
  decode_header c [] = record { answer = ok none; codec = c; rest = [] }
  decode_header c (b ∷ []) = record { answer = ok none; codec = c; rest = b ∷ [] }
  decode_header c (first_byte ∷ b ∷ src) =
      header_answer c (first_byte ∷ b ∷ src) first_byte (decode_variable_length (b ∷ src))

  abbrev pub decode_in : DecodeState → Codec → List ℕ → Decoded
  decode_in frame_header c src = decode_header c src
  decode_in (frame fixed) c src = decode_frame c fixed src

  -- `Decoder::decode`.
  unfoldable pub decode : Codec → List ℕ → Decoded
  unfolding decode_header decode_frame
  decode c src = decode_in c.state c src

-- The check that `Encoder::encode` makes first.
abbrev pub lacks_packet_id : Packet → Bool
lacks_packet_id (Packet.publish p) = not (is_at_most_once p.qos) && not (is_some p.packet_id)
lacks_packet_id _ = false

-- `Encoder::encode`; `content_size as u32` keeps the low 32 bits.
unfoldable pub encode : Packet → Writer
encode item =
    if lacks_packet_id item
    then fail packet_id_required
    else Encode.encode item (Encode.get_encoded_size item % 2 ^ 32)

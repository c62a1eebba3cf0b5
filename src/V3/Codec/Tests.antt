-- ===== src/V3/Codec/Tests.antt =====
-- The properties of the codec of MQTT 3.1.1 at a SUBSCRIBE packet: every string is UTF-8 here.
use mathlib.Core.Option.{some}
use ntex_mqtt.Base.{ℕ, ◌≡◌, ◌≢◌, refl, Bool, true, List, [], ◌∷◌, ◌++◌, ok, panic, arith, inr}
use ntex_mqtt.Wire.{
  variable_length_loop, decode_variable_length_cursor, decode_variable_length,
  write_variable_length, encode_u16, encode_bytes,
}
use ntex_mqtt.Types.{QoS}
use ntex_mqtt.V3.Packet.{Packet, packet_type}
use ntex_mqtt.V3.Decode.{decode_packet}
use ntex_mqtt.V3.Decode.Safety.{decode_packet-ne-panic}
use ntex_mqtt.V3.Encode
use ntex_mqtt.V3.Encode.Frames.{IsExact, encode-IsExact}
use ntex_mqtt.V3.Codec
use ntex_mqtt.V3.Codec.{FixedHeader, frame_header, frame}
use ntex_mqtt.V3.Codec.Stream.{decode-append}
use ntex_mqtt.V3.Codec.RoundTrip.{decode-encode}
use ntex_mqtt.V3.Codec.Limits.{IsSafe, decode-IsSafe}

abbrev any_utf8 : List ℕ → Bool
any_utf8 s = true

abbrev packet : Packet
packet = Packet.subscribe 7 ((b'a' ∷ [], QoS.at_least_once) ∷ [])

abbrev written : List ℕ
written = 0x82 ∷ 6 ∷ 0 ∷ 7 ∷ 0 ∷ 1 ∷ b'a' ∷ 1 ∷ []

-- A limit of 100 bytes.
abbrev codec : Codec.Codec
codec = Codec.set_max_size Codec.new 100

abbrev codec_in_frame : Codec.Codec
codec_in_frame = record {
  state = frame (record { first_byte = 0x82; remaining_length = 6 });
  max_size = 100;
}

decode_packet-ne-panic_example : decode_packet any_utf8 (0 ∷ 7 ∷ 0 ∷ []) 0x82 ≢ panic
decode_packet-ne-panic_example = decode_packet-ne-panic any_utf8 (0 ∷ 7 ∷ 0 ∷ []) 0x82

size_is_6 : Encode.get_encoded_size packet ≡ 6
unfolding Encode.get_encoded_size Encode.get_encoded_subscribe_size Encode.fold_filters
size_is_6 = refl

encode_ok : (Encode.encode packet (Encode.get_encoded_size packet)).result ≡ ok tt
unfolding Encode.encode Encode.get_encoded_size Encode.get_encoded_subscribe_size
    Encode.fold_filters packet_type encode_u16 encode_bytes Encode.encode_filters
    write_variable_length
encode_ok = refl

encode-IsExact_example :
    IsExact packet (Encode.encode packet (Encode.get_encoded_size packet)).bytes
encode-IsExact_example = encode-IsExact packet encode_ok

codec_encode_ok : (Codec.encode packet).result ≡ ok tt
unfolding Codec.encode Encode.encode Encode.get_encoded_size Encode.get_encoded_subscribe_size
    Encode.fold_filters packet_type encode_u16 encode_bytes Encode.encode_filters
    write_variable_length
codec_encode_ok = refl

decode-encode_example :
    Codec.decode any_utf8 codec ((Codec.encode packet).bytes ++ (0xC0 ∷ [])) ≡ record {
      answer = ok (some (packet, Encode.get_encoded_size packet));
      codec = codec;
      rest = 0xC0 ∷ [];
    }
unfolding Codec.new Codec.set_max_size
decode-encode_example =
    decode-encode any_utf8 codec packet (0xC0 ∷ []) ((omega arith, omega arith), (refl, tt))
      codec_encode_ok (omega (arith, size_is_6)) refl (ground (arith, size_is_6))

-- The frame in two pieces.
decode-append_example :
    Codec.decode any_utf8
      (Codec.decode any_utf8 codec (0x82 ∷ 6 ∷ 0 ∷ [])).codec
      ((Codec.decode any_utf8 codec (0x82 ∷ 6 ∷ 0 ∷ [])).rest ++ (7 ∷ 0 ∷ 1 ∷ b'a' ∷ 1 ∷ []))
    ≡ Codec.decode any_utf8 codec ((0x82 ∷ 6 ∷ 0 ∷ []) ++ (7 ∷ 0 ∷ 1 ∷ b'a' ∷ 1 ∷ []))
unfolding Codec.new Codec.set_max_size Codec.decode Codec.decode_header Codec.decode_frame
    Codec.header_answer decode_variable_length decode_variable_length_cursor variable_length_loop
decode-append_example =
    decode-append any_utf8 codec (0x82 ∷ 6 ∷ 0 ∷ []) (7 ∷ 0 ∷ 1 ∷ b'a' ∷ 1 ∷ []) refl

decode-IsSafe_example : IsSafe 100 (Codec.decode any_utf8 codec_in_frame (0 ∷ 7 ∷ []))
decode-IsSafe_example = decode-IsSafe any_utf8 codec_in_frame (0 ∷ 7 ∷ []) (inr (omega arith))

-- ===== src/Version/Detection.antt =====
-- Version detection (src/version.rs) on what the codecs of both versions write.
use mathlib.Core.Path.{subst}
use mathlib.Core.Option.{some}
use mathlib.Core.List.{append_assoc}
use ntex_mqtt.Base.{
  ℕ, suc, ◌+◌, ◌/◌, ◌%◌, ◌^◌, ◌<◌, ◌≡◌, refl, sym, ap, ◌∙◌, Bool, true, false, if◌then◌else◌, List,
  [], ◌∷◌, ◌++◌, length, drop, ok, arith, length-append, drop-length-append,
}
use ntex_mqtt.Wire.{Writer, write_variable_length, decode_variable_length, encode_bytes, encode_u16}
use ntex_mqtt.Wire.Varint.{cursor-write_variable_length}
use ntex_mqtt.Wire.Pieces.{varint-append, varint_size-positive}
use ntex_mqtt.Wire.Frames.{IsFrame}
use ntex_mqtt.Types
use ntex_mqtt.Types.{contains}
use ntex_mqtt.V3.Packet as PacketV3
use ntex_mqtt.V3.Encode as EncodeV3
use ntex_mqtt.V3.Encode.Sizes.{content as content_v3}
use ntex_mqtt.V3.Encode.Frames.{encode-IsFrame as encode-IsFrame_v3}
use ntex_mqtt.V3.Codec as CodecV3
use ntex_mqtt.V3.Codec.RoundTrip.{encode-encode}
use ntex_mqtt.V5.Packet as PacketV5
use ntex_mqtt.V5.Encode.Connect as ConnectV5
use ntex_mqtt.V5.RoundTrip.Packets.{first_byte, content, encode-IsFrame}
use ntex_mqtt.V5.Encode
use ntex_mqtt.V5.Codec as CodecV5
use ntex_mqtt.V5.Codec.RoundTrip.{encode-IsSent, sent_size}
use ntex_mqtt.Version.{ProtocolVersion, level_version, protocol_version, header_version, decode}

-- The start of a CONNECT packet of a level, behind the fixed header.
abbrev start : ℕ → List ℕ → List ℕ
start level more = 0 ∷ 4 ∷ b'M' ∷ b'Q' ∷ b'T' ∷ b'T' ∷ level ∷ more

decode-cons :
    (b : ℕ) (src : List ℕ)
    → 0 < length src
    → decode (b ∷ src) ≡ header_version (b ∷ src) b (decode_variable_length src)
unfolding decode
decode-cons b [] h = absurd (omega arith)
decode-cons b (d ∷ src) h = refl

decode-start :
    (bytes : List ℕ) (n : ℕ) (body : Writer) (level : ℕ) (more rest : List ℕ)
    → IsFrame bytes Types.PacketType.connect n body
    → body.bytes ≡ start level more
    → decode (bytes ++ rest) ≡ level_version level
decode-start bytes n body level more rest f e =
    let b : ℕ = Types.PacketType.connect in
    let len : List ℕ = (write_variable_length n).bytes in
    let src : List ℕ = len ++ (body.bytes ++ rest) in
    let joined : bytes ++ rest ≡ b ∷ src =
      ap (λ (l : List ℕ). l ++ rest) f.layout ∙ ap (◌∷◌ b) (append_assoc len body.bytes rest) in
    let some_length : 0 < length src = omega (
      arith,
      length-append len (body.bytes ++ rest),
      varint_size-positive n,
      (cursor-write_variable_length n [] f.fits).1,
    ) in
    let next : length len + 1 ≡ suc (length len) = omega arith in
    let left : drop (length len + 1) (b ∷ src) ≡ start level (more ++ rest) =
      ap (λ (k : ℕ). drop k (b ∷ src)) next
      ∙ drop-length-append len (body.bytes ++ rest)
      ∙ ap (λ (l : List ℕ). l ++ rest) e in
    ap decode joined
    ∙ decode-cons b src some_length
    ∙ ap (header_version (b ∷ src) b) (varint-append n (body.bytes ++ rest) f.fits)
    ∙ ap protocol_version left

v3_start :
    (c : PacketV3.Connect)
    → (content_v3 (PacketV3.Packet.connect c)).bytes
      ≡ start 4 (
          EncodeV3.connect_flags c
          ∷ c.keep_alive / 256 % 256
          ∷ c.keep_alive % 256
          ∷ (EncodeV3.encode_connect_fields c).bytes)
unfolding content_v3 EncodeV3.encode_connect encode_bytes
v3_start c = refl

v5_start :
    (c : PacketV5.Connect)
    → (ConnectV5.encode_connect c).bytes
      ≡ start 5 (
          ConnectV5.connect_flags c
          ∷ c.keep_alive / 256 % 256
          ∷ c.keep_alive % 256
          ∷ (ConnectV5.encode_connect_fields c).bytes)
unfolding ConnectV5.encode_connect encode_bytes encode_u16
v5_start c = refl

decode-v3 :
    (c : PacketV3.Connect) (rest : List ℕ)
    → (CodecV3.encode (PacketV3.Packet.connect c)).result ≡ ok tt
    → EncodeV3.get_encoded_size (PacketV3.Packet.connect c) < 2 ^ 32
    → decode ((CodecV3.encode (PacketV3.Packet.connect c)).bytes ++ rest)
      ≡ ok (some ProtocolVersion.mqtt3)
unfolding PacketV3.packet_type
decode-v3 c rest h small =
    let p = PacketV3.Packet.connect c in
    let same = encode-encode p h small in
    let f = encode-IsFrame_v3 p (ap (λ (w : Writer). w.result) (sym same) ∙ h) in
    ap (λ (w : Writer). decode (w.bytes ++ rest)) same
    ∙ decode-start _ _ (content_v3 p) 4 _ rest f (v3_start c)

sent-connect :
    (writer : CodecV5.Codec) (c : PacketV5.Connect)
    → CodecV5.sent writer (PacketV5.Packet.connect c) ≡ PacketV5.Packet.connect c
sent-connect writer c = by_test (contains writer.flags CodecV5.no_problem_info)
  where
    by_test :
        (b : Bool)
        → (if b
            then CodecV5.without_problem_info (PacketV5.Packet.connect c)
            else PacketV5.Packet.connect c)
          ≡ PacketV5.Packet.connect c
    by_test true = refl
    by_test false = refl

decode-v5 :
    (writer : CodecV5.Codec) (c : PacketV5.Connect) (rest : List ℕ)
    → writer.max_out_size < 2 ^ 32
    → (CodecV5.encode writer (PacketV5.Packet.connect c)).result ≡ ok tt
    → decode ((CodecV5.encode writer (PacketV5.Packet.connect c)).bytes ++ rest)
      ≡ ok (some ProtocolVersion.mqtt5)
unfolding PacketV5.packet_type
decode-v5 writer c rest small h =
    let p = PacketV5.Packet.connect c in
    let s = encode-IsSent writer p small h in
    let n : ℕ = sent_size writer p in
    let f =
      subst
        (λ q.
          IsFrame (Encode.encode (CodecV5.sent writer p) n).bytes (first_byte q) n (content q n))
        (sent-connect writer c)
        (encode-IsFrame (CodecV5.sent writer p) (CodecV5.out_limit writer)
          (ap (λ (w : Writer). w.result) (sym s.same) ∙ h)) in
    ap (λ (w : Writer). decode (w.bytes ++ rest)) s.same
    ∙ decode-start _ n (ConnectV5.encode_connect c) 5 _ rest f (v5_start c)

-- Whatever bytes follow: in a CONNECT packet that the codec of MQTT 3.1.1 writes without an error
-- (the size of which is below 2^32) the version that is found is 3, and in one that a codec of
-- MQTT 5 (whose outbound limit is a `u32`) writes without an error it is 5.
pub decode-encode_connect :
    (c3 : PacketV3.Connect) (writer : CodecV5.Codec) (c5 : PacketV5.Connect) (rest : List ℕ)
    → (CodecV3.encode (PacketV3.Packet.connect c3)).result ≡ ok tt
    → EncodeV3.get_encoded_size (PacketV3.Packet.connect c3) < 2 ^ 32
    → writer.max_out_size < 2 ^ 32
    → (CodecV5.encode writer (PacketV5.Packet.connect c5)).result ≡ ok tt
    → (decode ((CodecV3.encode (PacketV3.Packet.connect c3)).bytes ++ rest)
        ≡ ok (some ProtocolVersion.mqtt3))
      × (decode ((CodecV5.encode writer (PacketV5.Packet.connect c5)).bytes ++ rest)
          ≡ ok (some ProtocolVersion.mqtt5))
decode-encode_connect c3 writer c5 rest h3 small3 small5 h5 =
    (decode-v3 c3 rest h3 small3, decode-v5 writer c5 rest small5 h5)

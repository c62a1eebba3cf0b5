-- ===== src/V5/Codec/Outbound.antt =====
-- The outbound limit of a codec (src/v5/codec/codec.rs).
use ntex_mqtt.Base.{
  ℕ, ◌+◌, ◌^◌, ◌≤◌, ◌<◌, ◌≡◌, sym, ap, ◌∙◌, Bool, List, [], ok, arith, length, length-append,
}
use ntex_mqtt.Wire.{Writer, write_variable_length}
use ntex_mqtt.Wire.Varint.{varint_size, cursor-write_variable_length}
use ntex_mqtt.Wire.Frames.{IsFrame}
use ntex_mqtt.V5.Packet.{Packet}
use ntex_mqtt.V5.RoundTrip.Packets.{IsValid, content, encode-IsFrame}
use ntex_mqtt.V5.RoundTrip.Packets.ReadBack.{decode_packet-content-kept}
use ntex_mqtt.V5.Codec.{Codec, set_max_outbound_size, sent, out_limit, encode}
use ntex_mqtt.V5.Codec.RoundTrip.{sent_size, encode-IsSent, sent-IsValid}

frame_length :
    (bytes : List ℕ) (b n : ℕ) (body : Writer)
    → IsFrame bytes b n body
    → length body.bytes ≡ n
    → length bytes ≤ 5 + n
frame_length bytes b n body f size =
    let (_, len, _, _) = cursor-write_variable_length n [] f.fits in
    let joined : length bytes ≡ 1 + (length (write_variable_length n).bytes + length body.bytes) =
      ap length f.layout
      ∙ omega (arith, length-append (write_variable_length n).bytes body.bytes) in
    let at_most : varint_size n ≤ 4 = ground arith in omega (arith, joined, len, size, at_most)

out_limit-set :
    (c : Codec) (size : ℕ) → 5 < size → out_limit (set_max_outbound_size c size) + 5 ≡ size
out_limit-set c size h = ground arith

-- A codec whose outbound limit is set to more than five bytes (and to a `u32`) writes a packet whose
-- values are those of the Rust types (and, for CONNECT, which names a client or asks for a clean
-- start; a subscription id is not 0) to at most so many bytes, the fixed header included, whenever
-- it accepts the packet.
pub length-encode-set_max_outbound_size :
    (utf8 : List ℕ → Bool) (c : Codec) (size : ℕ) (p : Packet)
    → 5 < size
    → size < 2 ^ 32
    → IsValid utf8 p
    → (encode (set_max_outbound_size c size) p).result ≡ ok tt
    → length (encode (set_max_outbound_size c size) p).bytes ≤ size
length-encode-set_max_outbound_size utf8 c size p enough small v h =
    let c' = set_max_outbound_size c size in
    let bound : c'.max_out_size < 2 ^ 32 = ground arith in
    let s = encode-IsSent c' p bound h in
    let item = sent c' p in
    let f = encode-IsFrame item (out_limit c') (ap (λ (w : Writer). w.result) (sym s.same) ∙ h) in
    let exact =
      (decode_packet-content-kept utf8 item (out_limit c') (sent-IsValid utf8 c' p v) f.fits
        f.body_ok).0 in
    let whole = frame_length _ _ _ (content item (sent_size c' p)) f exact in
    rw s.same (omega (arith, whole, s.within, out_limit-set c size enough))

-- ===== src/V5/Codec/RoundTrip.antt =====
-- `Codec::encode` against `Codec::decode` (src/v5/codec/codec.rs).
use mathlib.Core.Option.{some}
use ntex_mqtt.Base.{
  ℕ, ◌^◌, ◌≤◌, ◌<◌, ◌≡◌, sym, ap, ◌∙◌, Bool, true, false, List, ◌++◌, ok, arith, Bool-cases, inl,
  inr, ltb, if◌then◌else◌,
}
use ntex_mqtt.Wire.{Writer}
use ntex_mqtt.Types.{contains}
use ntex_mqtt.V5.Packet.{Packet}
use ntex_mqtt.V5.Encode
use ntex_mqtt.V5.RoundTrip.Packets.{IsValid, kept, first_byte, content, encode-IsFrame}
use ntex_mqtt.V5.RoundTrip.Packets.ReadBack.{decode_packet-content-kept}
use ntex_mqtt.V5.Codec.{
  DecodeState, frame_header, frame, Codec, packet_answer, decode, no_problem_info, note_connect,
  without_problem_info, sent, out_limit, encode,
}
use ntex_mqtt.V5.Codec.Frames.{too_big, decode-IsFrame}

-- The size of the content that is sent for an item, and the packet that arrives.
abbrev pub sent_size : Codec → Packet → ℕ
sent_size c item = Encode.encoded_size (sent c item) (out_limit c)

abbrev pub received : Codec → Packet → Packet
received c item = kept (sent c item) (out_limit c)

-- An `encode` that succeeds.
pub record IsSent (c : Codec) (item : Packet) : Type 0 where
  pub within : sent_size c item ≤ out_limit c
  pub same : encode c item ≡ Encode.encode (sent c item) (sent_size c item)

pub encode-IsSent :
    (c : Codec) (item : Packet)
    → c.max_out_size < 2 ^ 32
    → (encode c item).result ≡ ok tt
    → IsSent c item
unfolding encode
encode-IsSent c item small h = elim (Bool-cases (ltb (out_limit c) (sent_size c item))) [
  | inl over ↦ cc (rw over at h)
  | inr fits ↦
      let limit : out_limit c < 2 ^ 32 = ground arith in
      let within : sent_size c item ≤ out_limit c = ground arith in
      record {
        within = within;
        same = rw fits (ap (Encode.encode (sent c item)) (omega (arith, within, limit)));
      }
]

without_problem_info-IsValid :
    (utf8 : List ℕ → Bool) (p : Packet) → IsValid utf8 p → IsValid utf8 (without_problem_info p)
without_problem_info-IsValid utf8 (Packet.connect c) v = v
without_problem_info-IsValid utf8 (Packet.connect_ack a) v = v
without_problem_info-IsValid utf8 (Packet.publish p) v = v
without_problem_info-IsValid utf8 (Packet.publish_ack a) (id, _) = (id, (tt, tt))
without_problem_info-IsValid utf8 (Packet.publish_received a) (id, _) = (id, (tt, tt))
without_problem_info-IsValid utf8 (Packet.publish_release a) (id, _) = (id, (tt, tt))
without_problem_info-IsValid utf8 (Packet.publish_complete a) (id, _) = (id, (tt, tt))
without_problem_info-IsValid utf8 (Packet.subscribe s) (id, sub, _, filters) =
    (id, sub, tt, filters)
without_problem_info-IsValid utf8 (Packet.subscribe_ack a) (id, _) = (id, (tt, tt))
without_problem_info-IsValid utf8 (Packet.unsubscribe u) (id, _, topics) = (id, tt, topics)
without_problem_info-IsValid utf8 (Packet.unsubscribe_ack a) (id, _) = (id, (tt, tt))
without_problem_info-IsValid utf8 Packet.ping_request v = v
without_problem_info-IsValid utf8 Packet.ping_response v = v
without_problem_info-IsValid utf8 (Packet.disconnect d) v = v
without_problem_info-IsValid utf8 (Packet.auth a) (method, _) = (method, (tt, tt))

pub sent-IsValid :
    (utf8 : List ℕ → Bool) (c : Codec) (p : Packet) → IsValid utf8 p → IsValid utf8 (sent c p)
sent-IsValid utf8 c p v = by_test (contains c.flags no_problem_info)
  where
    by_test : (b : Bool) → IsValid utf8 (if b then without_problem_info p else p)
    by_test true = without_problem_info-IsValid utf8 p v
    by_test false = v

-- A packet whose values are those of the Rust types (and, for CONNECT, which names a client or asks
-- for a clean start; a subscription id is not 0), which `Codec::encode` of a writer (whose outbound
-- limit is a `u32`) accepts, and the size of which is within the inbound limit of a reader (0 is no
-- limit): a reader that stands between frames decodes the bytes written to the packet as the writer
-- sends it, which is without problem information when the peer did not ask for any, and without the
-- user properties or the reason string that do not fit the outbound limit; with its size, whatever
-- bytes follow. The reader leaves exactly those, stands between frames again, and notes what a
-- CONNECT packet asks for.
pub decode-encode-sent :
    (utf8 : List ℕ → Bool) (reader writer : Codec) (p : Packet) (rest : List ℕ)
    → IsValid utf8 p
    → writer.max_out_size < 2 ^ 32
    → (encode writer p).result ≡ ok tt
    → reader.state ≡ frame_header
    → too_big reader (sent_size writer p) ≡ false
    → decode utf8 reader ((encode writer p).bytes ++ rest) ≡ record {
      answer = ok (some (received writer p, sent_size writer p));
      codec = record reader { flags = note_connect (received writer p) reader.flags };
      rest = rest;
    }
unfolding packet_answer
decode-encode-sent utf8 reader writer p rest v small h st fits =
    let n : ℕ = sent_size writer p in
    let item = sent writer p in
    let s = encode-IsSent writer p small h in
    let f =
      encode-IsFrame item (out_limit writer) (ap (λ (w : Writer). w.result) (sym s.same) ∙ h) in
    let (size, read) =
      decode_packet-content-kept utf8 item (out_limit writer) (sent-IsValid utf8 writer p v) f.fits
        f.body_ok in
    ap (λ (w : Writer). decode utf8 reader (w.bytes ++ rest)) s.same
    ∙ decode-IsFrame utf8 reader (Encode.encode item n).bytes (first_byte item) n (content item n)
        rest f size st fits
    ∙ ap
        (packet_answer utf8
          (record reader {
            state = frame (record { first_byte = first_byte item; remaining_length = n });
          })
          n rest)
        read
    ∙ ap
        (λ (st : DecodeState). record {
          answer = ok (some (received writer p, n));
          codec = record reader {
            state = st;
            flags = note_connect (received writer p) reader.flags;
          };
          rest = rest;
        })
        (sym st)

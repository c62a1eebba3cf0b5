-- ===== src/V3/Sink/Tests.antt =====
-- The sink (src/v3/sink.rs) at concrete states. Encoding succeeds but for UNSUBSCRIBE.
use mathlib.Core.Option.{some}
use ntex_mqtt.Base.{ℕ, ◌+◌, ◌≡◌, refl, Bool, true, false, [], ◌∷◌, length, Result, ok, err, arith}
use ntex_mqtt.Wire.{EncodeError}
use ntex_mqtt.Types.{QoS}
use ntex_mqtt.V3.Packet.{Packet, Publish}
use ntex_mqtt.V3.Shared.State.{
  Ack, AckViolation, packet_id_mismatch, encode_error, encoded, disconnect_sent, io_closed,
  subscribe_type, unsubscribe_type, MqttShared, credit, is_ready,
}
use ntex_mqtt.V3.Shared.Operations.{Outcome, pkt_ack}
use ntex_mqtt.V3.Sink.{
  with_qos, send_at_least_once_no_block, Started, finished, on_ack, publish_packet,
  send_at_least_once, publish_when_woken, send_request,
}
use ntex_mqtt.V3.Sink.Refines.{IsPiece, send_at_least_once-IsPiece}
use ntex_mqtt.V3.Sink.NoBlock.{Ends, send_at_least_once_no_block-Ends}
use ntex_mqtt.V3.Sink.Leftover.{send_request-encode_error}
use ntex_mqtt.V3.Sink.Overrun.{identified, in_flight, publish_when_woken-send_at_least_once}

abbrev io_encode : Packet → Result EncodeError (Unit {0})
io_encode (Packet.unsubscribe id fs) = err EncodeError.invalid_length
io_encode p = ok tt

abbrev alive : ℕ → Bool
alive tx = true

abbrev sink : MqttShared
sink = record {
  cap = 2;
  inflight = record { id = 1; tx = some 10; tp = subscribe_type } ∷ [];
  inflight_ids = 1 ∷ [];
  waiters = [];
  inflight_idx = 1;
  is_client = true;
  wrb_enabled = false;
  on_publish_ack_flag = false;
  on_publish_ack = false;
}

abbrev news : Publish
news = publish_packet (b'a' ∷ []) (1 ∷ 2 ∷ [])

send_at_least_once-IsPiece_example :
    IsPiece alive io_encode 20 news sink (send_at_least_once io_encode false 20 news sink)
    × IsPiece alive io_encode 20 news sink (publish_when_woken io_encode true 20 news sink)
send_at_least_once-IsPiece_example =
    send_at_least_once-IsPiece alive io_encode false true 20 news sink

-- The same sink with nothing in flight.
abbrev idle : MqttShared
idle = record sink { inflight = []; inflight_ids = [] }

abbrev refused : Started (Unit {0})
refused =
    send_request io_encode unsubscribe_type (λ id. Packet.unsubscribe id []) false 21 (some 5) idle

abbrev behind : Started (Unit {0})
behind = send_at_least_once io_encode false 20 (identified 2 news) refused.shared

abbrev acknowledged : Outcome AckViolation (Unit {0})
acknowledged = pkt_ack alive (Ack.publish 2) behind.shared

send_request-encode_error_example :
    (refused.progress ≡ finished (err (encode_error EncodeError.invalid_length)))
    × (behind.progress ≡ on_ack 20)
    × (behind.effects ≡ encoded (Packet.publish (identified 2 news)) (ok tt) ∷ [])
    × (acknowledged.result ≡ err packet_id_mismatch)
    × (acknowledged.effects ≡ disconnect_sent ∷ io_closed ∷ [])
    × (acknowledged.shared.inflight ≡ [])
unfolding is_ready credit
send_request-encode_error_example =
    send_request-encode_error alive io_encode (Unit {0}) unsubscribe_type
      (λ id. Packet.unsubscribe id []) 21 20 5 2 news idle EncodeError.invalid_length refl
      (omega arith) refl refl refl refl refl

publish_when_woken-send_at_least_once_example :
    (send_at_least_once io_encode false 20 (identified 2 news) sink
      ≡ in_flight io_encode 2 20 news sink)
    × (publish_when_woken io_encode true 21
          (identified 3 news)
          (in_flight io_encode 2 20 news sink).shared
        ≡ in_flight io_encode 3 21 news (in_flight io_encode 2 20 news sink).shared)
    × (length
          (in_flight io_encode 3 21 news
            (in_flight io_encode 2 20 news sink).shared).shared.inflight
        ≡ sink.cap + 1)
unfolding is_ready credit
publish_when_woken-send_at_least_once_example =
    publish_when_woken-send_at_least_once io_encode 2 3 20 21 news news sink refl refl refl refl
      refl refl

-- The same with a callback.
abbrev calling : MqttShared
calling = record idle { on_publish_ack_flag = true; on_publish_ack = true }

abbrev at_once : Started (Unit {0})
at_once = send_at_least_once_no_block io_encode false news calling

send_at_least_once_no_block-Ends_example :
    Ends io_encode (with_qos QoS.at_least_once news) calling at_once at_once.progress
send_at_least_once_no_block-Ends_example =
    send_at_least_once_no_block-Ends io_encode false news calling (omega arith)

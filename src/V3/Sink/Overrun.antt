-- ===== src/V3/Sink/Overrun.antt =====
-- The limit on packets in flight, and the tasks woken to send (src/v3/sink.rs, shared.rs).
use mathlib.Core.Option.{Option, none, some}
use ntex_mqtt.Base.{
  ℕ, ◌+◌, ◌≡◌, refl, ap, ◌∙◌, true, false, [], ◌∷◌, length, length-append, Result, ok, arith,
}
use ntex_mqtt.Wire.{EncodeError}
use ntex_mqtt.Types.{QoS}
use ntex_mqtt.V3.Packet.{Packet, Publish}
use ntex_mqtt.V3.Shared.State.{publish_type, MqttShared, has_id, is_ready, credit, encoded}
use ntex_mqtt.V3.Shared.Operations.{register, wait_packet_response, wait_readiness}
use ntex_mqtt.V3.Shared.Wakes.{wait_readiness-is_ready}
use ntex_mqtt.V3.Sink.{
  Started, on_ack, after_readiness, send_at_least_once_inner, send_at_least_once,
  publish_when_woken,
}

abbrev pub identified : ℕ → Publish → Publish
identified id p = record p { packet_id = some id; qos = QoS.at_least_once }

module _ (io_encode : Packet → Result EncodeError (Unit {0})) where
  abbrev pub in_flight : ℕ → ℕ → Publish → MqttShared → Started (Unit {0})
  in_flight id tx p s = record {
    shared = register id (some tx) publish_type s;
    effects = encoded (Packet.publish (identified id p)) (ok tt) ∷ [];
    progress = on_ack tx;
  }

  pub inner-ok :
      (id tx : ℕ) (p : Publish) (s : MqttShared)
      → has_id id s.inflight_ids ≡ false
      → io_encode (Packet.publish (identified id p)) ≡ ok tt
      → send_at_least_once_inner io_encode tx (identified id p) s ≡ in_flight id tx p s
  unfolding send_at_least_once_inner wait_packet_response
  inner-ok id tx p s free encodes =
      rw (free, encodes)
        (ap
          (λ (r : Result EncodeError (Unit {0})). record {
            shared = register id (some tx) publish_type s;
            effects = encoded (Packet.publish (identified id p)) r ∷ [];
            progress = on_ack tx;
          })
          encodes)

  -- On a sink that is ready and has one credit left, let one task publish, and behind it another
  -- task that a wake had told to go on: both packets are written, under ids that are not in use
  -- and when encoding succeeds, and then one packet more is in flight than the limit allows.
  pub publish_when_woken-send_at_least_once :
      (i j tx ty : ℕ) (p q : Publish) (s : MqttShared)
      → is_ready s ≡ true
      → credit s ≡ 1
      → has_id i s.inflight_ids ≡ false
      → has_id j (i ∷ s.inflight_ids) ≡ false
      → io_encode (Packet.publish (identified i p)) ≡ ok tt
      → io_encode (Packet.publish (identified j q)) ≡ ok tt
      → (send_at_least_once io_encode false tx (identified i p) s ≡ in_flight i tx p s)
        × (publish_when_woken io_encode true ty (identified j q) (in_flight i tx p s).shared
            ≡ in_flight j ty q (in_flight i tx p s).shared)
        × (length (in_flight j ty q (in_flight i tx p s).shared).shared.inflight ≡ s.cap + 1)
  unfolding send_at_least_once publish_when_woken credit
  publish_when_woken-send_at_least_once i j tx ty p q s ready one free_i free_j enc_i enc_j =
      let at_once : wait_readiness tx s ≡ (s, none) =
        wait_readiness-is_ready tx s ∙ rw ready refl in
      (
        ap
              (λ (w : MqttShared × Option ℕ).
                after_readiness w.1 w.0
                  (send_at_least_once_inner io_encode tx (identified i p) w.0))
              at_once
            ∙ inner-ok i tx p s free_i enc_i,
        inner-ok j ty q (in_flight i tx p s).shared free_j enc_j,
        omega (
          arith,
          one,
          length-append s.inflight (record { id = i; tx = some tx; tp = publish_type } ∷ []),
          length-append (in_flight i tx p s).shared.inflight
              (record { id = j; tx = some ty; tp = publish_type } ∷ []),
        ),
      )

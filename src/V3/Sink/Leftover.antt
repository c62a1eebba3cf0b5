-- ===== src/V3/Sink/Leftover.antt =====
-- SUBSCRIBE and UNSUBSCRIBE packets that cannot be encoded (src/v3/sink.rs, shared.rs).
use mathlib.Core.Option.{Option, none, some}
use ntex_mqtt.Base.{
  ℕ, ◌<◌, ◌≡◌, refl, ap, ◌∙◌, Bool, true, false, List, [], ◌∷◌, ◌++◌, if◌then◌else◌, Result, ok,
  err, arith, ◌==◌,
}
use ntex_mqtt.Wire.{EncodeError}
use ntex_mqtt.V3.Packet.{Packet, Publish}
use ntex_mqtt.V3.Shared.State.{
  Ack, AckType, publish_type, Waiting, MqttShared, has_id, is_ready, credit, encode_error, encoded,
  disconnect_sent, io_closed, packet_id_mismatch,
}
use ntex_mqtt.V3.Shared.Operations.{
  register, wait_response, wait_readiness, pkt_ack, pkt_ack_inner, close_on_error, close,
  clear_queues,
}
use ntex_mqtt.V3.Sink.{
  Started, on_ack, finished, after_readiness, choose_id, request_with, send_request,
  send_at_least_once, send_at_least_once_inner,
}
use ntex_mqtt.V3.Sink.Overrun.{identified, in_flight, inner-ok}
use ntex_mqtt.V3.Shared.Wakes.{wait_readiness-is_ready}

module _ (alive : ℕ → Bool) (io_encode : Packet → Result EncodeError (Unit {0})) (A : Type 0) where
  abbrev leftover : AckType → ℕ → ℕ → Packet → MqttShared → EncodeError → Started A
  leftover tp tx id pkt s e = record {
    shared = register id (some tx) tp s;
    effects = encoded pkt (err e) ∷ [];
    progress = finished (err (encode_error e));
  }

  request-leftover :
      (tp : AckType) (packet : ℕ → Packet) (tx id : ℕ) (s : MqttShared) (e : EncodeError)
      → is_ready s ≡ true
      → has_id id s.inflight_ids ≡ false
      → io_encode (packet id) ≡ err e
      → send_request io_encode tp packet false tx (some id) s ≡ leftover tp tx id (packet id) s e
  unfolding send_request wait_response
  request-leftover tp packet tx id s e ready free fails =
      let at_once : wait_readiness tx s ≡ (s, none) =
        wait_readiness-is_ready tx s ∙ rw ready refl in
      ap
        (λ (w : MqttShared × Option ℕ).
          after_readiness w.1 w.0
            (request_with io_encode tx tp packet (choose_id (some id) w.0) w.0))
        at_once
      ∙ rw (free, fails) refl

  register-is_ready :
      (id tx : ℕ) (tp : AckType) (s : MqttShared)
      → is_ready s ≡ true
      → 1 < s.cap
      → s.inflight ≡ []
      → is_ready (register id (some tx) tp s) ≡ true
  unfolding is_ready credit
  register-is_ready id tx tp s ready room empty = ground arith

  mismatch :
      (w : Waiting) (ty j : ℕ) (u : MqttShared)
      → u.inflight ≡ w ∷ record { id = j; tx = some ty; tp = publish_type } ∷ []
      → (w.id == j) ≡ false
      → let last = pkt_ack alive (Ack.publish j) u in
        (last.result ≡ err packet_id_mismatch)
        × (last.effects ≡ (if u.is_client then disconnect_sent ∷ [] else []) ++ (io_closed ∷ []))
        × (last.shared.inflight ≡ [])
  unfolding pkt_ack pkt_ack_inner close_on_error close clear_queues
  mismatch w ty j u queue other = ground arith

  publish-in_flight :
      (j ty : ℕ) (q : Publish) (t : MqttShared)
      → is_ready t ≡ true
      → has_id j t.inflight_ids ≡ false
      → io_encode (Packet.publish (identified j q)) ≡ ok tt
      → send_at_least_once io_encode false ty (identified j q) t ≡ in_flight io_encode j ty q t
  unfolding send_at_least_once
  publish-in_flight j ty q t ready free encodes =
      let at_once : wait_readiness ty t ≡ (t, none) =
        wait_readiness-is_ready ty t ∙ rw ready refl in
      ap
        (λ (w : MqttShared × Option ℕ).
          after_readiness w.1 w.0 (send_at_least_once_inner io_encode ty (identified j q) w.0))
        at_once
      ∙ inner-ok io_encode j ty q t free encodes

  -- On an open connection that is ready, has room for two packets and has none in flight, let a
  -- request under an id fail to be encoded, and behind it a QoS 1 packet under another id be
  -- published, neither id being in use: the request answers the error, and the packet is encoded
  -- and waits for its acknowledgement; but when that acknowledgement comes, it is refused and the
  -- connection closes, no entry is left in flight, and neither task is told of anything.
  pub send_request-encode_error :
      (tp : AckType) (packet : ℕ → Packet) (tx ty id j : ℕ) (q : Publish) (s : MqttShared)
      (e : EncodeError)
      → is_ready s ≡ true
      → 1 < s.cap
      → s.inflight ≡ []
      → has_id id s.inflight_ids ≡ false
      → has_id j (id ∷ s.inflight_ids) ≡ false
      → io_encode (packet id) ≡ err e
      → io_encode (Packet.publish (identified j q)) ≡ ok tt
      → let first : Started A = send_request io_encode tp packet false tx (some id) s in
        let second = send_at_least_once io_encode false ty (identified j q) first.shared in
        let last = pkt_ack alive (Ack.publish j) second.shared in
        (first.progress ≡ finished (err (encode_error e)))
        × (second.progress ≡ on_ack ty)
        × (second.effects ≡ encoded (Packet.publish (identified j q)) (ok tt) ∷ [])
        × (last.result ≡ err packet_id_mismatch)
        × (last.effects ≡ (if s.is_client then disconnect_sent ∷ [] else []) ++ (io_closed ∷ []))
        × (last.shared.inflight ≡ [])
  send_request-encode_error tp packet tx ty id j q s e ready room empty free_id free_j fails
        encodes =
      let one = request-leftover tp packet tx id s e ready free_id fails in
      let t : MqttShared = register id (some tx) tp s in
      let still_ready : is_ready t ≡ true = register-is_ready id tx tp s ready room empty in
      let two = publish-in_flight j ty q t still_ready free_j encodes in
      let other : (id == j) ≡ false = ground arith in
      let queue : (in_flight io_encode j ty q t).shared.inflight
          ≡ record { id = id; tx = some tx; tp = tp }
            ∷ record { id = j; tx = some ty; tp = publish_type }
            ∷ [] =
        ap
          (λ (l : List Waiting).
            (l ++ (record { id = id; tx = some tx; tp = tp } ∷ []))
            ++ (record { id = j; tx = some ty; tp = publish_type } ∷ []))
          empty in
      let last = mismatch _ ty j (in_flight io_encode j ty q t).shared queue other in
      rw (one, two) (refl, refl, refl, last.0, last.1, last.2)

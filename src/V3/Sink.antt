-- ===== src/V3/Sink.antt =====
-- The sink: how the application publishes, subscribes and unsubscribes (src/v3/sink.rs).
-- A future that has to wait is cut where it waits: a function runs up to that point and says what
-- is awaited, and another goes on from there with the answer. `tx` is the number of the channel
-- that a call makes. What a call of `io.encode` answers is `io_encode`, and whether the connection is
-- closed is `closed`: both are for ntex-io to say.
pub mod Refines
pub mod Overrun
pub mod Leftover
pub mod NoBlock
mod Tests
use mathlib.Core.Option.{Option, none, some}
use ntex_mqtt.Base.{
  ℕ, ◌==◌, Bool, true, false, not, List, [], ◌∷◌, ◌++◌, if◌then◌else◌, Result, ok, err, panic,
}
use ntex_mqtt.Wire.{EncodeError}
use ntex_mqtt.Types.{QoS}
use ntex_mqtt.V3.Packet
use ntex_mqtt.V3.Packet.{Packet, Publish, SubscribeReturnCode}
use ntex_mqtt.V3.Shared.State
use ntex_mqtt.V3.Shared.State.{
  Ack, AckType, publish_type, subscribe_type, unsubscribe_type, SendPacketError, encode_error,
  disconnected, Effect, encoded, MqttShared, next_id,
}
use ntex_mqtt.V3.Shared.Operations.{
  Outcome, wait_response, wait_packet_response, wait_packet_response_no_block, wait_readiness,
}

-- What a future awaits, or its result.
pub data Progress (A : Type 0) : Type 0 where
  on_readiness on_ack : ℕ → Progress A
  finished : Result SendPacketError A → Progress A

-- The state that a call leaves, what it did, and how far it came.
pub record Started (A : Type 0) : Type 0 where
  pub shared : MqttShared
  pub effects : List Effect
  pub progress : Progress A

-- The setters of the builders; `NonZeroU16::new` fails at 0.
abbrev pub checked_id : ℕ → Result (Unit {0}) (Option ℕ)
checked_id id = if id == 0 then panic else ok (some id)

abbrev pub set_dup : Publish → Bool → Publish
set_dup p val = record p { dup = val }

abbrev pub set_retain : Publish → Publish
set_retain p = record p { retain = true }

-- `MqttSink::publish`.
abbrev pub publish_packet : List ℕ → List ℕ → Publish
publish_packet topic payload = record {
  dup = false;
  retain = false;
  qos = QoS.at_most_once;
  topic = topic;
  packet_id = none;
  payload = payload;
}

abbrev pub with_qos : QoS → Publish → Publish
with_qos qos p = record p { qos = qos }

-- The id that the user set, or the next one.
abbrev pub choose_id : Option ℕ → MqttShared → Result (Unit {0}) (MqttShared × ℕ)
choose_id (some id) s = ok (s, id)
choose_id none s = next_id s

-- `MqttSink::ready`.
unfoldable pub ready : Bool → ℕ → MqttShared → MqttShared × Result (Unit {0}) (Option ℕ)
ready closed tx s =
    if closed then (s, err tt) else (let waits = wait_readiness tx s in (waits.0, ok waits.1))

-- `rx.await.map_err(|_| Disconnected)`, no answer when the other end was dropped.
abbrev pub on_answer :
    {A : Type 0} → (Ack → Result SendPacketError A) → Option Ack → Result SendPacketError A
on_answer f none = err disconnected
on_answer f (some a) = f a

-- What the futures make of an acknowledgement; `Ack::subscribe` panics at another kind.
abbrev pub acked_unit : Ack → Result SendPacketError (Unit {0})
acked_unit a = ok tt

abbrev pub acked_status : Ack → Result SendPacketError (List SubscribeReturnCode)
acked_status (Ack.subscribe id status) = ok status
acked_status (Ack.publish id) = panic
acked_status (Ack.unsubscribe id) = panic

-- `if let Some(rx) = shared.wait_readiness()`: it waits, or goes on at once.
abbrev pub after_readiness : {A : Type 0} → Option ℕ → MqttShared → Started A → Started A
after_readiness (some rx) s at_once = record {
  shared = s;
  effects = [];
  progress = on_readiness rx;
}
after_readiness none s at_once = at_once

module _ (io_encode : Packet → Result EncodeError (Unit {0})) where
  -- `io.encode`.
  abbrev pub encodes : Packet → List Effect
  encodes packet = encoded packet (io_encode packet) ∷ []

  unfoldable pub send_at_most_once : Bool → Publish → MqttShared → Started (Unit {0})
  send_at_most_once closed p s =
      let packet = Packet.publish (with_qos QoS.at_most_once p) in
      if closed
      then (record { shared = s; effects = []; progress = finished (err disconnected) })
      else elim (io_encode packet) [
        | ok _ ↦ record { shared = s; effects = encodes packet; progress = finished (ok tt) }
        | err e ↦ record {
          shared = s;
          effects = encodes packet;
          progress = finished (err (encode_error e));
        }
        | panic ↦ record { shared = s; effects = encodes packet; progress = finished panic }
      ]

  -- An entry was registered, or not.
  abbrev pub awaiting : {A : Type 0} → Result SendPacketError ℕ → Progress A
  awaiting (ok rx) = on_ack rx
  awaiting (err e) = finished (err e)
  awaiting panic = finished panic

  abbrev pub with_id : ℕ → Publish → Packet
  with_id id p = Packet.publish (record p { packet_id = some id })

  abbrev pub publish_with :
      ℕ → Publish → Result (Unit {0}) (MqttShared × ℕ) → MqttShared → Started (Unit {0})
  publish_with tx p (ok (t, id)) s =
      let packet = with_id id p in
      let o = wait_packet_response io_encode id publish_type packet tx t in
      record { shared = o.shared; effects = o.effects; progress = awaiting o.result }
  publish_with tx p (err u) s = record { shared = s; effects = []; progress = finished panic }
  publish_with tx p panic s = record { shared = s; effects = []; progress = finished panic }

  unfoldable pub send_at_least_once_inner : ℕ → Publish → MqttShared → Started (Unit {0})
  send_at_least_once_inner tx p s = publish_with tx p (choose_id p.packet_id s) s

  -- `send_at_least_once`, up to the first wait.
  unfoldable pub send_at_least_once : Bool → ℕ → Publish → MqttShared → Started (Unit {0})
  unfolding send_at_least_once_inner
  send_at_least_once closed tx p s =
      let packet = with_qos QoS.at_least_once p in
      let waits = wait_readiness tx s in
      if closed
      then (record { shared = s; effects = []; progress = finished (err disconnected) })
      else after_readiness waits.1 waits.0 (send_at_least_once_inner tx packet waits.0)

  -- Behind `rx.await` on the channel of readiness: it was woken, or the channel was dropped.
  unfoldable pub publish_when_woken : Bool → ℕ → Publish → MqttShared → Started (Unit {0})
  unfolding send_at_least_once_inner
  publish_when_woken woken tx p s =
      if woken
      then send_at_least_once_inner tx (with_qos QoS.at_least_once p) s
      else (record { shared = s; effects = []; progress = finished (err disconnected) })

  abbrev pub no_block_with :
      Publish → Result (Unit {0}) (MqttShared × ℕ) → MqttShared → Started (Unit {0})
  no_block_with p (ok (t, id)) s =
      let packet = with_id id p in
      let o = wait_packet_response_no_block io_encode id publish_type packet t in
      record { shared = o.shared; effects = o.effects; progress = finished o.result }
  no_block_with p (err u) s = record { shared = s; effects = []; progress = finished panic }
  no_block_with p panic s = record { shared = s; effects = []; progress = finished panic }

  unfoldable pub send_at_least_once_no_block : Bool → Publish → MqttShared → Started (Unit {0})
  send_at_least_once_no_block closed p s =
      let packet = with_qos QoS.at_least_once p in
      if closed
      then (record { shared = s; effects = []; progress = finished (err disconnected) })
      else if not (State.is_ready s)
      then (record { shared = s; effects = []; progress = finished panic })
      else no_block_with packet (choose_id packet.packet_id s) s

  -- `SubscribeBuilder::send` and `UnsubscribeBuilder::send` differ in the packet and in the kind of
  -- the acknowledgement. Both register the id and then encode.
  abbrev pub request_encoded :
      {A : Type 0} → Result SendPacketError ℕ → Result EncodeError (Unit {0}) → Progress A
  request_encoded (ok rx) (ok u) = on_ack rx
  request_encoded (ok rx) (err e) = finished (err (encode_error e))
  request_encoded (ok rx) panic = finished panic
  request_encoded (err e) answer = finished (err e)
  request_encoded panic answer = finished panic

  abbrev pub request_effects : Result SendPacketError ℕ → Packet → List Effect
  request_effects (ok rx) p = encodes p
  request_effects (err e) p = []
  request_effects panic p = []

  abbrev pub request_with :
      {A : Type 0}
      → ℕ
      → AckType
      → (ℕ → Packet)
      → Result (Unit {0}) (MqttShared × ℕ)
      → MqttShared
      → Started A
  request_with tx tp packet (ok (t, id)) s =
      let o = wait_response id tp tx t in
      record {
        shared = o.shared;
        effects = o.effects ++ request_effects o.result (packet id);
        progress = request_encoded o.result (io_encode (packet id));
      }
  request_with tx tp packet (err u) s = record {
    shared = s;
    effects = [];
    progress = finished panic;
  }
  request_with tx tp packet panic s = record { shared = s; effects = []; progress = finished panic }

  -- Up to the first wait, and behind it.
  unfoldable pub send_request :
      {A : Type 0} → AckType → (ℕ → Packet) → Bool → ℕ → Option ℕ → MqttShared → Started A
  send_request tp packet closed tx id s =
      let waits = wait_readiness tx s in
      if closed
      then (record { shared = s; effects = []; progress = finished (err disconnected) })
      else after_readiness waits.1 waits.0
          (request_with tx tp packet (choose_id id waits.0) waits.0)

  unfoldable pub request_when_woken :
      {A : Type 0} → AckType → (ℕ → Packet) → Bool → ℕ → Option ℕ → MqttShared → Started A
  request_when_woken tp packet woken tx id s =
      if woken
      then request_with tx tp packet (choose_id id s) s
      else (record { shared = s; effects = []; progress = finished (err disconnected) })

  unfoldable pub send_subscribe :
      List (List ℕ × QoS) → Bool → ℕ → Option ℕ → MqttShared → Started (List SubscribeReturnCode)
  unfolding send_request
  send_subscribe filters = send_request subscribe_type (λ id. Packet.subscribe id filters)

  unfoldable pub send_unsubscribe :
      List (List ℕ) → Bool → ℕ → Option ℕ → MqttShared → Started (Unit {0})
  unfolding send_request
  send_unsubscribe filters = send_request unsubscribe_type (λ id. Packet.unsubscribe id filters)

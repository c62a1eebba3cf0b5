-- ===== src/V3/Shared/Operations.antt =====
-- The operations of `MqttShared` on its queues (src/v3/shared.rs).
use mathlib.Core.Option.{Option, none, some}
use ntex_mqtt.Base.{
  ℕ, Bool, true, false, not, ◌||◌, List, [], ◌∷◌, ◌++◌, leb, ◌==◌, if◌then◌else◌, length, Result,
  ok, err, panic,
}
use ntex_mqtt.Wire.{EncodeError}
use ntex_mqtt.V3.Packet.{Packet}
use ntex_mqtt.V3.Shared.State.{
  Ack, AckType, ack_packet_type, ack_packet_id, is_match, Waiting, Effect, encoded, acked, callback,
  disconnect_sent, io_closed, io_force_closed, AckViolation, packet_id_mismatch, generic_violation,
  unexpected_packet, SendPacketError, encode_error, packet_id_in_use, MqttShared, has_id, remove_id,
  wake_one,
}

unfoldable pub set_publish_ack : MqttShared → MqttShared
set_publish_ack s = record s { on_publish_ack_flag = true; on_publish_ack = true }

unfoldable pub enable_wr_backpressure : MqttShared → MqttShared
enable_wr_backpressure s = record s { wrb_enabled = true }

-- The calls of the callback with the state "disconnected", on the entries without a channel.
abbrev pub disconnected_callbacks : List Waiting → List Effect
disconnected_callbacks [] = []
disconnected_callbacks (w ∷ ws) = elim w.tx [
  | none ↦ callback w.id true ∷ disconnected_callbacks ws
  | some tx ↦ disconnected_callbacks ws
]

-- `inflight_ids` stays as it is.
unfoldable pub clear_queues : MqttShared → MqttShared × List Effect
clear_queues s = (
  record s { waiters = []; inflight = []; on_publish_ack = false },
  if s.on_publish_ack then disconnected_callbacks s.inflight else [],
)

-- Encoding `Packet::Disconnect` cannot fail: it is two bytes.
unfoldable pub close : MqttShared → MqttShared × List Effect
unfolding clear_queues
close s =
    let cleared = clear_queues s in
    (cleared.0, (if s.is_client then disconnect_sent ∷ [] else []) ++ (io_closed ∷ cleared.1))

unfoldable pub force_close : MqttShared → MqttShared × List Effect
unfolding clear_queues
force_close s = let cleared = clear_queues s in (cleared.0, io_force_closed ∷ cleared.1)

-- What an operation leaves, what it did, and what it answers.
pub record Outcome (E A : Type 0) : Type 0 where
  pub shared : MqttShared
  pub effects : List Effect
  pub result : Result E A

-- The closure of `pkt_ack`.
unfoldable pub close_on_error : Outcome AckViolation (Unit {0}) → Outcome AckViolation (Unit {0})
unfolding close
close_on_error inner = elim inner.result [
  | ok _ ↦ inner
  | err e ↦
      let closed = close inner.shared in
      record { shared = closed.0; effects = inner.effects ++ closed.1; result = err e }
  | panic ↦ inner
]

module _ (alive : ℕ → Bool) where
  -- `send` answers `Err` when nobody waits, which the code ignores.
  abbrev pub send_ack : ℕ → Ack → List Effect
  send_ack tx ack = if alive tx then acked tx ack ∷ [] else []

  -- The acknowledged task, then a task that waits for readiness.
  unfoldable pub deliver : Waiting → Ack → MqttShared → Outcome AckViolation (Unit {0})
  unfolding wake_one
  deliver w pkt s =
      let woke = wake_one alive s.waiters in
      elim w.tx [
        | some tx ↦ record {
          shared = record s { waiters = woke.0 };
          effects = send_ack tx pkt ++ woke.1;
          result = ok tt;
        }
        | none ↦
            if s.on_publish_ack
            then (record {
              shared = record s { waiters = woke.0 };
              effects = callback (ack_packet_id pkt) false ∷ woke.1;
              result = ok tt;
            })
            else (record { shared = s; effects = []; result = panic })
      ]

  unfoldable pub pkt_ack_inner : Ack → MqttShared → Outcome AckViolation (Unit {0})
  unfolding deliver
  pkt_ack_inner pkt s = elim s.inflight [
    | [] ↦ record { shared = s; effects = []; result = err generic_violation }
    | w ∷ rest ↦
        let popped = record s { inflight = rest } in
        let freed = record s {
          inflight = rest;
          inflight_ids = remove_id (ack_packet_id pkt) s.inflight_ids;
        } in
        if not (w.id == ack_packet_id pkt)
        then (record { shared = popped; effects = []; result = err packet_id_mismatch })
        else if is_match pkt w.tp
        then deliver w pkt freed
        else (record {
          shared = freed;
          effects = [];
          result = err (unexpected_packet (ack_packet_type pkt) w.tp);
        })
  ]

  unfoldable pub pkt_ack : Ack → MqttShared → Outcome AckViolation (Unit {0})
  unfolding pkt_ack_inner close_on_error
  pkt_ack pkt s = close_on_error (pkt_ack_inner pkt s)

abbrev pub register : ℕ → Option ℕ → AckType → MqttShared → MqttShared
register id tx tp s = record s {
  inflight = s.inflight ++ (record { id = id; tx = tx; tp = tp } ∷ []);
  inflight_ids = id ∷ s.inflight_ids;
}

-- `wait_response`: the answer is the channel `tx`, which is new.
unfoldable pub wait_response : ℕ → AckType → ℕ → MqttShared → Outcome SendPacketError ℕ
wait_response id tp tx s =
    if has_id id s.inflight_ids
    then (record { shared = s; effects = []; result = err (packet_id_in_use id) })
    else (record { shared = register id (some tx) tp s; effects = []; result = ok tx })

module _ (io_encode : Packet → Result EncodeError (Unit {0})) where
  unfoldable pub wait_packet_response :
      ℕ → AckType → Packet → ℕ → MqttShared → Outcome SendPacketError ℕ
  wait_packet_response id tp pkt tx s =
      let effects = encoded pkt (io_encode pkt) ∷ [] in
      if has_id id s.inflight_ids
      then (record { shared = s; effects = []; result = err (packet_id_in_use id) })
      else elim (io_encode pkt) [
        | ok _ ↦ record { shared = register id (some tx) tp s; effects = effects; result = ok tx }
        | err e ↦ record { shared = s; effects = effects; result = err (encode_error e) }
        | panic ↦ record { shared = s; effects = effects; result = panic }
      ]

  unfoldable pub wait_packet_response_no_block :
      ℕ → AckType → Packet → MqttShared → Outcome SendPacketError (Unit {0})
  wait_packet_response_no_block id tp pkt s =
      let effects = encoded pkt (io_encode pkt) ∷ [] in
      if has_id id s.inflight_ids
      then (record { shared = s; effects = []; result = err (packet_id_in_use id) })
      else elim (io_encode pkt) [
        | ok _ ↦ record {
          shared = register id none tp s;
          effects = effects;
          result = if s.on_publish_ack_flag then ok tt else panic;
        }
        | err e ↦ record { shared = s; effects = effects; result = err (encode_error e) }
        | panic ↦ record { shared = s; effects = effects; result = panic }
      ]

-- `wait_readiness`: no channel when the sink is ready.
unfoldable pub wait_readiness : ℕ → MqttShared → MqttShared × Option ℕ
wait_readiness tx s =
    if leb s.cap (length s.inflight) || s.wrb_enabled
    then (record s { waiters = s.waiters ++ (tx ∷ []) }, some tx)
    else (s, none)

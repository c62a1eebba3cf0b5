-- ===== src/V3/Shared/State.antt =====
-- The acknowledgements that a connection waits for (src/v3/shared.rs).
-- A `VecDeque` is a list, its front first. The other ends of the channels are other tasks: a
-- channel is a number, and `alive` says whose receiver has not been dropped, so that `send`
-- answers `Ok`. What the operations do to the channels, to the callback and to the connection is
-- the list of their effects, in order. Encoding into the connection is for ntex-io: what a call
-- of `io.encode` answers is the argument `io_encode`, and the call is an effect. `usize` and the numbers of the channels do not wrap.
use mathlib.Core.Option.{Option}
use ntex_mqtt.Base.{
  ℕ, ◌+◌, ◌-◌, Bool, true, false, not, ◌&&◌, List, [], ◌∷◌, ltb, leb, ◌==◌, if◌then◌else◌, length,
  Result, ok, panic, any,
}
use ntex_mqtt.Wire.{EncodeError}
use ntex_mqtt.Types
use ntex_mqtt.V3.Packet.{Packet, SubscribeReturnCode}

pub data Ack : Type 0 where
  publish : ℕ → Ack
  subscribe : ℕ → List SubscribeReturnCode → Ack
  unsubscribe : ℕ → Ack

pub data AckType : Type 0 where
  publish_type subscribe_type unsubscribe_type : AckType

-- `Ack::packet_type`, `packet_id` and `is_match`.
abbrev pub ack_packet_type : Ack → ℕ
ack_packet_type (publish id) = Types.PacketType.puback
ack_packet_type (subscribe id status) = Types.PacketType.suback
ack_packet_type (unsubscribe id) = Types.PacketType.unsuback

abbrev pub ack_packet_id : Ack → ℕ
ack_packet_id (publish id) = id
ack_packet_id (subscribe id status) = id
ack_packet_id (unsubscribe id) = id

abbrev pub is_match : Ack → AckType → Bool
is_match (publish id) publish_type = true
is_match (subscribe id status) subscribe_type = true
is_match (unsubscribe id) unsubscribe_type = true
is_match _ _ = false

-- An entry of `inflight`: the packet id, the channel of the task that waits, if one does, and the
-- kind of the acknowledgement.
pub record Waiting : Type 0 where
  pub id : ℕ
  pub tx : Option ℕ
  pub tp : AckType

pub data Effect : Type 0 where
  -- `io.encode` of a packet, and what it answered. Of a packet that it refuses it may have written
  -- the start.
  encoded : Packet → Result EncodeError (Unit {0}) → Effect
  -- `tx.send(ack)`, `tx.send(())` to a task that waits for readiness, and the callback.
  acked : ℕ → Ack → Effect
  woken : ℕ → Effect
  callback : ℕ → Bool → Effect
  -- `Packet::Disconnect`, `io.close()`, `io.force_close()`.
  disconnect_sent io_closed io_force_closed : Effect

-- The `ProtocolError`s that the queue makes, each named as the function that builds it; the texts
-- of their messages are left out.
pub data AckViolation : Type 0 where
  packet_id_mismatch generic_violation : AckViolation
  unexpected_packet : ℕ → AckType → AckViolation

pub data SendPacketError : Type 0 where
  encode_error : EncodeError → SendPacketError
  packet_id_in_use : ℕ → SendPacketError
  disconnected : SendPacketError

-- `MqttShared` with its `MqttSharedQueues`. The flag `ON_PUBLISH_ACK` and the callback's cell are
-- two fields: `clear_queues` empties the cell and keeps the flag.
pub record MqttShared : Type 0 where
  pub cap : ℕ
  pub inflight : List Waiting
  pub inflight_ids : List ℕ
  pub waiters : List ℕ
  pub inflight_idx : ℕ
  pub is_client : Bool
  pub wrb_enabled : Bool
  pub on_publish_ack_flag : Bool
  pub on_publish_ack : Bool

-- `MqttShared::new`.
unfoldable pub new : Bool → MqttShared
new client = record {
  cap = 0;
  inflight = [];
  inflight_ids = [];
  waiters = [];
  inflight_idx = 0;
  is_client = client;
  wrb_enabled = false;
  on_publish_ack_flag = false;
  on_publish_ack = false;
}

unfoldable pub credit : MqttShared → ℕ
credit s = s.cap - length s.inflight

unfoldable pub is_ready : MqttShared → Bool
unfolding credit
is_ready s = ltb 0 (credit s) && not s.wrb_enabled

-- `next_id`. `idx + 1` overflows from 65535 on: a panic in a debug build.
unfoldable pub next_id : MqttShared → Result (Unit {0}) (MqttShared × ℕ)
next_id s =
    let idx = s.inflight_idx + 1 in
    if leb 65536 idx
    then panic
    else if idx == 65535
    then ok (record s { inflight_idx = 0 }, 65535)
    else ok (record s { inflight_idx = idx }, idx)

-- `HashSet::contains` and `remove`.
abbrev pub has_id : ℕ → List ℕ → Bool
has_id id ids = any (λ x. x == id) ids

abbrev pub remove_id : ℕ → List ℕ → List ℕ
remove_id id [] = []
remove_id id (x ∷ xs) = let rest = remove_id id xs in if x == id then rest else x ∷ rest

module _ (alive : ℕ → Bool) where
  -- `while let Some(tx) = waiters.pop_front() { if tx.send(()).is_ok() { break } }`: the waiters
  -- left, and whom it woke.
  unfoldable pub wake_one : List ℕ → List ℕ × List Effect
  wake_one [] = ([], [])
  wake_one (w ∷ ws) = let rest = wake_one ws in if alive w then (ws, woken w ∷ []) else rest

  -- The loops of `set_cap` and `disable_wr_backpressure`: they wake up to `n` tasks.
  unfoldable pub wake_many : ℕ → List ℕ → List ℕ × List Effect
  wake_many ℕ.zero ws = (ws, [])
  wake_many (ℕ.suc n) [] = ([], [])
  wake_many (ℕ.suc n) (w ∷ ws) =
      let after_wake = wake_many n ws in
      let after_skip = wake_many (ℕ.suc n) ws in
      if alive w then (after_wake.0, woken w ∷ after_wake.1) else after_skip

  unfoldable pub set_cap : ℕ → MqttShared → MqttShared × List Effect
  unfolding wake_many
  set_cap cap s =
      let (ws, effects) = wake_many cap s.waiters in (record s { waiters = ws; cap = cap }, effects)

  unfoldable pub disable_wr_backpressure : MqttShared → MqttShared × List Effect
  unfolding wake_many
  disable_wr_backpressure s =
      let woke = wake_many (s.cap - length s.inflight) s.waiters in
      if ltb (length s.inflight) s.cap
      then (record s { wrb_enabled = false; waiters = woke.0 }, woke.1)
      else (record s { wrb_enabled = false }, [])

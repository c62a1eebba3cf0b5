-- ===== src/V3/Shared/Runs.antt =====
-- Runs of a connection that stays open (src/v3/shared.rs).
use mathlib.Core.Option.{none, some}
use mathlib.Core.Path.{subst}
use ntex_mqtt.Base.{
  ℕ, ◌+◌, ◌≡◌, ◌≢◌, refl, ◌∙◌, Bool, false, ◌||◌, ltb, leb, ◌==◌, if◌then◌else◌, length, arith,
  Bool-cases, inl, inr, Result, ok, err, panic,
}
use ntex_mqtt.Wire.{EncodeError}
use ntex_mqtt.V3.Packet.{Packet}
use ntex_mqtt.V3.Shared.State.{
  Ack, AckType, MqttShared, new, next_id, has_id, set_cap, disable_wr_backpressure,
  packet_id_in_use,
}
use ntex_mqtt.V3.Shared.Operations.{
  set_publish_ack, enable_wr_backpressure, pkt_ack, wait_response, wait_packet_response,
  wait_packet_response_no_block, wait_readiness,
}
use ntex_mqtt.V3.Shared.Ids.{IsOpen, ids_of, Distinct, register-IsOpen}
use ntex_mqtt.V3.Shared.Order.{pkt_ack_branches}

-- An operation of the dispatcher or of a sink that leaves the connection open.
pub data Step (alive : ℕ → Bool) (s : MqttShared) : MqttShared → Type 0 where
  caps : (n : ℕ) → Step alive s (set_cap alive n s).0
  sets_publish_ack : Step alive s (set_publish_ack s)
  enables : Step alive s (enable_wr_backpressure s)
  disables : Step alive s (disable_wr_backpressure alive s).0
  waits_readiness : (tx : ℕ) → Step alive s (wait_readiness tx s).0
  takes_id : (t : MqttShared) (id : ℕ) → next_id s ≡ ok (t, id) → Step alive s t
  waits_response : (id tx : ℕ) (tp : AckType) → Step alive s (wait_response id tp tx s).shared
  waits_packet_response :
      (io_encode : Packet → Result EncodeError (Unit {0})) (id tx : ℕ) (tp : AckType) (pkt : Packet)
      → Step alive s (wait_packet_response io_encode id tp pkt tx s).shared
  waits_no_block :
      (io_encode : Packet → Result EncodeError (Unit {0})) (id : ℕ) (tp : AckType) (pkt : Packet)
      → (wait_packet_response_no_block io_encode id tp pkt s).result ≢ panic
      → Step alive s (wait_packet_response_no_block io_encode id tp pkt s).shared
  acks : (a : Ack) → (pkt_ack alive a s).result ≡ ok tt → Step alive s (pkt_ack alive a s).shared

pub data Reach (alive : ℕ → Bool) (s : MqttShared) : MqttShared → Type 0 where
  here : Reach alive s s
  next : {t u : MqttShared} → Reach alive s t → Step alive t u → Reach alive s u

wait_response-IsOpen :
    (id tx : ℕ) (tp : AckType) (s : MqttShared)
    → IsOpen s
    → IsOpen (wait_response id tp tx s).shared
unfolding wait_response
wait_response-IsOpen id tx tp s v = elim (Bool-cases (has_id id s.inflight_ids)) [
  | inl used ↦ rw used v
  | inr free ↦ rw free (register-IsOpen id (some tx) tp s v free refl)
]

module _ (io_encode : Packet → Result EncodeError (Unit {0})) (id : ℕ) (tp : AckType) (pkt : Packet)
    (s : MqttShared) (v : IsOpen s) where
  wait_packet_response-IsOpen :
      (tx : ℕ) → IsOpen (wait_packet_response io_encode id tp pkt tx s).shared
  unfolding wait_packet_response
  wait_packet_response-IsOpen tx = elim (Bool-cases (has_id id s.inflight_ids)) [
    | inl used ↦ rw used v
    | inr free ↦ by_answer free (io_encode pkt) refl
  ]
    where
      by_answer :
          has_id id s.inflight_ids ≡ false
          → (r : Result EncodeError (Unit {0})) → io_encode pkt ≡ r
          → IsOpen (wait_packet_response io_encode id tp pkt tx s).shared
      by_answer free (ok u) e = rw (free, e) (register-IsOpen id (some tx) tp s v free refl)
      by_answer free (err x) e = rw (free, e) v
      by_answer free panic e = rw (free, e) v

  no_block-IsOpen :
      (wait_packet_response_no_block io_encode id tp pkt s).result ≢ panic
      → IsOpen (wait_packet_response_no_block io_encode id tp pkt s).shared
  unfolding wait_packet_response_no_block
  no_block-IsOpen h = elim (Bool-cases (has_id id s.inflight_ids)) [
    | inl used ↦ rw used v
    | inr free ↦ by_answer free (io_encode pkt) refl
  ]
    where
      by_answer :
          has_id id s.inflight_ids ≡ false
          → (r : Result EncodeError (Unit {0})) → io_encode pkt ≡ r
          → IsOpen (wait_packet_response_no_block io_encode id tp pkt s).shared
      by_answer free (ok u) e = elim (Bool-cases s.on_publish_ack_flag) [
        | inl set ↦ simp (free, e) (register-IsOpen id none tp s v free (ground (arith, v.flagged)))
        | inr unset ↦ absurd (h (rw (free, e, unset) refl))
      ]
      by_answer free (err x) e = rw (free, e) v
      by_answer free panic e = rw (free, e) v

-- Fields that the invariant does not speak of.
same_queues-IsOpen :
    (s t : MqttShared)
    → t.inflight ≡ s.inflight
    → t.inflight_ids ≡ s.inflight_ids
    → t.on_publish_ack ≡ s.on_publish_ack
    → t.on_publish_ack_flag ≡ s.on_publish_ack_flag
    → IsOpen s
    → IsOpen t
same_queues-IsOpen s t queue ids call flag v = record {
  same = λ id. rw (queue, ids) (v.same id);
  distinct = rw queue v.distinct;
  answered = rw (queue, call) v.answered;
  flagged = rw (flag, call) v.flagged;
}

next_id-IsOpen : (s t : MqttShared) (id : ℕ) → next_id s ≡ ok (t, id) → IsOpen s → IsOpen t
unfolding next_id
next_id-IsOpen s t id e v = elim (Bool-cases (leb 65536 (s.inflight_idx + 1))) [
  | inl over ↦ cc (rw over at e)
  | inr fits ↦ elim (Bool-cases (s.inflight_idx + 1 == 65535)) [
    | inl last ↦
        let same : record s { inflight_idx = 0 } ≡ t = cc (rw (fits, last) at e) in
        subst IsOpen same (same_queues-IsOpen s _ refl refl refl refl v)
    | inr more ↦
        let same : record s { inflight_idx = s.inflight_idx + 1 } ≡ t = cc (rw (fits, more) at e) in
        subst IsOpen same (same_queues-IsOpen s _ refl refl refl refl v)
  ]
]

Step-IsOpen : {alive : ℕ → Bool} {s t : MqttShared} → Step alive s t → IsOpen s → IsOpen t
unfolding set_cap set_publish_ack enable_wr_backpressure disable_wr_backpressure wait_readiness
    next_id
Step-IsOpen {alive} {s} (caps n) v = same_queues-IsOpen s _ refl refl refl refl v
Step-IsOpen {alive} {s} sets_publish_ack v = record {
  same = v.same;
  distinct = v.distinct;
  answered = ground arith;
  flagged = refl;
}
Step-IsOpen {alive} {s} enables v = same_queues-IsOpen s _ refl refl refl refl v
Step-IsOpen {alive} {s} disables v = elim (Bool-cases (ltb (length s.inflight) s.cap)) [
  | inl room ↦ rw room (same_queues-IsOpen s _ refl refl refl refl v)
  | inr full ↦ rw full (same_queues-IsOpen s _ refl refl refl refl v)
]
Step-IsOpen {alive} {s} (waits_readiness tx) v =
    elim (Bool-cases (leb s.cap (length s.inflight) || s.wrb_enabled)) [
      | inl full ↦ rw full (same_queues-IsOpen s _ refl refl refl refl v)
      | inr ready ↦ rw ready v
    ]
Step-IsOpen {alive} {s} (takes_id t id e) v = next_id-IsOpen s t id e v
Step-IsOpen {alive} {s} (waits_response id tx tp) v = wait_response-IsOpen id tx tp s v
Step-IsOpen {alive} {s} (waits_packet_response io_encode id tx tp pkt) v =
    wait_packet_response-IsOpen io_encode id tp pkt s v tx
Step-IsOpen {alive} {s} (waits_no_block io_encode id tp pkt h) v =
    no_block-IsOpen io_encode id tp pkt s v h
Step-IsOpen {alive} {s} (acks a h) v = elim (pkt_ack_branches alive a s v) [
  | inl (expected, taken) ↦ taken.still_open
  | inr (unexpected, closed) ↦ let (e, failed) = closed.refused in cc (failed, h)
]

new-IsOpen : (client : Bool) → IsOpen (new client)
unfolding new
new-IsOpen client = record { same = λ id. refl; distinct = tt; answered = refl; flagged = refl }

pub Reach-IsOpen : {alive : ℕ → Bool} {s t : MqttShared} → IsOpen s → Reach alive s t → IsOpen t
Reach-IsOpen v here = v
Reach-IsOpen v (next r st) = Step-IsOpen st (Reach-IsOpen v r)

-- In every state that the operations of the dispatcher and the sinks reach from a new connection
-- without closing it: no two packets in flight have the same id; an id counts as in use exactly
-- when a packet in flight has it, so that `wait_response` refuses exactly these; and no
-- acknowledgement that arrives makes `pkt_ack` panic.
pub Reach-ids :
    {alive : ℕ → Bool} (client : Bool) {t : MqttShared}
    → Reach alive (new client) t
    → (a : Ack) (id tx : ℕ) (tp : AckType)
    → Distinct (ids_of t.inflight)
      × (has_id id t.inflight_ids ≡ has_id id (ids_of t.inflight))
      × ((wait_response id tp tx t).result
          ≡ (if has_id id (ids_of t.inflight) then err (packet_id_in_use id) else ok tx))
      × ((pkt_ack alive a t).result ≢ panic)
unfolding wait_response
Reach-ids {alive} client {t} r a id tx tp =
    let v = Reach-IsOpen (new-IsOpen client) r in
    (
      v.distinct,
      v.same id,
      elim (Bool-cases (has_id id (ids_of t.inflight))) [
        | inl used ↦ rw (v.same id ∙ used, used) refl
        | inr free ↦ rw (v.same id ∙ free, free) refl
      ],
      elim (pkt_ack_branches alive a t v) [
        | inl (expected, taken) ↦ λ p. cc (p, taken.accepted)
        | inr (unexpected, closed) ↦ λ p. let (e, failed) = closed.refused in cc (p, failed)
      ],
    )

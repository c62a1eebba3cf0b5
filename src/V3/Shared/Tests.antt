-- ===== src/V3/Shared/Tests.antt =====
-- A sink with a SUBSCRIBE and a PUBLISH packet in flight, and the theorems at it.
use mathlib.Core.Option.{none, some}
use ntex_mqtt.Base.{
  ℕ, ◌+◌, ◌%◌, ◌≡◌, ◌≢◌, ◌⊎◌, refl, Bool, true, false, ◌==◌, List, [], ◌∷◌, ◌++◌, map, take, drop,
  arith, if◌then◌else◌, ok, err, panic,
}
use ntex_mqtt.V3.Shared.State.{
  Ack, publish_type, subscribe_type, Waiting, woken, packet_id_in_use, MqttShared, new, credit,
  is_ready, has_id, set_cap, disable_wr_backpressure,
}
use ntex_mqtt.V3.Shared.Operations.{pkt_ack, wait_response, wait_readiness}
use ntex_mqtt.V3.Shared.Ids.{IsOpen, ids_of, Distinct}
use ntex_mqtt.V3.Shared.Wakes.{live, set_cap-disable_wr_backpressure, wait_readiness-is_ready}
use ntex_mqtt.V3.Shared.Order.{Accepted, Refused, is_expected, pkt_ack_branches}
use ntex_mqtt.V3.Shared.Runs.{Reach, here, next, caps, waits_response, Reach-ids}
use ntex_mqtt.V3.Shared.Acks.{InOrder, pkt_acks, pkt_acks-InOrder}
use ntex_mqtt.V3.Shared.NextId.{nth_id, nth_id-cycle}

-- The receiver of channel 8 has been dropped.
abbrev alive : ℕ → Bool
alive tx = if tx == 8 then false else true

abbrev first : Waiting
first = record { id = 1; tx = some 10; tp = subscribe_type }

abbrev second : Waiting
second = record { id = 2; tx = none; tp = publish_type }

abbrev busy : MqttShared
busy = record {
  cap = 4;
  inflight = first ∷ second ∷ [];
  inflight_ids = 2 ∷ 1 ∷ [];
  waiters = 8 ∷ 9 ∷ [];
  inflight_idx = 2;
  is_client = false;
  wrb_enabled = true;
  on_publish_ack_flag = true;
  on_publish_ack = true;
}

busy-IsOpen : IsOpen busy
busy-IsOpen = record {
  same = λ id. ground arith;
  distinct = (refl, (refl, tt));
  answered = refl;
  flagged = refl;
}

abbrev acks : List Ack
acks = Ack.subscribe 1 [] ∷ Ack.publish 2 ∷ []

pkt_acks-InOrder_example : InOrder alive (first ∷ second ∷ []) [] acks (pkt_acks alive acks busy)
pkt_acks-InOrder_example =
    pkt_acks-InOrder alive (first ∷ second ∷ []) [] acks busy busy-IsOpen refl (refl, (refl, tt))

pkt_ack_branches_example :
    ((is_expected busy.inflight (Ack.publish 2) ≡ true)
      × Accepted alive (Ack.publish 2) busy (pkt_ack alive (Ack.publish 2) busy))
    ⊎ ((is_expected busy.inflight (Ack.publish 2) ≡ false)
        × Refused alive busy (pkt_ack alive (Ack.publish 2) busy))
pkt_ack_branches_example = pkt_ack_branches alive (Ack.publish 2) busy busy-IsOpen

abbrev waited : MqttShared
waited = (wait_response 5 subscribe_type 11 (set_cap alive 3 (new true)).0).shared

to_waited : Reach alive (new true) waited
to_waited = next (next here (caps 3)) (waits_response 5 11 subscribe_type)

Reach-ids_example :
    Distinct (ids_of waited.inflight)
    × (has_id 5 waited.inflight_ids ≡ has_id 5 (ids_of waited.inflight))
    × ((wait_response 5 publish_type 12 waited).result
        ≡ (if has_id 5 (ids_of waited.inflight) then err (packet_id_in_use 5) else ok 12))
    × ((pkt_ack alive (Ack.publish 7) waited).result ≢ panic)
Reach-ids_example = Reach-ids true to_waited (Ack.publish 7) 5 12 publish_type

nth_id-cycle_example :
    (nth_id 65536 (new true) ≡ ok (65536 % 65535 + 1))
    × (nth_id 7 (new true) ≢ nth_id 65536 (new true))
nth_id-cycle_example = nth_id-cycle true 7 65536 (omega arith) (omega arith)

set_cap-disable_wr_backpressure_example :
    ((set_cap alive 1 busy).1 ≡ map woken (take 1 (live alive busy.waiters)))
    × (live alive (set_cap alive 1 busy).0.waiters ≡ drop 1 (live alive busy.waiters))
    × ((disable_wr_backpressure alive busy).1
        ≡ map woken (take (credit busy) (live alive busy.waiters)))
    × (live alive (disable_wr_backpressure alive busy).0.waiters
        ≡ drop (credit busy) (live alive busy.waiters))
set_cap-disable_wr_backpressure_example = set_cap-disable_wr_backpressure alive 1 busy

wait_readiness-is_ready_example : wait_readiness 13 busy ≡ (
    if is_ready busy
    then (busy, none)
    else (record busy { waiters = busy.waiters ++ (13 ∷ []) }, some 13))
wait_readiness-is_ready_example = wait_readiness-is_ready 13 busy

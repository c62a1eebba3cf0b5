-- ===== src/V5/Codec/ProblemInfo.antt =====
-- The flag NO_PROBLEM_INFO between `decode` and `encode` (src/v5/codec/codec.rs).
use mathlib.Core.Option.{Option, none, some}
use ntex_mqtt.Base.{ℕ, ◌<◌, ◌≡◌, refl, ap, ◌∙◌, Bool, true, false, not, List, [], ok, arith}
use ntex_mqtt.Base.Masks.{holds_below, holds_below_at}
use ntex_mqtt.Types.{contains}
use ntex_mqtt.V5.Packet.{Packet, Connect, UserProperties, ByteString}
use ntex_mqtt.V5.Codec.{Codec, set_flag, no_problem_info, without_problem_info, sent, decode}
use ntex_mqtt.V5.Codec.Limits.{IsSound, flags_after, decode-IsGuarded}

-- The flag is what it was set to.
set_flag-contains :
    (flags : ℕ) (b : Bool)
    → flags < 256
    → contains (set_flag flags no_problem_info b) no_problem_info ≡ b
unfolding holds_below
set_flag-contains flags true h =
    holds_below_at 256 (λ x. contains (set_flag x no_problem_info true) no_problem_info) flags refl
      h
set_flag-contains flags false h =
    let e =
      holds_below_at 256 (λ x. not (contains (set_flag x no_problem_info false) no_problem_info))
        flags refl h in
    ground arith

-- Problem information: the user properties and the reason string of the packets that must not hold
-- any when it is not asked for. CONNACK, PUBLISH and DISCONNECT may hold theirs all the same.
abbrev pub problem_info : Packet → UserProperties × Option ByteString
problem_info (Packet.publish_ack a) = (a.properties, a.reason_string)
problem_info (Packet.publish_received a) = (a.properties, a.reason_string)
problem_info (Packet.publish_release a) = (a.properties, a.reason_string)
problem_info (Packet.publish_complete a) = (a.properties, a.reason_string)
problem_info (Packet.subscribe s) = (s.user_properties, none)
problem_info (Packet.subscribe_ack a) = (a.properties, a.reason_string)
problem_info (Packet.unsubscribe u) = (u.user_properties, none)
problem_info (Packet.unsubscribe_ack a) = (a.properties, a.reason_string)
problem_info (Packet.auth a) = (a.user_properties, a.reason_string)
problem_info _ = ([], none)

abbrev pub with_problem_info : UserProperties × Option ByteString → Packet → Packet
with_problem_info (ups, reason) (Packet.publish_ack a) =
    Packet.publish_ack (record a { properties = ups; reason_string = reason })
with_problem_info (ups, reason) (Packet.publish_received a) =
    Packet.publish_received (record a { properties = ups; reason_string = reason })
with_problem_info (ups, reason) (Packet.publish_release a) =
    Packet.publish_release (record a { properties = ups; reason_string = reason })
with_problem_info (ups, reason) (Packet.publish_complete a) =
    Packet.publish_complete (record a { properties = ups; reason_string = reason })
with_problem_info (ups, reason) (Packet.subscribe s) =
    Packet.subscribe (record s { user_properties = ups })
with_problem_info (ups, reason) (Packet.subscribe_ack a) =
    Packet.subscribe_ack (record a { properties = ups; reason_string = reason })
with_problem_info (ups, reason) (Packet.unsubscribe u) =
    Packet.unsubscribe (record u { user_properties = ups })
with_problem_info (ups, reason) (Packet.unsubscribe_ack a) =
    Packet.unsubscribe_ack (record a { properties = ups; reason_string = reason })
with_problem_info (ups, reason) (Packet.auth a) =
    Packet.auth (record a { user_properties = ups; reason_string = reason })
with_problem_info info p = p

-- What is sent for an item when problem information is asked for, and when it is not.
abbrev pub Heeds : Bool → Packet → Packet → Type 0
Heeds true item out = out ≡ item
Heeds false item out =
    (problem_info out ≡ ([], none)) × (with_problem_info (problem_info item) out ≡ item)

without_problem_info-Heeds : (p : Packet) → Heeds false p (without_problem_info p)
without_problem_info-Heeds (Packet.connect c) = (refl, refl)
without_problem_info-Heeds (Packet.connect_ack a) = (refl, refl)
without_problem_info-Heeds (Packet.publish p) = (refl, refl)
without_problem_info-Heeds (Packet.publish_ack a) = (refl, refl)
without_problem_info-Heeds (Packet.publish_received a) = (refl, refl)
without_problem_info-Heeds (Packet.publish_release a) = (refl, refl)
without_problem_info-Heeds (Packet.publish_complete a) = (refl, refl)
without_problem_info-Heeds (Packet.subscribe s) = (refl, refl)
without_problem_info-Heeds (Packet.subscribe_ack a) = (refl, refl)
without_problem_info-Heeds (Packet.unsubscribe u) = (refl, refl)
without_problem_info-Heeds (Packet.unsubscribe_ack a) = (refl, refl)
without_problem_info-Heeds Packet.ping_request = (refl, refl)
without_problem_info-Heeds Packet.ping_response = (refl, refl)
without_problem_info-Heeds (Packet.disconnect d) = (refl, refl)
without_problem_info-Heeds (Packet.auth a) = (refl, refl)

by_flag :
    (c : Codec) (item : Packet) (asked : Bool)
    → contains c.flags no_problem_info ≡ not asked
    → Heeds asked item (sent c item)
by_flag c item true e = rw e refl
by_flag c item false e = simp e (without_problem_info-Heeds item)

-- Once a codec (whose flags are a `u8`, and whose begun frame, if it has one, is within its inbound
-- limit) has decoded a CONNECT packet, it sends an item as it is when that packet asked for problem
-- information. When the packet did not, an acknowledgement, a SUBSCRIBE, SUBACK, UNSUBSCRIBE,
-- UNSUBACK or AUTH packet is sent without its reason string and user properties, and is the item
-- again once those are put back, and every other packet, CONNACK, PUBLISH and DISCONNECT among
-- them, is sent as it is.
pub sent-Heeds :
    (utf8 : List ℕ → Bool) (c : Codec) (src : List ℕ) (p : Connect) (n : ℕ) (item : Packet)
    → IsSound c.max_in_size c.state
    → c.flags < 256
    → (decode utf8 c src).answer ≡ ok (some (Packet.connect p, n))
    → Heeds p.request_problem_info item (sent (decode utf8 c src).codec item)
sent-Heeds utf8 c src p n item sound byte e =
    let noted = (decode-IsGuarded utf8 c src sound).noted ∙ ap (λ a. flags_after a c.flags) e in
    by_flag (decode utf8 c src).codec item p.request_problem_info (
      ap (λ flags. contains flags no_problem_info) noted
      ∙ set_flag-contains c.flags (not p.request_problem_info) byte)

-- ===== src/V3/RoundTrip.antt =====
-- `decode_packet` reads back what `encode` writes: the packets for which it does.
pub mod Connect
pub mod Publish
pub mod Filters
pub mod Packets
use mathlib.Core.Option.{Option, none, some}
use ntex_mqtt.Base.{ℕ, ◌<◌, ◌^◌, ◌≡◌, Bool, true, ◌||◌, not, List, [], ◌∷◌, is_empty, All}
use ntex_mqtt.Types.{QoS}
use ntex_mqtt.V3.Packet
use ntex_mqtt.V3.Packet.{Packet, LastWill, SubscribeReturnCode}

module _ (utf8 : List ℕ → Bool) where
  abbrev pub IsString : List ℕ → Type 0
  IsString s = utf8 s ≡ true

  abbrev pub OptionalString : Option (List ℕ) → Type 0
  OptionalString none = Unit {0}
  OptionalString (some s) = IsString s

  abbrev pub WillString : Option LastWill → Type 0
  WillString none = Unit {0}
  WillString (some w) = IsString w.topic

-- A `NonZeroU16`.
abbrev pub IsPacketId : ℕ → Type 0
IsPacketId id = (0 < id) × (id < 2 ^ 16)

abbrev pub OptionalId : Option ℕ → Type 0
OptionalId none = Unit {0}
OptionalId (some id) = IsPacketId id

-- The values that the Rust types hold: strings are UTF-8, packet ids are `NonZeroU16`, and
-- `keep_alive` is a `u16`. A CONNECT packet must besides name a client or ask for a clean session.
abbrev pub IsValid : (List ℕ → Bool) → Packet → Type 0
IsValid utf8 (Packet.connect c) =
    (c.keep_alive < 2 ^ 16)
    × IsString utf8 c.client_id
    × WillString utf8 c.last_will
    × OptionalString utf8 c.username
    × ((not (is_empty c.client_id) || c.clean_session) ≡ true)
IsValid utf8 (Packet.connect_ack a) = Unit {0}
IsValid utf8 (Packet.publish p) = IsString utf8 p.topic × OptionalId p.packet_id
IsValid utf8 (Packet.publish_ack id) = IsPacketId id
IsValid utf8 (Packet.publish_received id) = IsPacketId id
IsValid utf8 (Packet.publish_release id) = IsPacketId id
IsValid utf8 (Packet.publish_complete id) = IsPacketId id
IsValid utf8 (Packet.subscribe id fs) = IsPacketId id × All (λ f. IsString utf8 f.0) fs
IsValid utf8 (Packet.subscribe_ack id st) = IsPacketId id
IsValid utf8 (Packet.unsubscribe id fs) = IsPacketId id × All (IsString utf8) fs
IsValid utf8 (Packet.unsubscribe_ack id) = IsPacketId id
IsValid utf8 Packet.ping_request = Unit {0}
IsValid utf8 Packet.ping_response = Unit {0}
IsValid utf8 Packet.disconnect = Unit {0}

-- ===== src/V5/Decode/Safety.antt =====
-- The readers and the handlers of properties below `decode_packet`: panics (src/v5/codec).
pub mod Packets
use ntex_mqtt.Base.{
  not, ℕ, zero, suc, ◌+◌, ◌*◌, ◌≤◌, ◌≡◌, ◌≢◌, refl, Bool, true, false, List, [], ◌∷◌, leb, length,
  bit_and, if◌then◌else◌, Result, ok, err, panic, arith, take, drop, length-drop,
}
use ntex_mqtt.Wire.{
  DecodeError, unsupported_packet_type, Reader, ◌>>=◌, ◌>>◌, ensure, remaining, get_u8, get_u16,
  split_to, invalid_length,
}
use ntex_mqtt.Wire.Readers.{
  lift, has_remaining, to_the_end, take_rest, when_set, if_more, if_byte, next_byte, read_loop,
  read_all,
}
use ntex_mqtt.Types.{qos_from}
use ntex_mqtt.V5.Property.Safety.{
  Fits, Fits-le, continue_within, Safe, Eats, >>=-Eats, >>=-Safe, lift-Safe, pure-Safe, ensure-Safe,
}
use ntex_mqtt.V5.Property.Safety.Properties.{
  decode_string-Eats, SafeHandler, safe_readers, read_properties-Safe,
}
use ntex_mqtt.V5.Packet.{Packet}
use ntex_mqtt.V5.Decode.{finish, decode_packet}
use ntex_mqtt.V5.Reasons.Acks.{
  PublishAckReason, PublishAck2Reason, publish_ack_codes, publish_ack2_codes, subscribe_ack_codes,
  unsubscribe_ack_codes,
}
use ntex_mqtt.V5.Reasons.{try_from}
use ntex_mqtt.V5.Decode.Acks.{
  ack_handler, decode_ack_props, decode_publish_ack, decode_codes, decode_status_ack,
}
use ntex_mqtt.V5.Decode.Connect.{
  connect_handler, will_handler, decode_last_will, decode_connect_fields, decode_connect,
}
use ntex_mqtt.V5.Decode.ConnectAck.{decode_qos, connect_ack_handler, decode_connect_ack}
use ntex_mqtt.V5.Decode.Publish.{publish_handler, parse_publish_properties, decode_publish}
use ntex_mqtt.V5.Decode.Subscribe.{
  decode_options, subscribe_handler, unsubscribe_handler, decode_filter, decode_subscribe,
  decode_unsubscribe,
}
use ntex_mqtt.V5.Decode.Session.{auth_handler, decode_auth, disconnect_handler, decode_disconnect}

has_remaining-Safe : Safe has_remaining
has_remaining-Safe = record { apply = λ src. omega arith }

take_rest-Safe : Safe take_rest
take_rest-Safe = record { apply = λ src. omega arith }

to_the_end-Safe : {A : Type 0} {m : Reader A} → Safe m → Safe (to_the_end m)
to_the_end-Safe h = >>=-Safe h λ a.
    >>=-Safe has_remaining-Safe
      λ more. >>=-Safe (ensure-Safe (not more) invalid_length) λ u. pure-Safe {a = a}

next_byte-Safe : Safe next_byte
unfolding next_byte
next_byte-Safe = record { apply = fits }
  where
    fits : (src : List ℕ) → Fits (length src) (next_byte src)
    fits [] = tt
    fits (b ∷ src) = ground arith

when_set-Safe : {A : Type 0} (b : Bool) {m : Reader A} → Safe m → Safe (when_set b m)
when_set-Safe true h = >>=-Safe h λ a. pure-Safe
when_set-Safe false h = pure-Safe

if_more-Safe : {A : Type 0} {m k : Reader A} → Safe m → Safe k → Safe (if_more m k)
if_more-Safe {m = m} {k = k} hm hk = record { apply = fits }
  where
    fits : (src : List ℕ) → Fits (length src) (if_more m k src)
    fits [] = hk.apply []
    fits (b ∷ src) = hm.apply (b ∷ src)

qos_from-Safe : (v : ℕ) → Safe (lift (qos_from v))
qos_from-Safe v = lift-Safe (qos_from v) (ground arith)

try_from-ne-panic : {A : Type 0} (codes : List (ℕ × A)) (v : ℕ) → try_from codes v ≢ panic
try_from-ne-panic [] v = λ e. cc
try_from-ne-panic ((code, a) ∷ codes) v = ground (arith, try_from-ne-panic codes v)

try_from-Safe : {A : Type 0} (codes : List (ℕ × A)) (v : ℕ) → Safe (lift (try_from codes v))
try_from-Safe codes v = lift-Safe (try_from codes v) (try_from-ne-panic codes v)

if_byte-Safe :
    {A : Type 0} {f : ℕ → Reader A} {k : Reader A}
    → ((b : ℕ) → Safe (f b))
    → Safe k
    → Safe (if_byte f k)
if_byte-Safe {f = f} {k = k} hf hk = record { apply = fits }
  where
    fits : (src : List ℕ) → Fits (length src) (if_byte f k src)
    fits [] = hk.apply []
    fits (b ∷ src) = Fits-le (length src) _ (f b src) (omega arith) ((hf b).apply src)

read_loop-Fits :
    {A : Type 0} (item : Reader A)
    → Eats item
    → (fuel : ℕ) (src : List ℕ) → length src ≤ fuel
    → Fits (length src) (read_loop item fuel src)
unfolding read_loop
read_loop-Fits item h fuel [] enough = omega arith
read_loop-Fits item h zero (b ∷ src) enough = absurd (omega arith)
read_loop-Fits item h (suc fuel) (b ∷ src) enough =
    Fits-le (length src) _ (read_loop item (suc fuel) (b ∷ src)) (omega arith) (
      continue_within (length src) (item (b ∷ src)) _ (h.apply b src) λ a rest le.
        continue_within (length src) (read_loop item fuel rest) _
          (Fits-le (length rest) _ (read_loop item fuel rest) le
            (read_loop-Fits item h fuel rest (omega (arith, le, enough))))
          λ as' rest' le'. le')

read_all-Safe : {A : Type 0} {item : Reader A} → Eats item → Safe (read_all item)
unfolding read_all
read_all-Safe {item = item} h = record {
  apply = λ src. read_loop-Fits item h (length src) src (omega arith);
}

decode_codes-ne-panic :
    {R : Type 0} (codes : List (ℕ × R)) (src : List ℕ) → decode_codes codes src ≢ panic
unfolding decode_codes
decode_codes-ne-panic codes [] = λ e. cc
decode_codes-ne-panic codes (code ∷ src) =
    ground (arith, try_from-ne-panic codes code, decode_codes-ne-panic codes src)

decode_codes-Safe :
    {R : Type 0} (codes : List (ℕ × R)) (src : List ℕ) → Safe (lift (decode_codes codes src))
decode_codes-Safe codes src = lift-Safe (decode_codes codes src) (decode_codes-ne-panic codes src)

ruleset handlers = (
  safe_readers, has_remaining-Safe, to_the_end-Safe, take_rest-Safe, next_byte-Safe, when_set-Safe,
  if_more-Safe, qos_from-Safe, try_from-Safe, if_byte-Safe, read_all-Safe, decode_codes-Safe,
  read_properties-Safe, decode_string-Eats, >>=-Eats,
)

pub ack_handler-Safe : (utf8 : List ℕ → Bool) → SafeHandler (ack_handler utf8)
unfolding ack_handler
ack_handler-Safe utf8 id s = search handlers depth 24

pub auth_handler-Safe : (utf8 : List ℕ → Bool) → SafeHandler (auth_handler utf8)
unfolding auth_handler
auth_handler-Safe utf8 id s = search handlers depth 24

pub disconnect_handler-Safe : (utf8 : List ℕ → Bool) → SafeHandler (disconnect_handler utf8)
unfolding disconnect_handler
disconnect_handler-Safe utf8 id s = search handlers depth 24

decode_qos-Safe : Safe decode_qos
unfolding decode_qos
decode_qos-Safe = search handlers

pub connect_handler-Safe : (utf8 : List ℕ → Bool) → SafeHandler (connect_handler utf8)
unfolding connect_handler
connect_handler-Safe utf8 id s = search handlers depth 24

pub will_handler-Safe : (utf8 : List ℕ → Bool) → SafeHandler (will_handler utf8)
unfolding will_handler
will_handler-Safe utf8 id s = search handlers depth 24

pub connect_ack_handler-Safe : (utf8 : List ℕ → Bool) → SafeHandler (connect_ack_handler utf8)
unfolding connect_ack_handler
connect_ack_handler-Safe utf8 id s = search (handlers, decode_qos-Safe) depth 40

pub publish_handler-Safe : (utf8 : List ℕ → Bool) → SafeHandler (publish_handler utf8)
unfolding publish_handler
publish_handler-Safe utf8 id s = search handlers depth 24

pub subscribe_handler-Safe : (utf8 : List ℕ → Bool) → SafeHandler (subscribe_handler utf8)
unfolding subscribe_handler
subscribe_handler-Safe utf8 id s = search handlers depth 24

pub unsubscribe_handler-Safe : (utf8 : List ℕ → Bool) → SafeHandler (unsubscribe_handler utf8)
unfolding unsubscribe_handler
unsubscribe_handler-Safe utf8 id s = search handlers

decode_options-Safe : Safe decode_options
unfolding decode_options
decode_options-Safe = search handlers depth 12

decode_filter-Eats : (utf8 : List ℕ → Bool) → Eats (decode_filter utf8)
unfolding decode_filter
decode_filter-Eats utf8 =
    >>=-Eats (decode_string-Eats utf8) λ topic. search (handlers, decode_options-Safe)

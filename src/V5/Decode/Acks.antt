-- ===== src/V5/Decode/Acks.antt =====
-- Acknowledgements (the module `ack_props` of src/v5/codec/packet/mod.rs, pubacks.rs, and the
-- acknowledgements of subscribe.rs).
use mathlib.Core.Option.{Option, none}
use ntex_mqtt.Base.{ℕ, Bool, List, [], ◌∷◌, ◌==◌, if◌then◌else◌, Result, ok, and_then}
use ntex_mqtt.Wire.{DecodeError, Reader, ◌>>=◌, pure, decode_nonzero_u16, decode_string}
use ntex_mqtt.Wire.Readers.{lift, to_the_end, take_rest, if_more, if_byte}
use ntex_mqtt.V5.PropertyType
use ntex_mqtt.V5.Packet.{UserProperties, ByteString, Ack, StatusAck}
use ntex_mqtt.V5.Property.{set_value, push_property, unknown_property, read_properties}
use ntex_mqtt.V5.Reasons.{try_from}

pub record AckProperties : Type 0 where
  pub user_props : UserProperties
  pub reason_string : Option ByteString

abbrev pub no_ack_properties : AckProperties
no_ack_properties = record { user_props = []; reason_string = none }

module _ (utf8 : List ℕ → Bool) where
  unfoldable pub ack_handler : ℕ → AckProperties → Reader AckProperties
  ack_handler prop_id s =
      if prop_id == PropertyType.reason_string
      then set_value s.reason_string (decode_string utf8) (λ v. record s { reason_string = v })
      else if prop_id == PropertyType.user
      then push_property utf8 s.user_props (λ ps. record s { user_props = ps })
      else unknown_property

  -- `ack_props::decode`.
  unfoldable pub decode_ack_props : Reader AckProperties
  decode_ack_props = read_properties ack_handler no_ack_properties

  -- `PublishAck::decode` and `PublishAck2::decode`, by the table of their reason codes and the
  -- reason `Success`.
  unfoldable pub decode_publish_ack : {R : Type 0} → List (ℕ × R) → R → Reader (Ack R)
  decode_publish_ack codes success = do
    packet_id ← decode_nonzero_u16
    if_byte
        (λ code. do
          reason_code ← lift (try_from codes code)
          if_more
              (do
                props ← to_the_end decode_ack_props
                pure (record {
                  packet_id = packet_id;
                  reason_code = reason_code;
                  properties = props.user_props;
                  reason_string = props.reason_string;
                }))
              (pure (record {
                packet_id = packet_id;
                reason_code = reason_code;
                properties = [];
                reason_string = none;
              })))
        (pure (record {
          packet_id = packet_id;
          reason_code = success;
          properties = [];
          reason_string = none;
        }))

-- The loop over the codes of a SUBACK or UNSUBACK packet.
unfoldable pub decode_codes : {R : Type 0} → List (ℕ × R) → List ℕ → Result DecodeError (List R)
decode_codes codes [] = ok []
decode_codes codes (code ∷ rest) =
    let status = decode_codes codes rest in
    and_then (try_from codes code) λ r. and_then status λ rs. ok (r ∷ rs)

-- `SubscribeAck::decode` and `UnsubscribeAck::decode`. The codes are read without being taken from
-- the buffer, which is dropped then.
unfoldable pub decode_status_ack :
    (List ℕ → Bool) → {R : Type 0} → List (ℕ × R) → Reader (StatusAck R)
unfolding decode_codes
decode_status_ack utf8 codes = do
  packet_id ← decode_nonzero_u16
  props ← decode_ack_props utf8
  rest ← take_rest
  status ← lift (decode_codes codes rest)
  pure (record {
    packet_id = packet_id;
    properties = props.user_props;
    reason_string = props.reason_string;
    status = status;
  })

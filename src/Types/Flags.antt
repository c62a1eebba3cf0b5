-- ===== src/Types/Flags.antt =====
-- The flags of CONNECT and PUBLISH packets as the encoders put them together, and what the decoders
-- find in them.
use ntex_mqtt.Base.{ℕ, ◌*◌, ◌/◌, ◌^◌, ◌≤◌, ◌≡◌, Bool, true, false, ◌==◌, ok, arith, bit_or, bit_and}
use ntex_mqtt.Wire.{}
use ntex_mqtt.Types.{
  QoS, qos_bits, qos_from, contains, username_flag, password_flag, will_retain_flag, will_qos_flag,
  will_flag, clean_start_flag, connect_reserved_bits,
}

abbrev pub flag_if : Bool → ℕ → ℕ
flag_if true flag = flag
flag_if false flag = 0

abbrev pub bool_bit : Bool → ℕ
bool_bit true = 1
bool_bit false = 0

abbrev pub flags_of : Bool → Bool → ℕ → Bool → ℕ
flags_of user password will clean =
    bit_or (bit_or (bit_or (flag_if user username_flag) (flag_if password password_flag)) will)
      (flag_if clean clean_start_flag)

abbrev pub will_bits : Bool → QoS → ℕ
will_bits retain qos =
    bit_or (bit_or will_flag (flag_if retain will_retain_flag)) (qos_bits qos * 2 ^ 3)

-- What the decoder asks of the flags, for a will or none.
pub record Reads (flags : ℕ) (user password will clean : Bool) : Type 0 where
  pub no_reserved : bit_and flags connect_reserved_bits ≡ 0
  pub clean_read : contains flags clean_start_flag ≡ clean
  pub will_read : contains flags will_flag ≡ will
  pub user_read : contains flags username_flag ≡ user
  pub password_read : contains flags password_flag ≡ password

pub no_will-Reads : (u p c : Bool) → Reads (flags_of u p 0 c) u p false c
no_will-Reads u p c = record {
  no_reserved = ground arith;
  clean_read = ground arith;
  will_read = ground arith;
  user_read = ground arith;
  password_read = ground arith;
}

pub will-Reads :
    (u p c retain : Bool) (q : QoS) → Reads (flags_of u p (will_bits retain q) c) u p true c
will-Reads u p c retain q = record {
  no_reserved = ground arith;
  clean_read = ground arith;
  will_read = ground arith;
  user_read = ground arith;
  password_read = ground arith;
}

pub will_values :
    (u p c retain : Bool) (q : QoS)
    → (contains (flags_of u p (will_bits retain q) c) will_retain_flag ≡ retain)
      × (qos_from (bit_and (flags_of u p (will_bits retain q) c) will_qos_flag / 8) ≡ ok q)
will_values u p c retain q = (ground arith, ground arith)

-- The flags in the first byte of a PUBLISH packet.
pub publish_bits :
    (dup retain : Bool) (qos : QoS)
    → let b =
        bit_or
          (bit_or (bit_or 0b0011_0000 (qos_bits qos * 2)) (bool_bit dup * 2 ^ 3))
          (bool_bit retain) in
      ((bit_and (bit_and b 0b0000_1111) 0b1000 == 0b1000) ≡ dup)
      × ((bit_and (bit_and b 0b0000_1111) 0b0001 == 0b0001) ≡ retain)
      × (qos_from (bit_and (bit_and b 0b0000_1111) 0b0110 / 2) ≡ ok qos)
      × (0b0011_0000 ≤ b)
      × (b ≤ 0b0011_1111)
publish_bits dup retain qos = (ground arith, ground arith, ground arith, ground arith, ground arith)

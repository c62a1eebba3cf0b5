-- ===== src/Wire.antt =====
-- The primitive fields of MQTT packets (src/utils.rs, the errors of src/error.rs).
-- A buffer is the list of its bytes. `Bytes` and `BytesMut` are the crate ntex-bytes: their getters
-- take from the front, and panic when too few bytes are left.
pub mod Fields
pub mod Frames
pub mod Varint
pub mod Pieces
pub mod Safety
pub mod Writers
pub mod Readers
mod Tests
use mathlib.Core.Option.{Option, none, some}
use ntex_mqtt.Base.{
  ℕ, ◌+◌, ◌-◌, ◌*◌, ◌/◌, ◌%◌, ◌^◌, Bool, true, false, not, List, [], ◌∷◌, ◌++◌, ltb, leb, ◌==◌,
  if◌then◌else◌, length, take, drop, is_empty, bit_and, Result, ok, err, panic,
}

pub data DecodeError : Type 0 where
  invalid_protocol invalid_length malformed_packet unsupported_protocol_level : DecodeError
  connect_reserved_flag_set conn_ack_reserved_flag_set invalid_client_id : DecodeError
  unsupported_packet_type packet_id_required max_size_exceeded utf8_error : DecodeError

-- A reader takes the fields from the front of a buffer.
abbrev pub Reader : Type 0 → Type 0
Reader A = List ℕ → Result DecodeError (A × List ℕ)

abbrev pub continue :
    {A B : Type 0}
    → Result DecodeError (A × List ℕ)
    → (A → Reader B)
    → Result DecodeError (B × List ℕ)
continue (ok (a, rest)) f = f a rest
continue (err e) f = err e
continue panic f = panic

infixl 5 ◌>>=◌ ◌>>◌
abbrev pub ◌>>=◌ : {A B : Type 0} → Reader A → (A → Reader B) → Reader B
◌>>=◌ m f src = continue (m src) f

abbrev pub ◌>>◌ : {B : Type 0} → Reader (Unit {0}) → Reader B → Reader B
m >> k = m >>= λ _. k

abbrev pub pure : {A : Type 0} → A → Reader A
pure a src = ok (a, src)

-- The macro `ensure!`.
abbrev pub ensure : Bool → DecodeError → Reader (Unit {0})
ensure true e src = ok (tt, src)
ensure false e src = err e

abbrev pub remaining : Reader ℕ
remaining src = ok (length src, src)

abbrev pub get_u8 : Reader ℕ
get_u8 [] = panic
get_u8 (b ∷ src) = ok (b, src)

-- Big endian.
abbrev pub get_u16 : Reader ℕ
get_u16 = do a ← get_u8; b ← get_u8; pure (a * 256 + b)

abbrev pub get_u32 : Reader ℕ
get_u32 = do a ← get_u16; b ← get_u16; pure (a * 65536 + b)

abbrev pub split_to : ℕ → Reader (List ℕ)
split_to n src = if leb n (length src) then ok (take n src, drop n src) else panic

-- `Decode for bool`.
unfoldable pub decode_bool : Reader Bool
decode_bool = do
  n ← remaining
  ensure (not (n == 0)) invalid_length
  v ← get_u8
  ensure (leb v 1) malformed_packet
  pure (v == 1)

-- `Decode for u16`.
unfoldable pub decode_u16 : Reader ℕ
decode_u16 = do n ← remaining; ensure (leb 2 n) invalid_length; get_u16

-- `Decode for u32`.
unfoldable pub decode_u32 : Reader ℕ
decode_u32 = do n ← remaining; ensure (leb 4 n) invalid_length; get_u32

-- `Decode for NonZeroU16` and `NonZeroU32`: `new` answers `None` at 0.
unfoldable pub decode_nonzero_u16 : Reader ℕ
decode_nonzero_u16 = do v ← decode_u16; ensure (not (v == 0)) malformed_packet; pure v

unfoldable pub decode_nonzero_u32 : Reader ℕ
decode_nonzero_u32 = do v ← decode_u32; ensure (not (v == 0)) malformed_packet; pure v

-- `Decode for Bytes`.
unfoldable pub decode_bytes : Reader (List ℕ)
decode_bytes = do len ← decode_u16; n ← remaining; ensure (leb len n) invalid_length; split_to len

-- `Decode for ByteString`. Whether bytes are a string is for ntex-bytes to say: `utf8`.
unfoldable pub decode_string : (List ℕ → Bool) → Reader (List ℕ)
decode_string utf8 = do b ← decode_bytes; ensure (utf8 b) utf8_error; pure b

-- `decode_variable_length_cursor`: `shift` and `len` are `u32`.
unfoldable pub variable_length_loop : List ℕ → ℕ → ℕ → Result DecodeError (ℕ × List ℕ)
variable_length_loop [] shift len = err malformed_packet
variable_length_loop (val ∷ src) shift len =
    let len' = (len + bit_and val 0b0111_1111 * 2 ^ shift % 2 ^ 32) % 2 ^ 32 in
    let rest = variable_length_loop src (shift + 7) len' in
    if bit_and val 0b1000_0000 == 0
    then ok (len', src)
    else if ltb shift 21
    then rest
    else err invalid_length

unfoldable pub decode_variable_length_cursor : Reader ℕ
decode_variable_length_cursor src = variable_length_loop src 0 0

-- `decode_variable_length`: the number and how many bytes it took; no answer means that the bytes
-- end inside the number.
unfoldable pub decode_variable_length : List ℕ → Result DecodeError (Option (ℕ × ℕ))
decode_variable_length src = elim (decode_variable_length_cursor src) [
  | ok (len, rest) ↦ ok (some (len, length src - length rest))
  | err malformed_packet ↦ ok none
  | err e ↦ err e
  | panic ↦ panic
]

unfoldable pub take_properties : Reader (List ℕ)
take_properties = do
  prop_len ← decode_variable_length_cursor
  n ← remaining
  ensure (leb prop_len n) invalid_length
  split_to prop_len

pub data EncodeError : Type 0 where
  over_max_packet_size invalid_length malformed_packet packet_id_required : EncodeError
  unsupported_version : EncodeError

-- The encoders only ever append to their buffer: an encoder is what it appends, also when it then
-- fails, and its result.
pub record Writer : Type 0 where
  pub bytes : List ℕ
  pub result : Result EncodeError (Unit {0})

abbrev pub append_result : List ℕ → Result EncodeError (Unit {0}) → Writer → Writer
append_result bs (ok _) w = record { bytes = bs ++ w.bytes; result = w.result }
append_result bs (err e) w = record { bytes = bs; result = err e }
append_result bs panic w = record { bytes = bs; result = panic }

-- `a?; b`.
infixr 6 ◌then_write◌
abbrev pub ◌then_write◌ : Writer → Writer → Writer
a then_write b = append_result a.bytes a.result b

abbrev pub put : List ℕ → Writer
put bs = record { bytes = bs; result = ok tt }

abbrev pub fail : EncodeError → Writer
fail e = record { bytes = []; result = err e }

abbrev pub panics : Writer
panics = record { bytes = []; result = panic }

abbrev pub u16_bytes : ℕ → List ℕ
u16_bytes v = v / 256 % 256 ∷ v % 256 ∷ []

abbrev pub u32_bytes : ℕ → List ℕ
u32_bytes v = u16_bytes (v / 65536) ++ u16_bytes (v % 65536)

-- `Encode for bool`, `u16` and `u32`; the non-zero numbers are encoded like these.
unfoldable pub encode_bool : Bool → Writer
encode_bool b = if b then put (1 ∷ []) else put (0 ∷ [])

unfoldable pub encode_u16 : ℕ → Writer
encode_u16 v = put (u16_bytes v)

unfoldable pub encode_u32 : ℕ → Writer
encode_u32 v = put (u32_bytes v)

-- `Encode for Bytes`, `ByteString` and `&[u8]`. `u16::try_from` fails from 65536 on.
unfoldable pub encode_bytes : List ℕ → Writer
encode_bytes b =
    if ltb (length b) 65536
    then put (u16_bytes (length b) ++ b)
    else fail EncodeError.invalid_length

-- `Encode for (ByteString, ByteString)`.
unfoldable pub encode_pair : List ℕ × List ℕ → Writer
encode_pair (a, b) = encode_bytes a then_write encode_bytes b

unfoldable pub encoded_size_bytes : List ℕ → ℕ
encoded_size_bytes b = 2 + length b

-- `write_variable_length`: `len & 0x7f` is `len % 2 ^ 7`, and `| 0x80` adds 128 to that; `as u8`
-- keeps the low byte.
unfoldable pub write_variable_length : ℕ → Writer
write_variable_length len =
    if leb len 127
    then put (len % 256 ∷ [])
    else if leb len 16_383
    then put ((len % 2 ^ 7 + 128) ∷ len / 2 ^ 7 % 256 ∷ [])
    else if leb len 2_097_151
    then put ((len % 2 ^ 7 + 128) ∷ (len / 2 ^ 7 % 2 ^ 7 + 128) ∷ len / 2 ^ 14 % 256 ∷ [])
    else if leb len 268_435_455
    then put (
        (len % 2 ^ 7 + 128)
        ∷ (len / 2 ^ 7 % 2 ^ 7 + 128)
        ∷ (len / 2 ^ 14 % 2 ^ 7 + 128)
        ∷ len / 2 ^ 21 % 256
        ∷ [])
    else panics

-- ===== src/V5/Reasons.antt =====
-- `prim_enum!` (src/utils.rs): `try_from` is the `TryFrom<u8>` that the macro generates, over the
-- table of an enum's values.
pub mod Acks
pub mod Session
pub mod Codes
use ntex_mqtt.Base.{ℕ, List, [], ◌∷◌, ◌==◌, if◌then◌else◌, Result, ok, err}
use ntex_mqtt.Wire.{DecodeError, malformed_packet}

abbrev pub try_from : {A : Type 0} → List (ℕ × A) → ℕ → Result DecodeError A
try_from [] v = err malformed_packet
try_from ((code, a) ∷ codes) v = let rest = try_from codes v in if v == code then ok a else rest

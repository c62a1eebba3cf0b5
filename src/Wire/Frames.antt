-- ===== src/Wire/Frames.antt =====
-- A frame as both versions of the protocol write it: a first byte, the remaining length, the
-- content.
use ntex_mqtt.Base.{ℕ, ◌≤◌, ◌≡◌, refl, List, [], ◌∷◌, ◌++◌, ok, arith}
use ntex_mqtt.Wire.{Writer, ◌then_write◌, put, write_variable_length}
use ntex_mqtt.Wire.Writers.{then_write-eq-ok}

pub record IsFrame (bytes : List ℕ) (b n : ℕ) (body : Writer) : Type 0 where
  pub fits : n ≤ 268_435_455
  pub body_ok : body.result ≡ ok tt
  pub layout : bytes ≡ b ∷ ((write_variable_length n).bytes ++ body.bytes)

write_variable_length-eq-ok : (n : ℕ) → (write_variable_length n).result ≡ ok tt → n ≤ 268_435_455
unfolding write_variable_length
write_variable_length-eq-ok n h = ground arith

pub header-IsFrame :
    (b n : ℕ) (body : Writer)
    → ((put (b ∷ []) then_write write_variable_length n) then_write body).result ≡ ok tt
    → IsFrame ((put (b ∷ []) then_write write_variable_length n) then_write body).bytes b n body
header-IsFrame b n body h =
    let both = then_write-eq-ok (put (b ∷ []) then_write write_variable_length n) body h in
    record {
      fits = write_variable_length-eq-ok n both.first;
      body_ok = both.second;
      layout = both.joined;
    }

pub no_content : (b : ℕ) → IsFrame (b ∷ 0 ∷ []) b 0 (put [])
unfolding write_variable_length
no_content b = record { fits = omega arith; body_ok = refl; layout = refl }

-- ===== src/Packet/Bytes.antt =====
-- The bytes of a number.
use mo_session_server.Base.{ap, arith, length, refl, suc, zero, ℕ, ◌/◌, ◌<◌, ◌^◌, ◌≡◌}
use mo_session_server.Packet.{le_bytes, le_value}
use native.Mathlib.Nat.{pow-suc}

pub length-le_bytes : (w v : ℕ) → length (le_bytes w v) ≡ w
length-le_bytes zero v = refl
length-le_bytes (suc w) v = ap suc (length-le_bytes w (v / 256))

pub le_value-le_bytes : (w v : ℕ) → v < 256 ^ w → le_value (le_bytes w v) ≡ v
le_value-le_bytes zero v h = omega arith
le_value-le_bytes (suc w) v h =
    omega (arith, pow-suc 256 w, le_value-le_bytes w (v / 256) (omega (arith, pow-suc 256 w)))

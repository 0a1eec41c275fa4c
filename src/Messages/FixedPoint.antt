-- ===== src/Messages/FixedPoint.antt =====
-- util/FixedPoint.h at FixedPoint_t: an int64_t with 15 bits behind the point, as its 64-bit pattern.
use pddm.Prelude.{ℕ, ◌+◌, ◌-◌, ◌%◌, ◌^◌}

-- `factor` is 1 << (PrecisionBits - 1), with 16 precision bits.
abbrev pub factor : ℕ
factor = 2 ^ 15

infixl 65 ◌+fp◌ ◌-fp◌
-- Sums and differences of int64_t, wrapping as two's complement does.
abbrev pub ◌+fp◌ : ℕ → ℕ → ℕ
a +fp b = (a + b) % 2 ^ 64

abbrev pub ◌-fp◌ : ℕ → ℕ → ℕ
a -fp b = (a + 2 ^ 64 - b) % 2 ^ 64

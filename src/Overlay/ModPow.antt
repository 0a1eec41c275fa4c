-- ===== src/Overlay/ModPow.antt =====
-- util/Overlay.cpp, `mod_pow`: binary exponentiation on uint32_t, with a uint64_t result.
pub mod Congruence
pub mod Correct
use pddm.Prelude.{ℕ, zero, suc, ◌*◌, ◌/◌, ◌%◌, ◌^◌, ltb, ◌==◌, if◌then◌else◌}

abbrev pub u32 : ℕ → ℕ
u32 n = n % 2 ^ 32

abbrev pub u64 : ℕ → ℕ
u64 n = n % 2 ^ 64

-- The `while` loop, a round for each bit of `pow`; its variables are `result`, `num` and `pow`.
unfoldable pub mod_pow_loop : ℕ → ℕ → ℕ → ℕ → ℕ → ℕ
mod_pow_loop zero result num pow m = result
mod_pow_loop (suc fuel) result num pow m =
    let next = if pow % 2 == 1 then u64 (result * num) % m else result in
    let rest = mod_pow_loop fuel next (u32 (num * num) % m) (pow / 2) m in
    if ltb 0 pow then rest else result

-- A uint32_t has 32 bits, so 32 rounds are enough. The result is truncated on return.
unfoldable pub mod_pow : ℕ → ℕ → ℕ → ℕ
unfolding mod_pow_loop
mod_pow num pow m = u32 (mod_pow_loop 32 1 num pow m)

-- ===== src/Overlay/ModPow/Correct.antt =====
-- `mod_pow` against the power, and where a uint32_t wraps.
use native.Mathlib.Nat.{
  mod-mod, mod-lt, two-pow-succ, mul-one, one-mul, pow-zero, mod-eq_of_lt, zero-mod,
}
use mathlib.Core.Path.{◌≡⟨◌⟩◌, ◌∎}
use pddm.Prelude.{
  ℕ, zero, suc, ◌*◌, ◌/◌, ◌%◌, ◌^◌, ◌≤◌, ◌<◌, ◌≡◌, sym, ap, ◌∙◌, inl, inr, arith, ltb, ◌==◌,
  if◌then◌else◌, Bool-cases,
}
use pddm.Overlay.ModPow.{u32, u64, mod_pow, mod_pow_loop}
use pddm.Overlay.ModPow.Congruence.{mul-mod-mod, mul_congr, pow-one, pow-mod, pow-halves}

square_fits : (a b : ℕ) → a ≤ 65536 → b < 65536 → a * b < 2 ^ 32
square_fits a b p q = grind arith

next : ℕ → ℕ → ℕ → ℕ → ℕ
next result num pow m = if pow % 2 == 1 then u64 (result * num) % m else result

next_congr :
    (result num pow m : ℕ)
    → result ≤ 65536
    → num < 65536
    → next result num pow m % m ≡ result * num ^ (pow % 2) % m
unfolding next
next_congr result num pow m r n = elim (Bool-cases (pow % 2 == 1)) [
  | inl odd ↦
      let bit : pow % 2 ≡ 1 = ground arith in
      let wide : u64 (result * num) ≡ result * num =
        mod-eq_of_lt (omega (arith, square_fits result num r n)) in
      rw (odd, bit, wide, mod-mod, pow-one)
  | inr even ↦ let bit : pow % 2 ≡ 0 = ground arith in rw (even, bit, pow-zero, mul-one)
]

-- One round keeps `result * num ^ pow` modulo m.
round_congr :
    (result num pow m : ℕ)
    → result ≤ 65536
    → num < 65536
    → next result num pow m * (u32 (num * num) % m) ^ (pow / 2) % m ≡ result * num ^ pow % m
round_congr result num pow m r n =
    let wide : u32 (num * num) ≡ num * num = mod-eq_of_lt (square_fits num num (omega arith) n) in
    let s = num * num in
    next result num pow m * (u32 (num * num) % m) ^ (pow / 2) % m
    ≡⟨ (rw wide) ⟩ next result num pow m * (s % m) ^ (pow / 2) % m
    ≡⟨ sym (mul-mod-mod (next result num pow m) ((s % m) ^ (pow / 2)) m) ⟩
      next result num pow m * ((s % m) ^ (pow / 2) % m) % m
    ≡⟨ (rw (pow-mod s (pow / 2) m)) ⟩ next result num pow m * (s ^ (pow / 2) % m) % m
    ≡⟨ mul-mod-mod (next result num pow m) (s ^ (pow / 2)) m ⟩
      next result num pow m * s ^ (pow / 2) % m
    ≡⟨ mul_congr (next result num pow m) (result * num ^ (pow % 2)) (s ^ (pow / 2)) m
        (next_congr result num pow m r n) ⟩
      result * num ^ (pow % 2) * s ^ (pow / 2) % m
    ≡⟨ ap (λ t. t % m) (omega (arith, ap (λ (t : ℕ). result * t) (pow-halves num pow))) ⟩
      result * num ^ pow % m ∎

next-le :
    (result num pow m : ℕ) → result ≤ 65536 → 0 < m → m ≤ 65536 → next result num pow m ≤ 65536
unfolding next
next-le result num pow m r p q = elim (Bool-cases (pow % 2 == 1)) [
  | inl odd ↦ rw odd (omega (arith, mod-lt (u64 (result * num)) p))
  | inr even ↦ rw even r
]

-- With enough fuel the loop yields the power, modulo m, and stays within the modulus' bound.
loop_congr :
    (fuel result num pow m : ℕ)
    → pow < 2 ^ fuel
    → result ≤ 65536
    → num < 65536
    → 0 < m
    → m ≤ 65536
    → (mod_pow_loop fuel result num pow m % m ≡ result * num ^ pow % m)
      × (mod_pow_loop fuel result num pow m ≤ 65536)
unfolding mod_pow_loop next
loop_congr zero result num pow m f r n p q =
    let none_left : pow ≡ 0 = omega arith in (rw (none_left, pow-zero, mul-one), r)
loop_congr (suc fuel) result num pow m f r n p q = elim (Bool-cases (ltb 0 pow)) [
  | inl more ↦
      let square = u32 (num * num) % m in
      let half : pow / 2 < 2 ^ fuel = omega (arith, two-pow-succ fuel) in
      let ih =
        loop_congr fuel (next result num pow m) square (pow / 2) m half
          (next-le result num pow m r p q) (omega (arith, mod-lt (u32 (num * num)) p)) p q in
      rw more (ih.0 ∙ round_congr result num pow m r n, ih.1)
  | inr stop ↦
      let none_left : pow ≡ 0 = ground arith in rw stop (rw (none_left, pow-zero, mul-one), r)
]

next-lt : (result num pow m : ℕ) → result < m → next result num pow m < m
unfolding next
next-lt result num pow m h = elim (Bool-cases (pow % 2 == 1)) [
  | inl odd ↦ rw odd (mod-lt (u64 (result * num)) (omega arith))
  | inr even ↦ rw even h
]

loop-lt : (fuel result num pow m : ℕ) → result < m → mod_pow_loop fuel result num pow m < m
unfolding mod_pow_loop next
loop-lt zero result num pow m h = h
loop-lt (suc fuel) result num pow m h = elim (Bool-cases (ltb 0 pow)) [
  | inl more ↦
      let kept : next result num pow m < m = next-lt result num pow m h in
      rw more (loop-lt fuel (next result num pow m) (u32 (num * num) % m) (pow / 2) m kept)
  | inr stop ↦ rw stop h
]

-- For a modulus m with 1 < m ≤ 2^16, a base below 2^16 and any 32-bit exponent, `mod_pow` is the
-- base raised to the exponent, modulo m: no intermediate product wraps, and 32 rounds are enough.
pub mod_pow-eq-pow :
    (num pow m : ℕ)
    → num < 65536
    → pow < 2 ^ 32
    → 1 < m
    → m ≤ 65536
    → mod_pow num pow m ≡ num ^ pow % m
unfolding mod_pow
mod_pow-eq-pow num pow m n w p q =
    let (congr, _) = loop_congr 32 1 num pow m w (omega arith) n (omega arith) q in
    let small = loop-lt 32 1 num pow m p in
    mod_pow_loop_u32 ∙ sym (mod-eq_of_lt small) ∙ congr ∙ ap (λ t. t % m) (one-mul (num ^ pow))
  where
    mod_pow_loop_u32 : u32 (mod_pow_loop 32 1 num pow m) ≡ mod_pow_loop 32 1 num pow m
    mod_pow_loop_u32 = mod-eq_of_lt (omega (arith, loop-lt 32 1 num pow m p))

-- A modulus above 2^16 lets `num * num` wrap: 2^32 is then computed as 0, whatever the modulus.
pub mod_pow_wraps : (m : ℕ) → 65536 < m → mod_pow 2 32 m ≡ 0
unfolding mod_pow
mod_pow_wraps m h =
    rw
      (
        below 4 (omega arith),
        below 16 (omega arith),
        below 256 (omega arith),
        below 65536 h,
        zero-mod,
      )
      (ap u32 (zero-mod m))
  where
    below : (n : ℕ) → n < m → n % m ≡ n
    below n p = mod-eq_of_lt p

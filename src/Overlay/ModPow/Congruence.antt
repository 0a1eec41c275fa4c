-- ===== src/Overlay/ModPow/Congruence.antt =====
-- Congruence modulo m, as far as exponentiation needs it.
use native.Mathlib.Nat.{mul-add-mod_self_left, div-add-mod, mul_comm, one-mul, pow-suc, pow-zero}
use pddm.Prelude.{ℕ, zero, suc, ◌+◌, ◌*◌, ◌/◌, ◌%◌, ◌^◌, ◌≡◌, sym, ap, ◌∙◌, arith}

-- A factor may be reduced first.
pub mod-mul-mod : (a b m : ℕ) → a % m * b % m ≡ a * b % m
mod-mul-mod a b m =
    let split : a * b ≡ m * (a / m * b) + a % m * b =
      omega (arith, ap (λ (t : ℕ). t * b) (div-add-mod a m)) in
    rw (split, mul-add-mod_self_left)

pub mul-mod-mod : (a b m : ℕ) → a * (b % m) % m ≡ a * b % m
mul-mod-mod a b m = rw (mul_comm a (b % m), mul_comm a b) (mod-mul-mod b a m)

pub mul_congr : (a b c m : ℕ) → a % m ≡ b % m → a * c % m ≡ b * c % m
mul_congr a b c m h = rw (← mod-mul-mod a c m, h) (mod-mul-mod b c m)

pub pow-one : (a : ℕ) → a ^ 1 ≡ a
pow-one a = rw (pow-suc, pow-zero, one-mul)

mul-pow : (a b n : ℕ) → (a * b) ^ n ≡ a ^ n * b ^ n
mul-pow a b zero = simp pow-zero
mul-pow a b (suc n) = simp (pow-suc, mul-pow a b n) (omega arith)

pub pow-mod : (a n m : ℕ) → (a % m) ^ n % m ≡ a ^ n % m
pow-mod a zero m = simp pow-zero
pow-mod a (suc n) m =
    rw (pow-suc (a % m) n, mul-mod-mod ((a % m) ^ n) a m)
      (mul_congr ((a % m) ^ n) (a ^ n) a m (pow-mod a n m) ∙ ap (λ t. t % m) (sym (pow-suc a n)))

-- An exponent is twice its half, and a bit.
pub pow-halves : (a n : ℕ) → a ^ n ≡ (a * a) ^ (n / 2) * a ^ (n % 2)
pow-halves a zero = simp pow-zero
pow-halves a (suc zero) = simp (pow-zero, one-mul)
pow-halves a (suc (suc n)) =
    let half : suc (suc n) / 2 ≡ suc (n / 2) = omega arith in
    let bit : suc (suc n) % 2 ≡ n % 2 = omega arith in
    simp (half, bit, pow-suc, pow-halves a n) (omega arith)

-- ===== src/Prelude/Log.antt =====
-- `(int) std::ceil(std::log2(n))`, which several parts of the source compute, on exact numbers.
use native.Mathlib.Nat.{two-pow-succ}
use Prim.Native.Nat.{ℕ, zero, suc, ◌+◌, ◌*◌, ◌^◌, ◌≤◌, ◌<◌}
use mathlib.Core.Path.{◌≡◌}
use mathlib.Core.Logic.{inl, inr}
use native.Mathlib.Omega.{arith}
use pddm.Prelude.Int.{ℤ, pos, neg}
use pddm.Prelude.Tests.{leb, if◌then◌else◌, Bool-cases}

-- The least exponent k, counted up from `k`, for which n ≤ 2 ^ k.
least_exponent : ℕ → ℕ → ℕ → ℕ
least_exponent zero k n = k
least_exponent (suc fuel) k n =
    let next = least_exponent fuel (suc k) n in if leb n (2 ^ k) then k else next

unfoldable pub ceil_log2 : ℕ → ℕ
unfolding least_exponent
ceil_log2 n = least_exponent n 0 n

self-lt-pow : (n : ℕ) → n < 2 ^ n
self-lt-pow zero = omega arith
self-lt-pow (suc n) = omega (arith, two-pow-succ n, self-lt-pow n)

least_exponent-le : (fuel k j n : ℕ) → fuel + k ≡ j → n ≤ 2 ^ j → n ≤ 2 ^ least_exponent fuel k n
unfolding least_exponent
least_exponent-le zero k j n e h = let same : j ≡ k = omega arith in rw same at h
least_exponent-le (suc fuel) k j n e h = elim (Bool-cases (leb n (2 ^ k))) [
  | inl done ↦ rw done (ground arith)
  | inr more ↦ rw more (least_exponent-le fuel (suc k) j n (omega arith) h)
]

-- The fuel is enough: `ceil_log2 n` is an exponent for which n ≤ 2 ^ k.
pub le-pow-ceil_log2 : (n : ℕ) → n ≤ 2 ^ ceil_log2 n
unfolding ceil_log2
le-pow-ceil_log2 n = least_exponent-le n 0 n n (omega arith) (omega (arith, self-lt-pow n))

-- The greatest exponent j, counted up from `j`, for which n * 2 ^ j ≤ d.
greatest_exponent : ℕ → ℕ → ℕ → ℕ → ℕ
greatest_exponent zero j n d = j
greatest_exponent (suc fuel) j n d =
    let next = greatest_exponent fuel (suc j) n d in if leb (n * 2 ^ suc j) d then next else j

-- The least exponent k, counted up from `k`, for which n ≤ d * 2 ^ k.
least_ratio_exponent : ℕ → ℕ → ℕ → ℕ → ℕ
least_ratio_exponent zero k n d = k
least_ratio_exponent (suc fuel) k n d =
    let next = least_ratio_exponent fuel (suc k) n d in if leb n (d * 2 ^ k) then k else next

-- `(int) std::ceil(std::log2(n / (double) d))` for positive n and d.
unfoldable pub ceil_log2_ratio : ℕ → ℕ → ℤ
unfolding greatest_exponent least_ratio_exponent
ceil_log2_ratio n d =
    if leb n d then neg (greatest_exponent d 0 n d) else pos (least_ratio_exponent n 0 n d)

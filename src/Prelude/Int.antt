-- ===== src/Prelude/Int.antt =====
-- The integers, over the native numbers, where the source's `int` is negative.
use Prim.Native.Nat.{ℕ, zero, suc, ◌+◌, ◌*◌, ◌-◌}
use pddm.Prelude.Tests.{leb, if◌then◌else◌}

pub data ℤ : Type 0 where
  pos : ℕ → ℤ
  negsuc : ℕ → ℤ

-- The negative of a number.
abbrev pub neg : ℕ → ℤ
neg n = elim n [ zero ↦ pos 0 | suc m ↦ negsuc m ]

-- An integer times a number.
abbrev pub scale : ℕ → ℤ → ℤ
scale k (pos n) = pos (k * n)
scale k (negsuc n) = neg (k * (n + 1))

-- A number plus an integer.
abbrev pub plus : ℕ → ℤ → ℤ
plus n (pos m) = pos (n + m)
plus n (negsuc m) = if leb (m + 1) n then pos (n - (m + 1)) else negsuc (m - n)

-- ===== src/Overlay/Gossip/Correct.antt =====
-- The gossip target and the gossip predecessor as maps of the nodes.
use native.Mathlib.Nat.{mod-lt, mod-eq_of_lt, mod-eq-sub-mod, add-mod-mod}
use native.Mathlib.Decide.{dec_lt}
use pddm.Prelude.{ℕ, ◌+◌, ◌-◌, ◌%◌, ◌^◌, ◌≤◌, ◌<◌, ◌≡◌, ◌⊎◌, inl, inr, ap, ◌∙◌, arith}
use pddm.Overlay.ModPow.{u32, mod_pow}
use pddm.Overlay.ModPow.Correct.{mod_pow-eq-pow}
use pddm.Overlay.Gossip.{target, mod_subtract, predecessor}

-- Below the modulus, a sum and a difference wrap at most once.
mod_sum :
    (i y m : ℕ)
    → i < m
    → y < m
    → (i + y < m) × ((i + y) % m ≡ i + y) ⊎ (m ≤ i + y) × ((i + y) % m + m ≡ i + y)
mod_sum i y m p q = elim (dec_lt (i + y) m) [
  | yes h ↦ inl (h, mod-eq_of_lt h)
  | no h ↦
      let less : (i + y - m) % m ≡ i + y - m = mod-eq_of_lt (omega arith) in
      inr (omega arith, omega (arith, mod-eq-sub-mod {n = i + y} {m = m} (omega arith)))
]

mod_subtract_cases :
    (x y m : ℕ)
    → x < m
    → y < m
    → (y ≤ x) × (mod_subtract x y m + y ≡ x) ⊎ (x < y) × (mod_subtract x y m + y ≡ x + m)
unfolding mod_subtract
mod_subtract_cases x y m p q =
    let ahead : (x - y) % m ≡ x - y = mod-eq_of_lt (omega arith) in
    let behind : (y - x) % m ≡ y - x = mod-eq_of_lt (omega arith) in ground arith

subtract-add : (i y m : ℕ) → i < m → y < m → mod_subtract ((i + y) % m) y m ≡ i
subtract-add i y m p q =
    let wrapped = mod-lt (i + y) {m = m} (omega arith) in
    omega (arith, mod_sum i y m p q, mod_subtract_cases ((i + y) % m) y m wrapped q)

add-subtract :
    (j y m : ℕ) → j < m → y < m → (mod_subtract j y m < m) × ((mod_subtract j y m + y) % m ≡ j)
add-subtract j y m p q =
    let cases = mod_subtract_cases j y m p q in
    let below : mod_subtract j y m < m = omega arith in
    (below, omega (arith, mod_sum (mod_subtract j y m) y m below q))

module _ (n t : ℕ) (two : 1 < n) (small : n ≤ 65536) (round : t < 2 ^ 32) where
  jump : mod_pow 2 t n < n
  jump = omega (arith, mod_pow-eq-pow 2 t n (omega arith) round two small, mod-lt (2 ^ t) {m = n})

  target_sum : (i : ℕ) → i < n → target i t n ≡ (i + mod_pow 2 t n) % n
  unfolding target
  target_sum i h =
      let wide : u32 (i + mod_pow 2 t n) ≡ i + mod_pow 2 t n = mod-eq_of_lt (omega (arith, jump)) in
      rw wide

  target-eq-gossip : (i : ℕ) → i < n → target i t n ≡ (i + 2 ^ t) % n
  target-eq-gossip i h =
      target_sum i h
      ∙ ap (λ y. (i + y) % n) (mod_pow-eq-pow 2 t n (omega arith) round two small)
      ∙ add-mod-mod i (2 ^ t) n

  predecessor-target : (i : ℕ) → i < n → (target i t n < n) × (predecessor (target i t n) t n ≡ i)
  unfolding predecessor
  predecessor-target i h =
      rw (target_sum i h) (mod-lt _ (omega arith), subtract-add i (mod_pow 2 t n) n h jump)

  target-predecessor :
      (j : ℕ) → j < n → (predecessor j t n < n) × (target (predecessor j t n) t n ≡ j)
  unfolding predecessor
  target-predecessor j h =
      let (below, back) = add-subtract j (mod_pow 2 t n) n h jump in
      (below, target_sum _ below ∙ back)

-- In a system of n nodes, 1 < n ≤ 2^16, and a round below 2^32, the gossip target of node i is
-- (i + 2^round) mod n, as the header says, it is a node, and its predecessor in the round is i; and
-- the predecessor of i is a node, whose target is i.
pub gossip_inverse :
    (i t n : ℕ)
    → 1 < n
    → n ≤ 65536
    → t < 2 ^ 32
    → i < n
    → (target i t n ≡ (i + 2 ^ t) % n)
      × (target i t n < n)
      × (predecessor (target i t n) t n ≡ i)
      × (predecessor i t n < n)
      × (target (predecessor i t n) t n ≡ i)
gossip_inverse i t n two small round h =
    let (below, back) = predecessor-target n t two small round i h in
    let (below', forth) = target-predecessor n t two small round i h in
    (target-eq-gossip n t two small round i h, below, back, below', forth)

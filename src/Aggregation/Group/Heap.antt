-- ===== src/Aggregation/Group/Heap.antt =====
-- Sums over the nodes of a tree that is laid out as a binary heap: the children of node j are 2j + 1
-- and 2j + 2, as far as there are nodes.
use pddm.Prelude.{
  ℕ, zero, suc, ◌+◌, ◌*◌, ◌≤◌, ◌<◌, ◌≡◌, refl, ap, ◌∙◌, sym, leb, if◌then◌else◌, arith,
}

-- The sum of `f` below `n`.
abbrev pub sum_below : (ℕ → ℕ) → ℕ → ℕ
sum_below f zero = 0
sum_below f (suc n) = sum_below f n + f n

-- The sum of `f` over `n` numbers from `k` on.
abbrev sum_range : (ℕ → ℕ) → ℕ → ℕ → ℕ
sum_range f k zero = 0
sum_range f k (suc n) = f k + sum_range f (suc k) n

sum_range-last :
    (f : ℕ → ℕ) (k n last : ℕ) → k + n ≡ last → sum_range f k (suc n) ≡ sum_range f k n + f last
sum_range-last f k zero last e = let same : k ≡ last = omega arith in omega (arith, ap f same)
sum_range-last f k (suc n) last e = omega (arith, sum_range-last f (suc k) n last (omega arith))

sum_range_zero : (f : ℕ → ℕ) (k n : ℕ) → ((j : ℕ) → k ≤ j → f j ≡ 0) → sum_range f k n ≡ 0
sum_range_zero f k zero none = refl
sum_range_zero f k (suc n) none =
    omega (arith, none k (omega arith), sum_range_zero f (suc k) n (λ j h. none j (omega arith)))

-- What is summed over the tree of `size` nodes below node j, on fuel.
subtree : (ℕ → ℕ) → ℕ → ℕ → ℕ → ℕ
subtree f size zero j = 0
subtree f size (suc fuel) j =
    let below = subtree f size fuel (2 * j + 1) + subtree f size fuel (2 * j + 2) in
    if leb size j then 0 else f j + below

subtree-outside : (f : ℕ → ℕ) (size fuel j : ℕ) → size ≤ j → subtree f size fuel j ≡ 0
unfolding subtree
subtree-outside f size zero j h = refl
subtree-outside f size (suc fuel) j h = ground arith

subtree_zero : (f : ℕ → ℕ) → ((j : ℕ) → f j ≡ 0) → (size fuel j : ℕ) → subtree f size fuel j ≡ 0
unfolding subtree
subtree_zero f none size zero j = refl
subtree_zero f none size (suc fuel) j =
    let left = subtree_zero f none size fuel (2 * j + 1) in
    let right = subtree_zero f none size fuel (2 * j + 2) in ground (arith, none j)

-- All fuel that is enough gives the same.
subtree-fuel :
    (f : ℕ → ℕ) (size a b j : ℕ)
    → size ≤ j + a
    → size ≤ j + b
    → subtree f size a j ≡ subtree f size b j
unfolding subtree
subtree-fuel f size zero b j h k = sym (subtree-outside f size b j (omega arith))
subtree-fuel f size (suc a) zero j h k = subtree-outside f size (suc a) j (omega arith)
subtree-fuel f size (suc a) (suc b) j h k = ground (
  arith,
  subtree-fuel f size a b (2 * j + 1) (omega arith) (omega arith),
  subtree-fuel f size a b (2 * j + 2) (omega arith) (omega arith),
)

-- The sum over the subtree of node j.
pub sum_from : (ℕ → ℕ) → ℕ → ℕ → ℕ
unfolding subtree
sum_from f size j = subtree f size size j

module _ (f : ℕ → ℕ) (size : ℕ) where
  pub sum_from_zero : ((j : ℕ) → f j ≡ 0) → (j : ℕ) → sum_from f size j ≡ 0
  unfolding sum_from
  sum_from_zero none j = subtree_zero f none size size j

  pub sum_from-outside : (j : ℕ) → size ≤ j → sum_from f size j ≡ 0
  unfolding sum_from
  sum_from-outside j h = subtree-outside f size size j h

  pub sum_from-inside :
      (j : ℕ)
      → j < size
      → sum_from f size j ≡ f j + (sum_from f size (2 * j + 1) + sum_from f size (2 * j + 2))
  unfolding sum_from
  sum_from-inside j h =
      let one_more : subtree f size size j ≡ subtree f size (suc size) j =
        subtree-fuel f size size (suc size) j (omega arith) (omega arith) in
      one_more ∙ (unfold subtree in ground arith)

  -- The nodes from `k` on whose parents are all below `k` are those from `k` to 2k.
  frontier : ℕ → ℕ
  frontier k = sum_range (sum_from f size) k (suc k)

  -- Node `k` is taken from the frontier, and its two children come in.
  frontier-step : (k : ℕ) → k < size → frontier k ≡ f k + frontier (suc k)
  unfolding frontier
  frontier-step k h =
      let S = sum_from f size in
      omega (
        arith,
        sum_from-inside k h,
        sum_range-last S (suc k) k (2 * k + 1) (omega arith),
        sum_range-last S (suc k) (suc k) (2 * k + 2) (omega arith),
      )

  frontier-sum : (k : ℕ) → k ≤ size → sum_from f size 0 ≡ sum_below f k + frontier k
  frontier-sum zero h = unfold frontier in omega arith
  frontier-sum (suc k) h =
      omega (arith, frontier-sum k (omega arith), frontier-step k (omega arith))

  -- The subtree of the root has every node once.
  pub sum_from_root : sum_from f size 0 ≡ sum_below f size
  unfolding frontier
  sum_from_root = omega (
    arith,
    frontier-sum size (omega arith),
    sum_range_zero (sum_from f size) size (suc size) sum_from-outside,
  )

-- ===== src/Prelude/Lists.antt =====
-- Lists measured and indexed by native numbers, and the sets and predicates over them.
use Prim.Native.Nat.{ℕ, zero, suc, ◌+◌}
use mathlib.Core.Path.{◌≡◌, refl, ap}
use mathlib.Core.Logic.{◌↔◌}
use mathlib.Core.Bool.{Bool, true, false, ◌||◌, ◌&&◌}
use mathlib.Core.List.{List, [], ◌∷◌, ◌++◌}
use mathlib.Core.Option.{Option, none, some}
use native.Mathlib.Omega.{arith}
use pddm.Prelude.Tests.{◌==◌, if◌then◌else◌, &&-true, ==_iff}

module _ {ℓ} {A : Type ℓ} where
  abbrev pub length : List A → ℕ
  length [] = 0
  length (x ∷ xs) = suc (length xs)

  abbrev pub get_elem? : List A → ℕ → Option A
  get_elem? [] i = none
  get_elem? (x ∷ xs) zero = some x
  get_elem? (x ∷ xs) (suc i) = get_elem? xs i

  -- A write out of bounds changes nothing.
  abbrev pub set : List A → ℕ → A → List A
  set [] i v = []
  set (x ∷ xs) zero v = v ∷ xs
  set (x ∷ xs) (suc i) v = x ∷ set xs i v

  abbrev pub replicate : ℕ → A → List A
  replicate zero a = []
  replicate (suc n) a = a ∷ replicate n a

  pub length-append : (xs ys : List A) → length (xs ++ ys) ≡ length xs + length ys
  length-append [] ys = omega arith
  length-append (x ∷ xs) ys = omega (arith, length-append xs ys)

  pub length-replicate : (n : ℕ) (a : A) → length (replicate n a) ≡ n
  length-replicate zero a = refl
  length-replicate (suc n) a = ap suc (length-replicate n a)

-- `std::set<int>::find(x) != end()`, and the same on a list.
abbrev pub contains : List ℕ → ℕ → Bool
contains [] a = false
contains (x ∷ xs) a = x == a || contains xs a

-- `std::set<int>::insert`.
abbrev pub insert_id : ℕ → List ℕ → List ℕ
insert_id a xs = if contains xs a then xs else a ∷ xs

pub contains-insert_id :
    (a b : ℕ) (xs : List ℕ) → contains (insert_id a xs) b ≡ (a == b || contains xs b)
contains-insert_id a b xs = ground arith

-- Equality of two vectors of numbers.
abbrev pub same_list : List ℕ → List ℕ → Bool
same_list [] [] = true
same_list (x ∷ xs) (y ∷ ys) = x == y && same_list xs ys
same_list _ _ = false

pub same_list_iff : (xs ys : List ℕ) → (same_list xs ys ≡ true) ↔ (xs ≡ ys)
same_list_iff [] [] = (λ h. refl, λ h. refl)
same_list_iff [] (y ∷ ys) = (λ h. cc, λ h. cc)
same_list_iff (x ∷ xs) [] = (λ h. cc, λ h. cc)
same_list_iff (x ∷ xs) (y ∷ ys) =
    let rest = same_list_iff xs ys in
    (
      λ h.
          let (p, q) = &&-true (x == y) (same_list xs ys) h in
          let heads = (==_iff x y).0 p in let tails = rest.0 q in rw (heads, tails),
      λ h.
          let heads : x ≡ y = cc in
          let tails : xs ≡ ys = cc in rw ((==_iff x y).1 heads, rest.1 tails),
    )

module _ {ℓ κ} {A : Type ℓ} where
  -- Every element has the property.
  abbrev pub All : (A → Type κ) → List A → Type κ
  All P [] = Unit {κ}
  All P (x ∷ xs) = P x × All P xs

  pub All-append : (P : A → Type κ) (xs ys : List A) → All P xs → All P ys → All P (xs ++ ys)
  All-append P [] ys h k = k
  All-append P (x ∷ xs) ys h k = (h.0, All-append P xs ys h.1 k)

  pub All-imp : (P Q : A → Type κ) (xs : List A) → ((x : A) → P x → Q x) → All P xs → All Q xs
  All-imp P Q [] f h = tt
  All-imp P Q (x ∷ xs) f h = (f x h.0, All-imp P Q xs f h.1)

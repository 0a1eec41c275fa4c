-- ===== src/Simulation/Queue.antt =====
-- The std::priority_queue of events by their time, which orders events of the same time as it likes.
use mathlib.Core.List.{Permᴰ}
use pddm.Prelude.{◌≤◌, ◌≡◌, ap, List, ◌∷◌, All, length, suc, ◌∙◌, refl}
use pddm.Simulation.Event.{Event}

-- `pop` is `top` and `pop` of a queue that is not empty. The list is the vector in the queue.
pub record PriorityQueue (A : Type 0) : Type 0 where
  pub push : Event A → List (Event A) → List (Event A)
  pub pop : Event A → List (Event A) → Event A × List (Event A)
  pub push-perm : (e : Event A) (q : List (Event A)) → Permᴰ (push e q) (e ∷ q)
  pub pop-perm : (e : Event A) (q : List (Event A)) → Permᴰ ((pop e q).0 ∷ (pop e q).1) (e ∷ q)
  pub pop_least :
      (e : Event A) (q : List (Event A)) → All (λ x. (pop e q).0.fire_time ≤ x.fire_time) (e ∷ q)

module _ {ℓ κ} {A : Type ℓ} where
  -- What holds of all elements holds of them in any order.
  pub All-perm : (P : A → Type κ) {xs ys : List A} → Permᴰ xs ys → All P xs → All P ys
  All-perm P Permᴰ.nil h = tt
  All-perm P (Permᴰ.cons e p) (h, hs) = (rw e at h, All-perm P p hs)
  All-perm P (Permᴰ.swap e d) (h, (k, hs)) = (rw d at k, (rw e at h, hs))
  All-perm P (Permᴰ.trans p q) h = All-perm P q (All-perm P p h)

module _ {ℓ} {A : Type ℓ} where
  pub length-perm : {xs ys : List A} → Permᴰ xs ys → length xs ≡ length ys
  length-perm Permᴰ.nil = refl
  length-perm (Permᴰ.cons e p) = ap suc (length-perm p)
  length-perm (Permᴰ.swap e d) = refl
  length-perm (Permᴰ.trans p q) = length-perm p ∙ length-perm q

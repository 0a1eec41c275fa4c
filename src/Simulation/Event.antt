-- ===== src/Simulation/Event.antt =====
-- simulation/Event.h and Event.cpp, without the name that is only printed.
use pddm.Prelude.{ℕ, ltb, leb, Bool, true}

-- `id` is which object it is: what a std::weak_ptr to it points to.
pub record Event (A : Type 0) : Type 0 where
  pub id : ℕ
  pub action : A
  pub fire_time : ℕ
  pub timeout : Bool
  pub cancelled : Bool

module _ {A : Type 0} where
  -- The operators < and <=.
  abbrev pub is_before : Event A → Event A → Bool
  is_before lhs rhs = ltb lhs.fire_time rhs.fire_time

  abbrev pub is_at_most : Event A → Event A → Bool
  is_at_most lhs rhs = leb lhs.fire_time rhs.fire_time

  unfoldable pub cancel : Event A → Event A
  cancel e = record e { cancelled = true }

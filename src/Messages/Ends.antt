-- ===== src/Messages/Ends.antt =====
-- The operations of the model that end: with an exception, or with a value that has a property, but
-- not because a recursion of the model is cut short.
use pddm.Prelude.{◌≢◌, Bool, true, false, if◌then◌else◌}
use pddm.Messages.Outcome.{
  Outcome, ok, out_of_range, length_error, invalid_node, no_path, too_many_groups, past_event,
  time_moved_backwards, setup_twice, no_meters, assertion_failed, undefined, out_of_fuel, ◌>>=◌,
}

abbrev pub Ends {ℓ} : {A : Type ℓ} → (A → Type 0) → Outcome A → Type 0
Ends P (ok value) = P value
Ends P out_of_range = Unit {0}
Ends P length_error = Unit {0}
Ends P invalid_node = Unit {0}
Ends P no_path = Unit {0}
Ends P too_many_groups = Unit {0}
Ends P past_event = Unit {0}
Ends P time_moved_backwards = Unit {0}
Ends P setup_twice = Unit {0}
Ends P no_meters = Unit {0}
Ends P assertion_failed = Unit {0}
Ends P undefined = Unit {0}
Ends P out_of_fuel = ⊥

-- The property that every value has.
abbrev pub Any {ℓ} : {A : Type ℓ} → A → Type 0
Any value = Unit {0}

pub Ends-returns {ℓ} : {A : Type ℓ} → (P : A → Type 0) (r : Outcome A) → Ends P r → r ≢ out_of_fuel
Ends-returns P (ok value) h e = cc
Ends-returns P out_of_range h e = cc
Ends-returns P length_error h e = cc
Ends-returns P invalid_node h e = cc
Ends-returns P no_path h e = cc
Ends-returns P too_many_groups h e = cc
Ends-returns P past_event h e = cc
Ends-returns P time_moved_backwards h e = cc
Ends-returns P setup_twice h e = cc
Ends-returns P no_meters h e = cc
Ends-returns P assertion_failed h e = cc
Ends-returns P undefined h e = cc
Ends-returns P out_of_fuel h e = h

module _ {ℓ κ} {A : Type ℓ} {B : Type κ} (P : A → Type 0) (Q : B → Type 0) where
  pub bind-Ends :
      (first : Outcome A) (next : A → Outcome B)
      → Ends P first
      → ((value : A) → P value → Ends Q (next value))
      → Ends Q (first >>= next)
  bind-Ends (ok value) next h k = k value h
  bind-Ends out_of_range next h k = tt
  bind-Ends length_error next h k = tt
  bind-Ends invalid_node next h k = tt
  bind-Ends no_path next h k = tt
  bind-Ends too_many_groups next h k = tt
  bind-Ends past_event next h k = tt
  bind-Ends time_moved_backwards next h k = tt
  bind-Ends setup_twice next h k = tt
  bind-Ends no_meters next h k = tt
  bind-Ends assertion_failed next h k = tt
  bind-Ends undefined next h k = tt
  bind-Ends out_of_fuel next h k = h

pub if-Ends {ℓ} :
    {A : Type ℓ}
    → (P : A → Type 0) (b : Bool) (x y : Outcome A) → Ends P x
    → Ends P y
    → Ends P (if b then x else y)
if-Ends P true x y h h' = h
if-Ends P false x y h h' = h'

pub weaken-Ends {ℓ} :
    {A : Type ℓ}
    → (P Q : A → Type 0) (r : Outcome A) → Ends P r
    → ((value : A) → P value → Q value)
    → Ends Q r
weaken-Ends P Q (ok value) h k = k value h
weaken-Ends P Q out_of_range h k = tt
weaken-Ends P Q length_error h k = tt
weaken-Ends P Q invalid_node h k = tt
weaken-Ends P Q no_path h k = tt
weaken-Ends P Q too_many_groups h k = tt
weaken-Ends P Q past_event h k = tt
weaken-Ends P Q time_moved_backwards h k = tt
weaken-Ends P Q setup_twice h k = tt
weaken-Ends P Q no_meters h k = tt
weaken-Ends P Q assertion_failed h k = tt
weaken-Ends P Q undefined h k = tt
weaken-Ends P Q out_of_fuel h k = h

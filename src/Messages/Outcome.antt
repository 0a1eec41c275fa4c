-- ===== src/Messages/Outcome.antt =====
-- What a C++ operation comes to: a value, an exception, a failed assertion, or undefined behaviour
-- (an element read past the end of a vector by [], or a null pointer that is dereferenced).
-- A recursion of the model that stops early is `out_of_fuel`.
use pddm.Prelude.{◌≡◌, refl}

-- `invalid_node` and `no_path` are the two std::runtime_errors of util/PathFinder.cpp, and
-- `too_many_groups` is that of `pick_proxies`. The next two are those of simulation/EventManager.cpp, and
-- the two after them those of simulation/Network.cpp.
pub data Outcome {ℓ} (A : Type ℓ) : Type ℓ where
  ok : A → Outcome A
  out_of_range length_error invalid_node no_path too_many_groups : Outcome A
  past_event time_moved_backwards setup_twice no_meters : Outcome A
  assertion_failed undefined out_of_fuel : Outcome A

module _ {ℓ κ} {A : Type ℓ} {B : Type κ} where
  infixl 5 ◌>>=◌
  -- A step, and the next one if the first returns.
  abbrev pub ◌>>=◌ : Outcome A → (A → Outcome B) → Outcome B
  ok value >>= next = next value
  out_of_range >>= next = out_of_range
  length_error >>= next = length_error
  invalid_node >>= next = invalid_node
  no_path >>= next = no_path
  too_many_groups >>= next = too_many_groups
  past_event >>= next = past_event
  time_moved_backwards >>= next = time_moved_backwards
  setup_twice >>= next = setup_twice
  no_meters >>= next = no_meters
  assertion_failed >>= next = assertion_failed
  undefined >>= next = undefined
  out_of_fuel >>= next = out_of_fuel

  -- If two steps in a row return, then so does each of them.
  pub both_return :
      (first : Outcome A) (next : A → Outcome B) {end : B}
      → (first >>= next) ≡ ok end
      → (value : A) × (first ≡ ok value) × (next value ≡ ok end)
  both_return (ok value) next returns = (value, refl, returns)
  both_return out_of_range next returns = cc
  both_return length_error next returns = cc
  both_return invalid_node next returns = cc
  both_return no_path next returns = cc
  both_return too_many_groups next returns = cc
  both_return past_event next returns = cc
  both_return time_moved_backwards next returns = cc
  both_return setup_twice next returns = cc
  both_return no_meters next returns = cc
  both_return assertion_failed next returns = cc
  both_return undefined next returns = cc
  both_return out_of_fuel next returns = cc

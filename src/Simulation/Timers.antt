-- ===== src/Simulation/Timers.antt =====
-- simulation/SimTimerManager.h and SimTimerManager.cpp: timers as events of the simulation.
--
-- The operations are parts of a program over the EventManager, which go on with `k`.
pub mod Cancel
use pddm.Prelude.{ℕ, ◌+◌, ◌==◌, if◌then◌else◌, true, Option, none, some, List, [], ◌∷◌}
use pddm.Simulation.EventManager.{Program, now, submitting, cancelling, if_expired}

-- `timer_events` has a weak pointer for each timer.
pub record SimTimerManager : Type 0 where
  pub next_id : ℕ
  pub timer_events : List (ℕ × ℕ)

abbrev pub find_timer : ℕ → List (ℕ × ℕ) → Option ℕ
find_timer id [] = none
find_timer id ((k, event) ∷ rest) = if k == id then some event else find_timer id rest

abbrev pub erase_timer : ℕ → List (ℕ × ℕ) → List (ℕ × ℕ)
erase_timer id [] = []
erase_timer id ((k, event) ∷ rest) =
    if k == id then erase_timer id rest else (k, event) ∷ erase_timer id rest

module _ {A W : Type 0} where
  unfoldable pub register_timer :
      SimTimerManager → ℕ → A → (ℕ → SimTimerManager → Program A W) → Program A W
  register_timer t delay_ms callback k = now (λ time.
      submitting callback (time + delay_ms) true (λ event. k t.next_id (record t {
        next_id = t.next_id + 1;
        timer_events = (t.next_id, event) ∷ erase_timer t.next_id t.timer_events;
      })))

  unfoldable pub cancel_timer : SimTimerManager → ℕ → (SimTimerManager → Program A W) → Program A W
  cancel_timer t timer_id k = elim (find_timer timer_id t.timer_events) [
    | none ↦ k t
    | some event ↦ if_expired event (λ is_expired.
        if is_expired
        then k t
        else cancelling event (k (record t { timer_events = erase_timer timer_id t.timer_events })))
  ]

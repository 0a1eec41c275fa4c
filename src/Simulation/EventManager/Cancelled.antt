-- ===== src/Simulation/EventManager/Cancelled.antt =====
-- The events of EventManager.cpp that are cancelled.
use pddm.Prelude.{ℕ, ◌<◌, ◌≡◌, true, Option, none, some, ◌∷◌, All}
use pddm.Messages.Outcome.{Outcome, ok}
use pddm.Simulation.Event.{Event}
use pddm.Simulation.Queue.{PriorityQueue}
use pddm.Simulation.EventManager.{EventManager, Program, Simulation, fire_next}
use pddm.Simulation.EventManager.Proceeds.{Proceeds}
use pddm.Simulation.EventManager.Invariant.{AllEvents}

-- If the event is the object `id`, it is cancelled.
abbrev pub Dead : {A : Type 0} → ℕ → Event A → Type 0
Dead id e = e.id ≡ id → e.cancelled ≡ true

-- Whatever is in the queues or was taken is not the object `id`, or cancelled.
abbrev pub IsDead : {A W : Type 0} → ℕ → Simulation A W → Type 0
IsDead id s = (id < s.manager.next_id) × AllEvents (Dead id) s.manager × All (Dead id) s.history

module _ {A W : Type 0} (pq : PriorityQueue A) (perform : A → W → Program A W) (id : ℕ) where
  abbrev KeepsOut : EventManager A → Type 0
  KeepsOut m = (id < m.next_id) × AllEvents (Dead id) m

  -- The round that takes the event `next`, and only takes it.
  abbrev pub skipped : EventManager A → Event A → Simulation A W → Simulation A W
  skipped m next t = record t {
    manager = record m { simulation_time = next.fire_time; firing = none };
    history = next ∷ t.history;
  }

  -- The round, by what `take_next` gives.
  abbrev round : Simulation A W → EventManager A × Option (Event A) → Outcome (Simulation A W)
  round t r = elim r.1 [
    | none ↦ ok (record t { manager = r.0; is_over = true })
    | some next ↦ fire_next pq perform t r.0 next
  ]

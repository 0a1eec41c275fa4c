-- ===== src/Simulation/EventManager/Time.antt =====
-- The time of EventManager.cpp.
use pddm.Prelude.{
  ℕ, ◌≤◌, refl, inl, inr, arith, true, Bool-cases, Option, none, some, List, [], ◌∷◌, All, All-imp,
  ltb, ltb→lt,
}
use pddm.Messages.Outcome.{ok}
use pddm.Simulation.Event.{Event}
use pddm.Simulation.Queue.{PriorityQueue}
use pddm.Simulation.EventManager.{
  EventManager, Program, Simulation, take_next, fire, fire_next, turn, run_simulation,
}
use pddm.Simulation.EventManager.Proceeds.{
  Proceeds, bind-Proceeds, fire-Proceeds, run_simulation-Proceeds,
}
use pddm.Simulation.EventManager.Invariant.{
  AllEvents, Pending, IsValid, ValidAt, Taken, take_next-Taken, enqueue-ValidAt,
  cancel_event-ValidAt,
}

-- The taken events, the last one first, have falling times, from a time on.
abbrev pub Descending : {A : Type 0} → ℕ → List (Event A) → Type 0
Descending time [] = Unit {0}
Descending time (e ∷ before) = (e.fire_time ≤ time) × Descending e.fire_time before

Descending-mono :
    {A : Type 0} (t u : ℕ) (h : List (Event A)) → t ≤ u → Descending t h → Descending u h
Descending-mono t u [] le d = tt
Descending-mono t u (e ∷ h) le d = (omega arith, d.1)

-- No event is in the past, and those taken so far came in the order of their times.
abbrev pub InOrder : {A W : Type 0} → Simulation A W → Type 0
InOrder s = IsValid s.manager × Descending s.manager.simulation_time s.history

All-both :
    {A : Type 0} (P Q : A → Type 0) (xs : List A) → All P xs → All Q xs → All (λ x. P x × Q x) xs
All-both P Q [] h k = tt
All-both P Q (x ∷ xs) h k = ((h.0, k.0), All-both P Q xs h.1 k.1)

module _ {A W : Type 0} (pq : PriorityQueue A) (perform : A → W → Program A W) where
  fire-ValidAt :
      (e : Event A) (w : W) (m : EventManager A)
      → ValidAt pq e.fire_time m
      → Proceeds (λ r. ValidAt pq e.fire_time r.1) (fire pq perform e w m)
  fire-ValidAt e w m v =
      fire-Proceeds pq perform (ValidAt pq e.fire_time) (enqueue-ValidAt pq e.fire_time)
        (cancel_event-ValidAt pq e.fire_time) e w m v

  fire_next-InOrder :
      (s : Simulation A W) (m : EventManager A) (next : Event A)
      → InOrder s
      → Taken (Pending s.manager.simulation_time s.manager.next_id) s.manager (m, some next)
      → Proceeds InOrder (fire_next pq perform s m next)
  unfolding fire_next
  fire_next-InOrder s m next (v, d) (all, time, ids, p, least) =
      elim (Bool-cases (ltb next.fire_time m.simulation_time)) [
        | inl before ↦
            let lt = ltb→lt next.fire_time m.simulation_time before in absurd (omega arith)
        | inr not_before ↦ rw not_before (
            bind-Proceeds (λ r. ValidAt pq next.fire_time r.1) InOrder
              (fire pq perform next s.world at_next) _
              (fire-ValidAt next s.world at_next (both, refl))
              (λ (w, m') (v', same).
                (v', (omega arith, Descending-mono _ next.fire_time s.history p.0 d))))
      ]
    where
      at_next : EventManager A
      at_next = record m { simulation_time = next.fire_time; firing = some next.id }

      both : AllEvents (Pending next.fire_time m.next_id) m
      both =
          let merge =
            λ (q : List (Event A)) (h : All (Pending s.manager.simulation_time s.manager.next_id) q)
                (k : All (λ x. next.fire_time ≤ x.fire_time) q).
              All-imp _ (Pending next.fire_time m.next_id) q (λ e r. (r.1, omega arith))
                (All-both _ _ q h k) in
          (merge m.event_queue all.0 least.0, merge m.timeout_queue all.1 least.1)

  pub turn-InOrder : (s : Simulation A W) → InOrder s → Proceeds InOrder (turn pq perform s)
  unfolding turn
  turn-InOrder s h =
      go (take_next pq s.manager)
        (take_next-Taken pq (Pending s.manager.simulation_time s.manager.next_id) s.manager h.0)
    where
      go :
          (r : EventManager A × Option (Event A))
          → Taken (Pending s.manager.simulation_time s.manager.next_id) s.manager r
          → Proceeds InOrder (elim r.1 [
            | none ↦ ok (record s { manager = r.0; is_over = true })
            | some next ↦ fire_next pq perform s r.0 next
          ])
      go (m, none) (all, time, ids) = (rw (time, ids) all, rw time h.1)
      go (m, some next) taken = fire_next-InOrder s m next h taken

  -- From a state without events in the past, and for actions that do whatever they want with the
  -- manager, any number of rounds of the simulation ends in such a state, in which the events were taken
  -- in the order of their times; or an action has thrown the exception of an event that it submitted in
  -- the past. The exception that time has moved backwards is never thrown.
  pub run_simulation-InOrder :
      (n : ℕ) (s : Simulation A W) → InOrder s → Proceeds InOrder (run_simulation pq perform n s)
  run_simulation-InOrder n s h = run_simulation-Proceeds pq perform InOrder turn-InOrder n s h

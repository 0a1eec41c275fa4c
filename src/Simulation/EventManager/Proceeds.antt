-- ===== src/Simulation/EventManager/Proceeds.antt =====
-- Properties that hold after an action, and over the rounds of the loop of EventManager.cpp.
use pddm.Prelude.{ℕ, zero, suc, ◌≤◌, inl, inr, Bool, true, false, Bool-cases, ltb, arith}
use pddm.Messages.Outcome.{
  Outcome, ok, out_of_range, length_error, invalid_node, no_path, too_many_groups, past_event,
  time_moved_backwards, setup_twice, no_meters, assertion_failed, undefined, out_of_fuel, ◌>>=◌,
}
use pddm.Simulation.Event.{Event}
use pddm.Simulation.Queue.{PriorityQueue}
use pddm.Simulation.EventManager.{
  EventManager, Program, Simulation, submit, enqueue, new_event, cancel_event, expired, exec, fire,
  turn, run_simulation,
}

-- A value with the property, or the exception of an action that submits an event in the past.
abbrev pub Proceeds {ℓ} : {A : Type ℓ} → (A → Type 0) → Outcome A → Type 0
Proceeds P (ok value) = P value
Proceeds P past_event = Unit {0}
Proceeds P _ = ⊥

module _ {ℓ} {A : Type ℓ} (P Q : A → Type 0) where
  pub both-Proceeds : (r : Outcome A) → Proceeds P r → Proceeds Q r → Proceeds (λ v. P v × Q v) r
  both-Proceeds (ok value) h k = (h, k)
  both-Proceeds past_event h k = tt
  both-Proceeds out_of_range h k = h
  both-Proceeds length_error h k = h
  both-Proceeds invalid_node h k = h
  both-Proceeds no_path h k = h
  both-Proceeds too_many_groups h k = h
  both-Proceeds time_moved_backwards h k = h
  both-Proceeds setup_twice h k = h
  both-Proceeds no_meters h k = h
  both-Proceeds assertion_failed h k = h
  both-Proceeds undefined h k = h
  both-Proceeds out_of_fuel h k = h

  pub imp-Proceeds : (r : Outcome A) → ((v : A) → P v → Q v) → Proceeds P r → Proceeds Q r
  imp-Proceeds (ok value) f h = f value h
  imp-Proceeds past_event f h = tt
  imp-Proceeds out_of_range f h = h
  imp-Proceeds length_error f h = h
  imp-Proceeds invalid_node f h = h
  imp-Proceeds no_path f h = h
  imp-Proceeds too_many_groups f h = h
  imp-Proceeds time_moved_backwards f h = h
  imp-Proceeds setup_twice f h = h
  imp-Proceeds no_meters f h = h
  imp-Proceeds assertion_failed f h = h
  imp-Proceeds undefined f h = h
  imp-Proceeds out_of_fuel f h = h

module _ {ℓ κ} {A : Type ℓ} {B : Type κ} (P : A → Type 0) (Q : B → Type 0) where
  pub bind-Proceeds :
      (first : Outcome A) (next : A → Outcome B)
      → Proceeds P first
      → ((value : A) → P value → Proceeds Q (next value))
      → Proceeds Q (first >>= next)
  bind-Proceeds (ok value) next h k = k value h
  bind-Proceeds past_event next h k = tt
  bind-Proceeds out_of_range next h k = h
  bind-Proceeds length_error next h k = h
  bind-Proceeds invalid_node next h k = h
  bind-Proceeds no_path next h k = h
  bind-Proceeds too_many_groups next h k = h
  bind-Proceeds time_moved_backwards next h k = h
  bind-Proceeds setup_twice next h k = h
  bind-Proceeds no_meters next h k = h
  bind-Proceeds assertion_failed next h k = h
  bind-Proceeds undefined next h k = h
  bind-Proceeds out_of_fuel next h k = h

module _ {A W : Type 0} (pq : PriorityQueue A) (perform : A → W → Program A W) where
  -- What new events and cancellations keep, an action keeps.
  module _ (I : EventManager A → Type 0)
      (enqueues : (m : EventManager A) (action : A) (fire_time : ℕ) (is_timeout : Bool)
        → I m
        → m.simulation_time ≤ fire_time
        → I (enqueue pq m (new_event m action fire_time is_timeout)))
      (cancels : (m : EventManager A) (id : ℕ) → I m → I (cancel_event m id)) where
    pub submit-Proceeds :
        (m : EventManager A) (action : A) (fire_time : ℕ) (is_timeout : Bool)
        → I m
        → Proceeds (λ r. I r.0) (submit pq m action fire_time is_timeout)
    unfolding submit
    submit-Proceeds m action fire_time is_timeout h =
        elim (Bool-cases (ltb fire_time m.simulation_time)) [
          | inl past ↦ rw past tt
          | inr not_past ↦
              let le : m.simulation_time ≤ fire_time = ground arith in
              rw not_past (enqueues m action fire_time is_timeout h le)
        ]

    pub exec-Proceeds :
        (p : Program A W) (m : EventManager A) → I m → Proceeds (λ r. I r.1) (exec pq perform p m)
    unfolding exec
    exec-Proceeds (Program.done w) m h = h
    exec-Proceeds (Program.now k) m h = exec-Proceeds (k m.simulation_time) m h
    exec-Proceeds (Program.submitting action time is_timeout k) m h =
        bind-Proceeds (λ r. I r.0) (λ r. I r.1) (submit pq m action time is_timeout) _
          (submit-Proceeds m action time is_timeout h) (λ (m', id) h'. exec-Proceeds (k id) m' h')
    exec-Proceeds (Program.cancelling id p) m h =
        exec-Proceeds p (cancel_event m id) (cancels m id h)
    exec-Proceeds (Program.if_expired id k) m h = exec-Proceeds (k (expired m id)) m h

    pub fire-Proceeds :
        (e : Event A) (w : W) (m : EventManager A)
        → I m
        → Proceeds (λ r. I r.1) (fire pq perform e w m)
    unfolding fire
    fire-Proceeds e w m h = go e.cancelled
      where
        go :
            (b : Bool)
            → Proceeds
                (λ r. I r.1)
                (elim b [ true ↦ ok (w, m) | false ↦ exec pq perform (perform e.action w) m ])
        go true = h
        go false = exec-Proceeds (perform e.action w) m h

  -- What a round keeps, all rounds keep.
  pub run_simulation-Proceeds :
      (J : Simulation A W → Type 0)
      → ((s : Simulation A W) → J s → Proceeds J (turn pq perform s))
      → (n : ℕ) (s : Simulation A W) → J s
      → Proceeds J (run_simulation pq perform n s)
  unfolding run_simulation
  run_simulation-Proceeds J keeps zero s h = h
  run_simulation-Proceeds J keeps (suc n) s h = go s.is_over (
      bind-Proceeds J J (turn pq perform s) (run_simulation pq perform n) (keeps s h)
        (run_simulation-Proceeds J keeps n))
    where
      go :
          (b : Bool)
          → Proceeds J (turn pq perform s >>= run_simulation pq perform n)
          → Proceeds J (elim b [
            | true ↦ ok s
            | false ↦ turn pq perform s >>= (λ s'. run_simulation pq perform n s')
          ])
      go true later = h
      go false later = later

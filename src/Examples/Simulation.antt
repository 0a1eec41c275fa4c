-- ===== src/Examples/Simulation.antt =====
-- A simulation of numbered actions, over a queue that looks through its events.
use mathlib.Core.List.Permᴰ
use mathlib.Core.List.{Permᴰ}
use mathlib.Core.Path.{subst}
use pddm.Prelude.{
  ◌==◌, sym, ℕ, ◌≤◌, ◌≡◌, refl, arith, leb, leb→le, not_leb→lt, if◌then◌else◌, Bool, true, false,
  Bool-cases, inl, inr, Option, none, List, [], ◌∷◌, All, All-imp,
}
use pddm.Messages.Outcome.{ok}
use pddm.Simulation.Event.{Event}
use pddm.Simulation.Queue.{PriorityQueue}
use pddm.Simulation.EventManager.{
  EventManager, Program, done, submitting, Simulation, run_simulation, cancel_event, take_next,
  enqueue,
}
use pddm.Simulation.EventManager.Proceeds.{Proceeds}
use pddm.Simulation.EventManager.Time.{InOrder, run_simulation-InOrder}
use pddm.Simulation.EventManager.Refines.{IsPool, pending, manager-IsPool}

-- The first of the earliest events, and the others.
abbrev pop_earliest : Event ℕ → List (Event ℕ) → Event ℕ × List (Event ℕ)
pop_earliest e [] = (e, [])
pop_earliest e (x ∷ q) =
    let (least, rest) = pop_earliest x q in
    if leb e.fire_time least.fire_time then (e, x ∷ q) else (least, e ∷ rest)

pop_earliest-perm :
    (e : Event ℕ) (q : List (Event ℕ)) → Permᴰ ((pop_earliest e q).0 ∷ (pop_earliest e q).1) (e ∷ q)
pop_earliest-perm e [] = Permᴰ.refl _
pop_earliest-perm e (x ∷ q) = elim (Bool-cases (leb e.fire_time (pop_earliest x q).0.fire_time)) [
  | inl first ↦ rw first (Permᴰ.refl _)
  | inr later ↦
      rw later (Permᴰ.trans (Permᴰ.swap refl refl) (Permᴰ.cons refl (pop_earliest-perm x q)))
]

pop_earliest_least :
    (e : Event ℕ) (q : List (Event ℕ))
    → All (λ x. (pop_earliest e q).0.fire_time ≤ x.fire_time) (e ∷ q)
pop_earliest_least e [] = (omega arith, tt)
pop_earliest_least e (x ∷ q) =
    let least = (pop_earliest x q).0 in
    elim (Bool-cases (leb e.fire_time least.fire_time)) [
      | inl first ↦
          let le = leb→le e.fire_time least.fire_time first in
          let eq : pop_earliest e (x ∷ q) ≡ (e, x ∷ q) = rw first refl in
          subst IsFirst (sym eq)
            (omega arith, All-imp _ _ (x ∷ q) (λ y h. omega arith) (pop_earliest_least x q))
      | inr later ↦
          let lt = not_leb→lt e.fire_time least.fire_time later in
          let eq : pop_earliest e (x ∷ q) ≡ (least, e ∷ (pop_earliest x q).1) = rw later refl in
          subst IsFirst (sym eq) (omega arith, pop_earliest_least x q)
    ]
  where
    IsFirst : Event ℕ × List (Event ℕ) → Type 0
    IsFirst r = All (λ y. r.0.fire_time ≤ y.fire_time) (e ∷ x ∷ q)

abbrev by_scan : PriorityQueue ℕ
by_scan = record {
  push = λ e q. e ∷ q;
  pop = pop_earliest;
  push-perm = λ e q. Permᴰ.refl _;
  pop-perm = pop_earliest-perm;
  pop_least = pop_earliest_least;
}

-- An action writes its number down, and submits a timeout with the number 9 if it is 1.
abbrev perform : ℕ → List ℕ → Program ℕ (List ℕ)
perform n written =
    if n == 1 then submitting 9 30 true (λ id. done (1 ∷ written)) else done (n ∷ written)

abbrev event : ℕ → ℕ → ℕ → Bool → Event ℕ
event id action time timeout = record {
  id = id;
  action = action;
  fire_time = time;
  timeout = timeout;
  cancelled = false;
}

abbrev manager : EventManager ℕ
manager = record {
  simulation_time = 0;
  event_queue = event 0 1 25 false ∷ event 1 2 3 false ∷ [];
  timeout_queue = event 2 3 4 true ∷ event 3 4 25 true ∷ [];
  last_gc_time = 0;
  next_id = 4;
  firing = none;
}

abbrev simulation : Simulation ℕ (List ℕ)
simulation = record { world = []; manager = manager; history = []; is_over = false }

simulation-InOrder : InOrder simulation
simulation-InOrder = (((omega arith), (omega arith)), tt)

run_simulation-InOrder_example : Proceeds InOrder (run_simulation by_scan perform 9 simulation)
run_simulation-InOrder_example =
    run_simulation-InOrder by_scan perform 9 simulation simulation-InOrder

-- The event 2, which is cancelled, comes second. Its turn is after one round.
abbrev cancelling : Simulation ℕ (List ℕ)
cancelling = record simulation { manager = cancel_event manager 2 }

abbrev one_round : Simulation ℕ (List ℕ)
one_round = elim (run_simulation by_scan perform 1 cancelling) [ ok t ↦ t | _ ↦ simulation ]

abbrev taken : EventManager ℕ × Option (Event ℕ)
taken = take_next by_scan one_round.manager

abbrev cancelled_event : Event ℕ
cancelled_event = record (event 2 3 4 true) { cancelled = true }

manager-IsPool_example :
    IsPool (EventManager ℕ) pending (take_next by_scan) (enqueue by_scan) cancel_event
manager-IsPool_example = manager-IsPool by_scan

-- The order in which the actions are performed when the timer of action 3 is cancelled.
abbrev written : List ℕ
unfolding run_simulation
written =
    elim (run_simulation by_scan perform 9
      (record simulation { manager = cancel_event manager 2 })) [ ok s ↦ s.world | _ ↦ [] ]

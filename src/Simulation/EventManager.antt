-- ===== src/Simulation/EventManager.antt =====
-- simulation/EventManager.h and EventManager.cpp.
--
-- An action is a closure, which may submit and cancel events: it is a program over these operations.
pub mod Queues
pub mod Proceeds
pub mod Invariant
pub mod Time
pub mod Cancelled
pub mod Refines
use pddm.Prelude.{
  ℕ, zero, suc, ◌+◌, ltb, leb, ◌==◌, if◌then◌else◌, Bool, true, false, not, ◌&&◌, ◌||◌, Option,
  none, some, List, [], ◌∷◌, ◌++◌, map, length,
}
use pddm.Messages.Outcome.{Outcome, ok, past_event, time_moved_backwards, ◌>>=◌}
use pddm.Simulation.Event.{Event, is_before, is_at_most, cancel}
use pddm.Simulation.Queue.{PriorityQueue}

-- `next_id` numbers the objects that are made. `firing` is the event that the loop's local pointer holds.
pub record EventManager (A : Type 0) : Type 0 where
  pub simulation_time : ℕ
  pub event_queue : List (Event A)
  pub timeout_queue : List (Event A)
  pub last_gc_time : ℕ
  pub next_id : ℕ
  pub firing : Option ℕ

abbrev pub garbage_collect_interval : ℕ
garbage_collect_interval = 20

-- What an action does: it ends in a state of the rest of the simulation, or asks for the time, submits
-- an event and gets a weak pointer to it, cancels the event of a pointer that has not expired, or asks
-- whether it has.
pub data Program (A W : Type 0) : Type 0 where
  done : W → Program A W
  now : (ℕ → Program A W) → Program A W
  submitting : A → ℕ → Bool → (ℕ → Program A W) → Program A W
  cancelling : ℕ → Program A W → Program A W
  if_expired : ℕ → (Bool → Program A W) → Program A W

-- The manager, the rest of the simulation, and the events that were taken, the last one first.
pub record Simulation (A W : Type 0) : Type 0 where
  pub world : W
  pub manager : EventManager A
  pub history : List (Event A)
  pub is_over : Bool

module _ {A : Type 0} where
  abbrev is_empty : List (Event A) → Bool
  is_empty [] = true
  is_empty (e ∷ q) = false

  unfoldable pub has_event : ℕ → List (Event A) → Bool
  has_event id [] = false
  has_event id (e ∷ q) = e.id == id || has_event id q

  -- The object is in one of the queues, or held by the loop.
  unfoldable pub expired : EventManager A → ℕ → Bool
  unfolding has_event
  expired m id = not (
      has_event id m.event_queue
      || has_event id m.timeout_queue
      || (elim m.firing [ none ↦ false | some e ↦ e == id ]))

  unfoldable pub cancel_in : ℕ → List (Event A) → List (Event A)
  unfolding cancel
  cancel_in id = map (λ e. if e.id == id then cancel e else e)

  unfoldable pub cancel_event : EventManager A → ℕ → EventManager A
  unfolding cancel_in
  cancel_event m id = record m {
    event_queue = cancel_in id m.event_queue;
    timeout_queue = cancel_in id m.timeout_queue;
  }

  abbrev pub new_event : EventManager A → A → ℕ → Bool → Event A
  new_event m action fire_time is_timeout = record {
    id = m.next_id;
    action = action;
    fire_time = fire_time;
    timeout = is_timeout;
    cancelled = false;
  }

  -- Whether there are timeouts, and the last collection of garbage was long enough ago.
  unfoldable pub gc_is_due : EventManager A → Bool
  gc_is_due m =
      not (is_empty m.timeout_queue)
      && ltb (m.last_gc_time + garbage_collect_interval) m.simulation_time

  unfoldable pub reset : EventManager A → EventManager A
  reset m = record m { simulation_time = 0; event_queue = []; timeout_queue = [] }

module _ {A : Type 0} (pq : PriorityQueue A) where
  open pq use {push, pop}

  -- The event goes to the queue that it is for.
  unfoldable pub enqueue : EventManager A → Event A → EventManager A
  enqueue m e = record m {
    event_queue = if e.timeout then m.event_queue else push e m.event_queue;
    timeout_queue = if e.timeout then push e m.timeout_queue else m.timeout_queue;
    next_id = m.next_id + 1;
  }

  -- The manager and the event's identity.
  unfoldable pub submit : EventManager A → A → ℕ → Bool → Outcome (EventManager A × ℕ)
  unfolding enqueue
  submit m action fire_time is_timeout =
      if ltb fire_time m.simulation_time
      then past_event
      else ok (enqueue m (new_event m action fire_time is_timeout), m.next_id)

  -- The loop, with the number of events as its rounds.
  unfoldable pub collect : ℕ → List (Event A) → List (Event A) → List (Event A)
  collect zero q filtered = filtered
  collect (suc n) [] filtered = filtered
  collect (suc n) (e ∷ q) filtered =
      let (top, rest) = pop e q in
      collect n rest (if top.cancelled then filtered else push top filtered)

  unfoldable pub garbage_collect_timeouts : EventManager A → EventManager A
  unfolding collect
  garbage_collect_timeouts m = record m {
    timeout_queue = collect (length m.timeout_queue) m.timeout_queue [];
  }

  unfoldable pub garbage_collect_if_due : EventManager A → EventManager A
  unfolding garbage_collect_timeouts gc_is_due
  garbage_collect_if_due m =
      let collected = garbage_collect_timeouts m in
      if gc_is_due m then record collected { last_gc_time = m.simulation_time } else m

  -- The next event, with the events and the timeouts that are left; none from two empty queues.
  unfoldable pub choose :
      List (Event A) → List (Event A) → Option (Event A × List (Event A) × List (Event A))
  choose [] [] = none
  choose (e ∷ es) [] = let (next, rest) = pop e es in some (next, rest, [])
  choose [] (t ∷ ts) = let (next, rest) = pop t ts in some (next, [], rest)
  choose (e ∷ es) (t ∷ ts) =
      let (event, events) = pop e es in
      let (timeout, timeouts) = pop t ts in
      if is_before timeout event
      then some (timeout, e ∷ es, timeouts)
      else if is_at_most event timeout
      then some (event, events, t ∷ ts)
      else none

  -- The manager after the next event, if there is one, is taken from its queue.
  unfoldable pub take_next : EventManager A → EventManager A × Option (Event A)
  unfolding garbage_collect_if_due choose
  take_next m =
      let collected = garbage_collect_if_due m in
      elim (choose collected.event_queue collected.timeout_queue) [
        | none ↦ (collected, none)
        | some (next, events, timeouts) ↦
            (record collected { event_queue = events; timeout_queue = timeouts }, some next)
      ]

  module _ {W : Type 0} (perform : A → W → Program A W) where
    -- The action's operations, one after the other.
    unfoldable pub exec : Program A W → EventManager A → Outcome (W × EventManager A)
    unfolding submit cancel_event expired
    exec (Program.done w) m = ok (w, m)
    exec (Program.now k) m = exec (k m.simulation_time) m
    exec (Program.submitting action time is_timeout k) m = do
      (m', id) ← submit m action time is_timeout
      exec (k id) m'
    exec (Program.cancelling id p) m = exec p (cancel_event m id)
    exec (Program.if_expired id k) m = exec (k (expired m id)) m

    -- `Event::fire`.
    unfoldable pub fire : Event A → W → EventManager A → Outcome (W × EventManager A)
    unfolding exec
    fire e w m = elim e.cancelled [ true ↦ ok (w, m) | false ↦ exec (perform e.action w) m ]

    -- A round of the loop with the next event.
    unfoldable pub fire_next : Simulation A W → EventManager A → Event A → Outcome (Simulation A W)
    unfolding fire
    fire_next s m next = if ltb next.fire_time m.simulation_time then time_moved_backwards else (do
      (w, m') ←
          fire next s.world (record m { simulation_time = next.fire_time; firing = some next.id })
      ok (record s {
        world = w;
        manager = record m' { firing = none };
        history = next ∷ s.history;
      }))

    unfoldable pub turn : Simulation A W → Outcome (Simulation A W)
    unfolding take_next fire_next
    turn s =
        let (m, chosen) = take_next s.manager in
        elim chosen [
          | none ↦ ok (record s { manager = m; is_over = true })
          | some next ↦ fire_next s m next
        ]

    -- The first `n` rounds of `run_simulation`, or all of them if there are no more.
    unfoldable pub run_simulation : ℕ → Simulation A W → Outcome (Simulation A W)
    unfolding turn
    run_simulation zero s = ok s
    run_simulation (suc n) s = elim s.is_over [
      | true ↦ ok s
      | false ↦ (do s' ← turn s; run_simulation n s')
    ]

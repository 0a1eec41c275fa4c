-- ===== src/Simulation/EventManager/Invariant.antt =====
-- The times of the events of EventManager.cpp: new and taken events, and the collection of garbage.
use mathlib.Core.List.Permᴰ
use pddm.Prelude.{
  ℕ, ◌+◌, ◌≤◌, ◌<◌, ◌≡◌, refl, inl, inr, arith, if◌then◌else◌, Bool, true, false, Bool-cases,
  Option, none, some, List, [], length, All, All-imp,
}
use pddm.Simulation.Event.{Event, cancel}
use pddm.Simulation.Queue.{PriorityQueue, All-perm}
use pddm.Simulation.EventManager.{
  EventManager, enqueue, new_event, cancel_event, choose, gc_is_due, garbage_collect_timeouts,
  garbage_collect_if_due, take_next,
}
use pddm.Simulation.EventManager.Queues.{
  Chosen, choose-Chosen, push-All, collect-All, cancel_in-All,
}

-- Every event of a manager has a property.
abbrev pub AllEvents : {A : Type 0} → (Event A → Type 0) → EventManager A → Type 0
AllEvents P m = All P m.event_queue × All P m.timeout_queue

-- An event that is not in the past, and was made before.
abbrev pub Pending : {A : Type 0} → ℕ → ℕ → Event A → Type 0
Pending time next_id e = (time ≤ e.fire_time) × (e.id < next_id)

abbrev pub IsValid : {A : Type 0} → EventManager A → Type 0
IsValid m = AllEvents (Pending m.simulation_time m.next_id) m

-- What taking the next event leaves, if an event has the property `P` when all had it.
abbrev pub Taken :
    {A : Type 0} → (Event A → Type 0) → EventManager A → EventManager A × Option (Event A) → Type 0
Taken P m (m', none) =
    AllEvents P m' × (m'.simulation_time ≡ m.simulation_time) × (m'.next_id ≡ m.next_id)
Taken P m (m', some next) =
    AllEvents P m'
    × (m'.simulation_time ≡ m.simulation_time)
    × (m'.next_id ≡ m.next_id)
    × P next
    × AllEvents (λ x. next.fire_time ≤ x.fire_time) m'

module _ {A : Type 0} (pq : PriorityQueue A) where
  garbage-All :
      (P : Event A → Type 0) (m : EventManager A)
      → AllEvents P m
      → AllEvents P (garbage_collect_if_due pq m)
        × ((garbage_collect_if_due pq m).simulation_time ≡ m.simulation_time)
        × ((garbage_collect_if_due pq m).next_id ≡ m.next_id)
  unfolding garbage_collect_if_due garbage_collect_timeouts
  garbage-All P m h = elim (Bool-cases (gc_is_due m)) [
    | inl due ↦
        rw due
          ((h.0, collect-All pq P (length m.timeout_queue) m.timeout_queue [] h.1 tt), refl, refl)
    | inr not_due ↦ rw not_due (h, refl, refl)
  ]

  pub take_next-Taken :
      (P : Event A → Type 0) (m : EventManager A) → AllEvents P m → Taken P m (take_next pq m)
  unfolding take_next
  take_next-Taken P m h =
      let c = garbage_collect_if_due pq m in
      let (all, time, ids) = garbage-All P m h in
      go c all time ids (choose pq c.event_queue c.timeout_queue)
        (choose-Chosen pq c.event_queue c.timeout_queue)
    where
      go :
          (c : EventManager A)
          → AllEvents P c
          → c.simulation_time ≡ m.simulation_time
          → c.next_id ≡ m.next_id
          → (chosen : Option (Event A × List (Event A) × List (Event A)))
          → Chosen c.event_queue c.timeout_queue chosen
          → Taken P m (elim chosen [
            | none ↦ (c, none)
            | some (next, events, timeouts) ↦
                (record c { event_queue = events; timeout_queue = timeouts }, some next)
          ])
      go c all time ids none chosen = (all, time, ids)
      go c all time ids (some (next, es, ts)) (least_e, least_t, inl (p, same)) =
          let (one, rest) = All-perm P (Permᴰ.symm p) all.0 in
          let (_, later) = All-perm _ (Permᴰ.symm p) least_e in
          ((rest, rw same all.1), time, ids, one, (later, rw same least_t))
      go c all time ids (some (next, es, ts)) (least_e, least_t, inr (p, same)) =
          let (one, rest) = All-perm P (Permᴰ.symm p) all.1 in
          let (_, later) = All-perm _ (Permᴰ.symm p) least_t in
          ((rw same all.0, rest), time, ids, one, (rw same least_e, later))

  pub enqueue-All :
      (P : Event A → Type 0) (m : EventManager A) (e : Event A)
      → AllEvents P m
      → P e
      → AllEvents P (enqueue pq m e)
  unfolding enqueue
  enqueue-All P m e h p = (events e.timeout, timeouts e.timeout)
    where
      events : (b : Bool) → All P (if b then m.event_queue else pq.push e m.event_queue)
      events true = h.0
      events false = push-All pq P e m.event_queue p h.0

      timeouts : (b : Bool) → All P (if b then pq.push e m.timeout_queue else m.timeout_queue)
      timeouts true = push-All pq P e m.timeout_queue p h.1
      timeouts false = h.1

  pub AllEvents-imp :
      (P Q : Event A → Type 0) (m : EventManager A)
      → ((e : Event A) → P e → Q e)
      → AllEvents P m
      → AllEvents Q m
  AllEvents-imp P Q m f h = (All-imp P Q m.event_queue f h.0, All-imp P Q m.timeout_queue f h.1)

  -- A valid manager at a time.
  abbrev pub ValidAt : ℕ → EventManager A → Type 0
  ValidAt time m = IsValid m × (m.simulation_time ≡ time)

  pub enqueue-ValidAt :
      (time : ℕ) (m : EventManager A) (action : A) (fire_time : ℕ) (is_timeout : Bool)
      → ValidAt time m
      → m.simulation_time ≤ fire_time
      → ValidAt time (enqueue pq m (new_event m action fire_time is_timeout))
  unfolding enqueue
  enqueue-ValidAt time m action fire_time is_timeout v le = (
    enqueue-All (Pending m.simulation_time (m.next_id + 1)) m
        (new_event m action fire_time is_timeout)
        (AllEvents-imp _ _ m (λ e p. (p.0, omega arith)) v.0) (le, omega arith),
    v.1,
  )

  pub cancel_event-All :
      (P : Event A → Type 0)
      → ((e : Event A) → P e → P (cancel e))
      → (m : EventManager A) (id : ℕ) → AllEvents P m
      → AllEvents P (cancel_event m id)
  unfolding cancel_event
  cancel_event-All P closed m id h = (
    cancel_in-All pq P closed id m.event_queue h.0,
    cancel_in-All pq P closed id m.timeout_queue h.1,
  )

  pub cancel_event-ValidAt :
      (time : ℕ) (m : EventManager A) (id : ℕ) → ValidAt time m → ValidAt time (cancel_event m id)
  unfolding cancel_event cancel
  cancel_event-ValidAt time m id v =
      (cancel_event-All (Pending m.simulation_time m.next_id) (λ e p. p) m id v.0, v.1)

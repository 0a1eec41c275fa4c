-- ===== src/Simulation/EventManager/Refines.antt =====
-- The two queues of EventManager.cpp as one pool of the events that are not cancelled.
use mathlib.Core.List.Permᴰ
use mathlib.Core.List.{Permᴰ}
use mathlib.Core.Path.{ap₂, subst}
use pddm.Prelude.{
  ◌⊎◌, sym, ◌∙◌, All-append, ◌++◌, ℕ, ◌≡◌, refl, inl, inr, arith, if◌then◌else◌, Bool, true, false,
  Bool-cases, Option, none, some, List, [], ◌∷◌, length, ◌==◌,
}
use pddm.Simulation.Event.{Event, cancel}
use pddm.Simulation.Queue.{PriorityQueue, All-perm}
use pddm.Simulation.EventManager.{
  EventManager, enqueue, cancel_event, cancel_in, choose, gc_is_due, garbage_collect_timeouts,
  garbage_collect_if_due, take_next,
}
use pddm.Simulation.EventManager.Queues.{
  IsLeast, put_live, put_live-append_left, put_live-perm, put_live-swap, live_in, live_in-perm,
  live_in-All, collect_live, Chosen, choose-Chosen,
}

-- The events of a pool that are not the object `id`.
abbrev pub without : {A : Type 0} → ℕ → List (Event A) → List (Event A)
without id [] = []
without id (e ∷ q) = if e.id == id then without id q else e ∷ without id q

-- The pool before, from which an event may have been taken: the earliest of the pool, unless it is one
-- that is cancelled and so was not in the pool.
abbrev pub TakenFrom :
    {A M : Type 0} → (M → List (Event A)) → List (Event A) → M × Option (Event A) → Type 0
TakenFrom pool before (m', none) = (pool m' ≡ []) × Permᴰ (pool m') before
TakenFrom pool before (m', some e) =
    Permᴰ (put_live e.cancelled e (pool m')) before × IsLeast e before

-- What a pool of events promises: the next event is one of the earliest, and is taken out, and the last
-- one was taken when there is none; an event is put in, or cancelled, which takes it out. What is
-- taken may be an event that is cancelled: the pool is then the same.
pub record IsPool {A : Type 0} (M : Type 0) (pool : M → List (Event A))
    (take : M → M × Option (Event A)) (put : M → Event A → M) (drop : M → ℕ → M) : Type 0 where
  pub takes : (m : M) → TakenFrom pool (pool m) (take m)
  pub puts : (m : M) (e : Event A) → e.cancelled ≡ false → Permᴰ (e ∷ pool m) (pool (put m e))
  pub drops : (m : M) (id : ℕ) → pool (drop m id) ≡ without id (pool m)

-- The events that are not cancelled, of both queues.
abbrev pub pending : {A : Type 0} → EventManager A → List (Event A)
pending m = live_in m.event_queue ++ live_in m.timeout_queue

module _ {A : Type 0} where
  without-append :
      (id : ℕ) (p q : List (Event A)) → without id (p ++ q) ≡ without id p ++ without id q
  without-append id [] q = refl
  without-append id (e ∷ p) q = ground (arith, without-append id p q)

  pub without-perm :
      (id : ℕ) {p q : List (Event A)} → Permᴰ p q → Permᴰ (without id p) (without id q)
  without-perm id Permᴰ.nil = Permᴰ.nil
  without-perm id (Permᴰ.cons {a = a} e p) =
      rw (← e) (put_live-perm (a.id == id) a (without-perm id p))
  without-perm id (Permᴰ.swap {a = a} {b = b} {l = l} e d) =
      rw (← e, ← d) (put_live-swap (a.id == id) (b.id == id) a b (without id l))
  without-perm id (Permᴰ.trans p q) = Permᴰ.trans (without-perm id p) (without-perm id q)

  live_in-cancel_in :
      (id : ℕ) (q : List (Event A)) → live_in (cancel_in id q) ≡ without id (live_in q)
  unfolding cancel_in cancel
  live_in-cancel_in id [] = refl
  live_in-cancel_in id (e ∷ q) = ground (arith, live_in-cancel_in id q)

  put_live_right :
      (b : Bool) (e : Event A) (p q : List (Event A))
      → Permᴰ (put_live b e (p ++ q)) (p ++ put_live b e q)
  put_live_right true e p q = Permᴰ.refl _
  put_live_right false e p q = Permᴰ.symm (Permᴰ.middle e p q)

module _ {A : Type 0} (pq : PriorityQueue A) where
  garbage-pending : (m : EventManager A) → Permᴰ (pending (garbage_collect_if_due pq m)) (pending m)
  unfolding garbage_collect_if_due garbage_collect_timeouts
  garbage-pending m = elim (Bool-cases (gc_is_due m)) [
    | inl due ↦ rw due (
        Permᴰ.append_left (live_in m.event_queue) (
          Permᴰ.symm (
            Permᴰ.trans (Permᴰ.symm (Permᴰ.append-nil (live_in m.timeout_queue)))
              (collect_live pq (length m.timeout_queue) m.timeout_queue [] (omega arith)))))
    | inr not_due ↦ rw not_due (Permᴰ.refl _)
  ]

  manager_takes : (m : EventManager A) → TakenFrom pending (pending m) (take_next pq m)
  unfolding take_next
  manager_takes m =
      let c = garbage_collect_if_due pq m in
      go c (garbage-pending m) (choose pq c.event_queue c.timeout_queue)
        (choose-Chosen pq c.event_queue c.timeout_queue)
    where
      go :
          (c : EventManager A)
          → Permᴰ (pending c) (pending m)
          → (chosen : Option (Event A × List (Event A) × List (Event A)))
          → Chosen c.event_queue c.timeout_queue chosen
          → TakenFrom pending (pending m) (elim chosen [
            | none ↦ (c, none)
            | some (next, events, timeouts) ↦
                (record c { event_queue = events; timeout_queue = timeouts }, some next)
          ])
      go c same none (no_events, no_timeouts) = (rw (no_events, no_timeouts) refl, same)
      go c same (some (next, es, ts)) (least_e, least_t, which) = (lost which, least)
        where
          least : IsLeast next (pending m)
          least = All-perm _ same (
              All-append _ (live_in c.event_queue) (live_in c.timeout_queue)
                (live_in-All _ c.event_queue least_e) (live_in-All _ c.timeout_queue least_t))

          lost :
              ((Permᴰ (next ∷ es) c.event_queue × (ts ≡ c.timeout_queue))
                ⊎ (Permᴰ (next ∷ ts) c.timeout_queue × (es ≡ c.event_queue)))
              → Permᴰ (put_live next.cancelled next (live_in es ++ live_in ts)) (pending m)
          lost (inl (p, e)) = rw e (
              Permᴰ.trans
                (put_live-append_left next.cancelled next (live_in es) (live_in c.timeout_queue))
                (Permᴰ.trans (Permᴰ.append_right (live_in c.timeout_queue) (live_in-perm p)) same))
          lost (inr (p, e)) = rw e (
              Permᴰ.trans (put_live_right next.cancelled next (live_in c.event_queue) (live_in ts))
                (Permᴰ.trans (Permᴰ.append_left (live_in c.event_queue) (live_in-perm p)) same))

  manager_puts :
      (m : EventManager A) (e : Event A)
      → e.cancelled ≡ false
      → Permᴰ (e ∷ pending m) (pending (enqueue pq m e))
  unfolding enqueue
  manager_puts m e live = go e.timeout
    where
      pushed : (q : List (Event A)) → Permᴰ (e ∷ live_in q) (live_in (pq.push e q))
      pushed q =
          subst (λ b. Permᴰ (put_live b e (live_in q)) (live_in (pq.push e q))) live
            (live_in-perm (Permᴰ.symm (pq.push-perm e q)))

      go :
          (b : Bool)
          → Permᴰ (e ∷ pending m) (
              live_in (if b then m.event_queue else pq.push e m.event_queue)
              ++ live_in (if b then pq.push e m.timeout_queue else m.timeout_queue))
      go true =
          Permᴰ.trans (put_live_right false e (live_in m.event_queue) (live_in m.timeout_queue))
            (Permᴰ.append_left (live_in m.event_queue) (pushed m.timeout_queue))
      go false = Permᴰ.append_right (live_in m.timeout_queue) (pushed m.event_queue)

  -- The two queues with their timeouts and the collection of garbage do what one pool of the events
  -- that are not cancelled does.
  pub manager-IsPool : IsPool (EventManager A) pending (take_next pq) (enqueue pq) cancel_event
  unfolding cancel_event
  manager-IsPool = record {
    takes = manager_takes;
    puts = manager_puts;
    drops = λ m id.
        ap₂ ◌++◌ (live_in-cancel_in id m.event_queue) (live_in-cancel_in id m.timeout_queue)
        ∙ sym (without-append id (live_in m.event_queue) (live_in m.timeout_queue));
  }

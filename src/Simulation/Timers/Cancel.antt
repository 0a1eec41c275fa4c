-- ===== src/Simulation/Timers/Cancel.antt =====
-- A timer of SimTimerManager.cpp that is registered and then cancelled.
use mathlib.Core.List.Permᴰ
use mathlib.Core.List.{Permᴰ}
use pddm.Prelude.{
  ℕ, ◌+◌, ◌<◌, ◌≡◌, refl, arith, ltb, ◌==◌, ==_iff, Bool, true, false, ◌||◌, ||-true_right, List,
  [], ◌∷◌, All, All-append, All-imp, ap,
}
use pddm.Messages.Outcome.{ok}
use pddm.Simulation.Event.{Event}
use pddm.Simulation.Queue.{PriorityQueue}
use pddm.Simulation.EventManager.{
  EventManager, Program, submit, enqueue, new_event, cancel_event, expired, has_event, exec,
}
use pddm.Simulation.EventManager.Queues.{live_in, live_in-All}
use pddm.Simulation.EventManager.Invariant.{IsValid}
use pddm.Simulation.EventManager.Refines.{pending, without, without-perm, manager-IsPool}
use pddm.Simulation.Timers.{SimTimerManager, erase_timer, register_timer, cancel_timer}

-- The timers' ids are below the next one.
abbrev pub TimersBelow : SimTimerManager → Type 0
TimersBelow t = All (λ (e : ℕ × ℕ). e.0 < t.next_id) t.timer_events

erase_timer_absent :
    (id : ℕ) (l : List (ℕ × ℕ)) → All (λ (e : ℕ × ℕ). e.0 < id) l → erase_timer id l ≡ l
erase_timer_absent id [] h = refl
erase_timer_absent id ((k, event) ∷ l) h = ground (arith, erase_timer_absent id l h.1)

without_absent :
    {A : Type 0} (id : ℕ) (q : List (Event A)) → All (λ e. e.id < id) q → without id q ≡ q
without_absent id [] h = refl
without_absent id (e ∷ q) h = ground (arith, without_absent id q h.1)

or_imp : (a : Bool) {b c : Bool} → (b ≡ true → c ≡ true) → (a || b) ≡ true → (a || c) ≡ true
or_imp true f h = refl
or_imp false f h = f h

or_swap : (a b c : Bool) → (a || (b || c)) ≡ true → (b || (a || c)) ≡ true
or_swap true true c h = refl
or_swap true false c h = refl
or_swap false true c h = refl
or_swap false false c h = h

has_event-perm :
    {A : Type 0} (id : ℕ) {p q : List (Event A)}
    → Permᴰ p q
    → has_event id p ≡ true
    → has_event id q ≡ true
unfolding has_event
has_event-perm id Permᴰ.nil h = h
has_event-perm id (Permᴰ.cons {a = a} e p) h =
    rw (← e) (or_imp (a.id == id) (has_event-perm id p) h)
has_event-perm id (Permᴰ.swap {a = a} {b = b} {l = l} e d) h =
    rw (← e, ← d) (or_swap (a.id == id) (b.id == id) (has_event id l) h)
has_event-perm id (Permᴰ.trans p q) h = has_event-perm id q (has_event-perm id p h)

module _ {A W : Type 0} (pq : PriorityQueue A) (perform : A → W → Program A W) where
  has_event-push : (e : Event A) (q : List (Event A)) → has_event e.id (pq.push e q) ≡ true
  unfolding has_event
  has_event-push e q =
      has_event-perm e.id (Permᴰ.symm (pq.push-perm e q)) (rw ((==_iff e.id e.id).1 refl) refl)

  -- The manager with the event of a new timer.
  abbrev timer_added : EventManager A → A → ℕ → EventManager A
  timer_added m callback delay_ms =
      enqueue pq m (new_event m callback (m.simulation_time + delay_ms) true)

  submit_later :
      (m : EventManager A) (callback : A) (delay_ms : ℕ)
      → submit pq m callback (m.simulation_time + delay_ms) true
        ≡ ok (timer_added m callback delay_ms, m.next_id)
  unfolding submit
  submit_later m callback delay_ms =
      let later : ltb (m.simulation_time + delay_ms) m.simulation_time ≡ false = ground arith in
      rw later refl

  timer_added-expired :
      (m : EventManager A) (callback : A) (delay_ms : ℕ)
      → expired (timer_added m callback delay_ms) m.next_id ≡ false
  unfolding expired enqueue
  timer_added-expired m callback delay_ms =
      let here =
        has_event-push (new_event m callback (m.simulation_time + delay_ms) true) m.timeout_queue in
      rw (here, ||-true_right (has_event m.next_id m.event_queue) true refl) refl

  timer_dropped :
      (m : EventManager A) (callback : A) (delay_ms : ℕ)
      → IsValid m
      → Permᴰ (pending m) (pending (cancel_event (timer_added m callback delay_ms) m.next_id))
  timer_dropped m callback delay_ms valid =
      let e = new_event m callback (m.simulation_time + delay_ms) true in
      let added = timer_added m callback delay_ms in
      let laws = manager-IsPool pq in
      let put : Permᴰ (e ∷ pending m) (pending added) = laws.puts m e refl in
      let both : Permᴰ (without m.next_id (e ∷ pending m)) (without m.next_id (pending added)) =
        without-perm m.next_id put in
      let same : without m.next_id (e ∷ pending m) ≡ pending m =
        rw ((==_iff m.next_id m.next_id).1 refl)
          (without_absent m.next_id (pending m) (fresh valid)) in
      rw (laws.drops added m.next_id, ← same) both
    where
      fresh : IsValid m → All (λ e. e.id < m.next_id) (pending m)
      fresh (events, timeouts) =
          All-append _ (live_in m.event_queue) (live_in m.timeout_queue)
            (live_in-All _ m.event_queue (All-imp _ _ m.event_queue (λ e p. p.1) events))
            (live_in-All _ m.timeout_queue (All-imp _ _ m.timeout_queue (λ e p. p.1) timeouts))

  -- A new timer that is cancelled before any event is taken: the program goes on as if it had never been
  -- there, with the same timers and the same pool of events; only the numbers of the next timer and
  -- the next event are higher.
  register-cancel_timer :
      (t : SimTimerManager) (m : EventManager A) (delay_ms : ℕ) (callback : A)
      (k : SimTimerManager → Program A W)
      → TimersBelow t
      → IsValid m
      → (m' : EventManager A) × (exec pq perform
            (register_timer t delay_ms callback (λ id t'. cancel_timer t' id k))
            m
          ≡ exec pq perform (k (record t { next_id = t.next_id + 1 })) m')
        × Permᴰ (pending m) (pending m')
        × (m'.simulation_time ≡ m.simulation_time)
  unfolding exec register_timer cancel_timer cancel_event enqueue
  register-cancel_timer t m delay_ms callback k below valid = (
    cancel_event (timer_added m callback delay_ms) m.next_id,
    rw
        (
          submit_later m callback delay_ms,
          (==_iff t.next_id t.next_id).1 refl,
          timer_added-expired m callback delay_ms,
          (==_iff t.next_id t.next_id).1 refl,
        )
        (ap
          (λ l. exec pq perform (k (record { next_id = t.next_id + 1; timer_events = l })) dropped)
          erased),
    timer_dropped m callback delay_ms valid,
    refl,
  )
    where
      dropped : EventManager A
      dropped = cancel_event (timer_added m callback delay_ms) m.next_id

      erased : erase_timer t.next_id (erase_timer t.next_id t.timer_events) ≡ t.timer_events
      erased = let once = erase_timer_absent t.next_id t.timer_events below in rw (once, once)

-- ===== src/Simulation/NetworkClient/Order/Steps.antt =====
-- The order of the messages of a SimNetworkClient, over one thing that happens to it.
use mathlib.Core.List.{append_assoc, append-nil}
use pddm.Prelude.{
  ℕ, ltb, ◌==◌, ◌≤◌, ◌≡◌, refl, sym, ap, ◌∙◌, arith, if◌then◌else◌, Bool, true, false, Bool-cases,
  inl, inr, Option, none, some, List, [], ◌∷◌, ◌++◌,
}
use pddm.Messages.Outcome.{Outcome, ok, ◌>>=◌}
use pddm.Messages.Ends.{Ends, bind-Ends, weaken-Ends}
use pddm.Simulation.NetworkClient.{
  Setting, State, without, with_delay, with_queue, dispatch, receive_message, receive_queued,
  resume_from_busy,
}
use pddm.Simulation.NetworkClient.Order.{
  WaitsAs, Waits, Kept, Happening, time_of, at_least, happens,
}
use pddm.Simulation.NetworkClient.Order.Calls.{dispatch-Ends}

-- A client that is not busy has an empty queue.
abbrev pub IdleAs : {Message : Type 0} → Bool → List Message → Type 0
IdleAs false queue = queue ≡ []
IdleAs true queue = Unit {0}

module _ (setting : Setting) where
  open setting use {Message}

  -- What is true of a client between what happens to it.
  abbrev pub Settled : State setting → Type 0
  Settled w = Waits setting w × IdleAs w.client.client_is_busy w.client.incoming_message_queue

  -- The messages handled and those in the queue, one after another, are `all`.
  abbrev pub Ordered : List Message → State setting → Type 0
  Ordered all w = (w.handled ++ w.client.incoming_message_queue ≡ all) × Settled w

  empty-IdleAs : (busy : Bool) (queue : List Message) → queue ≡ [] → IdleAs busy queue
  empty-IdleAs true queue e = tt
  empty-IdleAs false queue e = e

  -- With nothing in the queue, all is handled.
  pub empty-Ordered :
      (handled : List Message) (w : State setting) → Kept setting handled [] w → Ordered handled w
  empty-Ordered handled w (h, q, waits) =
      (rw (h, q) (append-nil handled), (waits, empty-IdleAs w.client.client_is_busy _ q))

  pub receive-Ends :
      (all : List Message) (m : Message) (w : State setting)
      → Ordered all w
      → Ends (Ordered (all ++ m ∷ [])) (receive_message setting m w)
  unfolding receive_message
  receive-Ends all m w (order, ((waits, few), idle)) = go w.client.client_is_busy refl
    where
      go :
          (busy : Bool)
          → w.client.client_is_busy ≡ busy
          → Ends (Ordered (all ++ m ∷ [])) (elim busy [
            | false ↦ dispatch setting m (with_delay setting 0 w)
            | true ↦ ok (record w {
              client = record w.client {
                incoming_message_queue = w.client.incoming_message_queue ++ m ∷ [];
              };
            })
          ])
      go false c =
          let empty : w.client.incoming_message_queue ≡ [] = rw c at idle in
          let handled : w.handled ≡ all =
            sym (append-nil w.handled) ∙ ap (λ q. w.handled ++ q) (sym empty) ∙ order in
          weaken-Ends (Kept setting (all ++ m ∷ []) []) (Ordered (all ++ m ∷ [])) _
            (dispatch-Ends setting all [] m (with_delay setting 0 w)
              (handled, empty, (waits, omega arith)))
            (λ w' kept. empty-Ordered (all ++ m ∷ []) w' kept)
      go true c = (
        sym (append_assoc w.handled w.client.incoming_message_queue (m ∷ []))
            ∙ ap (λ ms. ms ++ m ∷ []) order,
        ((waits, few), rw c tt),
      )

  queued-Ends :
      (handled queue : List Message) (w : State setting)
      → Kept setting handled queue w
      → Ends (Ordered (handled ++ queue)) (receive_queued setting queue w)
  unfolding receive_queued
  queued-Ends handled [] w kept =
      let (order, settled) = empty-Ordered handled w kept in
      (order ∙ sym (append-nil handled), settled)
  queued-Ends handled (m ∷ rest) w (h, q, waits) =
      go w.client.client_is_busy refl (queued-Ends (handled ++ m ∷ []) rest)
    where
      go :
          (busy : Bool)
          → w.client.client_is_busy ≡ busy
          → ((w₁ : State setting)
              → Kept setting (handled ++ m ∷ []) rest w₁
              → Ends (Ordered ((handled ++ m ∷ []) ++ rest)) (receive_queued setting rest w₁))
          → Ends (Ordered (handled ++ m ∷ rest)) (elim busy [
            | true ↦ ok w
            | false ↦
                dispatch setting m w
                >>= (λ w₁. receive_queued setting rest (with_queue setting rest w₁))
          ])
      go true c again = (rw (h, q) refl, (waits, rw c tt))
      go false c again =
          bind-Ends (Kept setting (handled ++ m ∷ []) (m ∷ rest)) (Ordered (handled ++ m ∷ rest))
            (dispatch setting m w) _ (dispatch-Ends setting handled (m ∷ rest) m w (h, q, waits))
            (λ w₁ (h', q', waits').
              weaken-Ends (Ordered ((handled ++ m ∷ []) ++ rest)) (Ordered (handled ++ m ∷ rest)) _
                (again (with_queue setting rest w₁) (h', refl, waits'))
                (λ w' (order, settled). (order ∙ append_assoc handled (m ∷ []) rest, settled)))

  -- When the delay is over, the client goes on with the queue.
  over-Ends :
      (all : List Message) (w : State setting)
      → w.handled ++ w.client.incoming_message_queue ≡ all
      → w.client.busy_until_time ≤ w.current_time
      → w.resume_events ≡ []
      → w.client.accumulated_delay_micros ≤ 1000
      → Ends (Ordered all) (resume_from_busy setting w)
  unfolding resume_from_busy
  over-Ends all w order over events few =
      let e : ltb w.current_time w.client.busy_until_time ≡ false = ground arith in
      rw e (
        weaken-Ends (Ordered (w.handled ++ w.client.incoming_message_queue)) (Ordered all) _
          (queued-Ends w.handled w.client.incoming_message_queue
            (record w { client = record w.client { client_is_busy = false } })
            (refl, refl, (events, few)))
          (λ w' (order', settled). (order' ∙ order, settled)))

  not_before : (time now : ℕ) → time ≤ (if ltb now time then time else now)
  not_before time now = ground arith

  -- The event that fires is the one that resumes the client, at the time until which it is busy.
  pub resume-Ends :
      (all : List Message) (event : ℕ) (w : State setting)
      → Ordered all w
      → Ends (Ordered all) (happens setting (Happening.resume_fires event) w)
  unfolding happens
  resume-Ends all event w (order, ((waits, few), idle)) = go w.client.client_is_busy refl
    where
      by_time : Option ℕ → Outcome (State setting)
      by_time time = elim time [
        | none ↦ ok w
        | some time ↦
            resume_from_busy setting
              (record (at_least setting time w) { resume_events = without event w.resume_events })
      ]

      not_there :
          time_of event w.resume_events ≡ none
          → Ends (Ordered all) (by_time (time_of event w.resume_events))
      not_there e = rw e (order, ((waits, few), idle))

      go :
          (busy : Bool)
          → w.client.client_is_busy ≡ busy
          → Ends (Ordered all) (by_time (time_of event w.resume_events))
      go false c =
          let events : w.resume_events ≡ [] = rw c at waits in not_there (ap (time_of event) events)
      go true c =
          let (resumes, points, events) : WaitsAs true w.client.busy_until_time
              w.client.busy_done_event w.resume_events =
            rw c at waits in
          elim (Bool-cases (resumes == event)) [
            | inr other ↦ not_there (ap (time_of event) events ∙ rw other refl)
            | inl it ↦
                let time : time_of event w.resume_events ≡ some w.client.busy_until_time =
                  ap (time_of event) events ∙ rw it refl in
                let none_left : without event w.resume_events ≡ [] =
                  ap (without event) events ∙ rw it refl in
                rw time (
                  over-Ends all _ order (not_before w.client.busy_until_time w.current_time)
                    none_left few)
          ]

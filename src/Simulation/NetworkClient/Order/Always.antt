-- ===== src/Simulation/NetworkClient/Order/Always.antt =====
-- The invariants of a SimNetworkClient over all that can happen to it.
use pddm.Prelude.{◌≡◌, refl, sym, ap, ◌∙◌, Bool, true, false, List, [], ◌∷◌, ◌++◌}
use mathlib.Core.List.{append_assoc, append-nil}
use pddm.Messages.Outcome.{Outcome, ok, both_return}
use pddm.Messages.Ends.{Ends, weaken-Ends}
use pddm.Simulation.NetworkClient.{Setting, State, network_send, calls}
use pddm.Simulation.NetworkClient.Order.{Kept, Happening, arrivals, happens, run}
use pddm.Simulation.NetworkClient.Order.Delays.{IsStable, Kept-IsStable, busy-IsStable}
use pddm.Simulation.NetworkClient.Order.Calls.{calls-Ends, network_send-Ends}
use pddm.Simulation.NetworkClient.Order.Steps.{
  Settled, Ordered, empty-Ordered, receive-Ends, resume-Ends,
}

module _ (setting : Setting) where
  open setting use {Message}

  -- An operation that keeps what the calls keep, keeps the order.
  stable-Ordered :
      (f : State setting → Outcome (State setting))
      → ((P : State setting → Type 0)
          → IsStable setting P
          → (w : State setting) → P w
          → Ends P (f w))
      → (all : List Message) (w : State setting) → Ordered setting all w
      → Ends (Ordered setting all) (f w)
  stable-Ordered f keeps all w (order, (waits, idle)) = go w.client.client_is_busy refl
    where
      queue : List Message
      queue = w.client.incoming_message_queue

      go : (busy : Bool) → w.client.client_is_busy ≡ busy → Ends (Ordered setting all) (f w)
      go false c =
          let empty : queue ≡ [] = rw c at idle in
          weaken-Ends (Kept setting w.handled []) (Ordered setting all) _
            (keeps _ (Kept-IsStable setting w.handled []) w (refl, empty, waits))
            (λ w' kept.
              let (order', settled) = empty-Ordered setting w.handled w' kept in
              (
                order' ∙ sym (append-nil w.handled) ∙ ap (λ q. w.handled ++ q) (sym empty) ∙ order,
                settled,
              ))
      go true c =
          weaken-Ends _ (Ordered setting all) _
            (keeps _ (busy-IsStable setting w.handled queue) w ((refl, refl, waits), c))
            (λ w' ((h, q, waits'), busy). (rw (h, q) order, (waits', rw busy tt)))

  happens-Ordered :
      (happening : Happening Message) (all : List Message) (w : State setting)
      → Ordered setting all w
      → Ends (Ordered setting (all ++ arrivals (happening ∷ []))) (happens setting happening w)
  unfolding happens
  happens-Ordered (Happening.message_arrives m) all w h = receive-Ends setting all m w h
  happens-Ordered (Happening.resume_fires event) all w h =
      rw (append-nil all) (resume-Ends setting all event w h)
  happens-Ordered (Happening.messages_leave messages recipient) all w h = rw (append-nil all) (
      stable-Ordered (network_send setting messages recipient)
        (λ P stable w h'. network_send-Ends setting P stable messages recipient w h') all w h)
  happens-Ordered (Happening.timer_calls made) all w h = rw (append-nil all) (
      stable-Ordered (calls setting made) (λ P stable w h'. calls-Ends setting P stable made w h')
        all w h)
  happens-Ordered (Happening.time_passes time) all w h = rw (append-nil all) h

  Ends-ok :
      (P : State setting → Type 0) (r : Outcome (State setting)) (w : State setting)
      → r ≡ ok w
      → Ends P r
      → P w
  Ends-ok P r w e h = rw e at h

  arrivals-cons :
      (happening : Happening Message) (rest : List (Happening Message))
      → arrivals (happening ∷ rest) ≡ arrivals (happening ∷ []) ++ arrivals rest
  arrivals-cons (Happening.message_arrives m) rest = refl
  arrivals-cons (Happening.resume_fires event) rest = refl
  arrivals-cons (Happening.messages_leave messages recipient) rest = refl
  arrivals-cons (Happening.timer_calls made) rest = refl
  arrivals-cons (Happening.time_passes time) rest = refl

  run-Ordered :
      (happenings : List (Happening Message)) (all : List Message) (w w' : State setting)
      → Ordered setting all w
      → run setting happenings w ≡ ok w'
      → Ordered setting (all ++ arrivals happenings) w'
  unfolding run
  run-Ordered [] all w w' h e =
      Ends-ok (Ordered setting (all ++ [])) (ok w) w' e (rw (append-nil all) h)
  run-Ordered (happening ∷ rest) all w w' h e =
      let (w₁, ran, later) = both_return (happens setting happening w) (run setting rest) e in
      let h₁ = Ends-ok _ _ w₁ ran (happens-Ordered happening all w h) in
      let (order, settled) = run-Ordered rest _ w₁ w' h₁ later in
      (
        order
            ∙ append_assoc all (arrivals (happening ∷ [])) (arrivals rest)
            ∙ ap (λ ms. all ++ ms) (sym (arrivals-cons happening rest)),
        settled,
      )

  -- Whatever happens to a client of the simulated network, if all of it returns, messages that arrive,
  -- delays of the cryptography and of meters that have failed, events that resume the client and
  -- events with its own messages among it, in whatever order: the messages that the meter has handled
  -- and then those in the queue are those from before and then those that arrived, in their order.
  -- None is lost, none is handled twice, and none overtakes another.
  pub messages_in_order :
      (happenings : List (Happening Message)) (w w' : State setting)
      → Settled setting w
      → run setting happenings w ≡ ok w'
      → w'.handled ++ w'.client.incoming_message_queue
        ≡ (w.handled ++ w.client.incoming_message_queue) ++ arrivals happenings
  messages_in_order happenings w w' settled e = (run-Ordered happenings _ w w' (refl, settled) e).0

  -- Whatever happens to a client of the simulated network, if all of it returns: from a client that is
  -- not busy, whose queue is empty and that has no event to resume it, as at first, on, a client that
  -- is not busy has an empty queue and no such event, and for a client that is busy there is exactly
  -- one such event, the one that the client points to, at the time until which it is busy. At most 1000 microseconds of delay are ever left over.
  pub client-Settled :
      (happenings : List (Happening Message)) (w w' : State setting)
      → Settled setting w
      → run setting happenings w ≡ ok w'
      → Settled setting w'
  client-Settled happenings w w' settled e = (run-Ordered happenings _ w w' (refl, settled) e).1

-- ===== src/Simulation/NetworkClient.antt =====
-- simulation/SimNetworkClient.h and .cpp: a meter's end of the simulated network. While the meter is
-- busy with cryptography, its messages wait, those to it in a queue and those from it as events.
pub mod Order
use pddm.Prelude.{
  ℕ, ◌+◌, ◌/◌, ◌%◌, ltb, ◌==◌, if◌then◌else◌, Bool, true, false, not, Option, none, some, List, [],
  ◌∷◌, ◌++◌, length,
}
use pddm.Messages.Outcome.{Outcome, ok, ◌>>=◌}
use pddm.Simulation.Network
use pddm.Simulation.Network.{Network, Latency, Sending, arrives, recipient_failed, is_failed}

-- What the meter's code calls while it handles a message: a delay of the cryptography, in
-- microseconds, or one of the four overloads of `send`.
pub data Call (Message : Type 0) : Type 0 where
  delay : ℕ → Call Message
  overlay_batch : List Message → ℕ → Call Message
  aggregation : Message → Option ℕ → Call Message
  ping signature_request : Message → ℕ → Call Message

-- An event that the client or the network submits: messages that arrive at a time, or that are sent
-- at one.
pub data Submission (Message : Type 0) : Type 0 where
  delivery : List Message → Option ℕ → ℕ → Submission Message
  delayed_send : List Message → Option ℕ → ℕ → Submission Message

-- `busy_done_event` is the number of the event that it points to.
pub record SimNetworkClient (Message : Type 0) : Type 0 where
  pub meter_id : ℕ
  pub accumulated_delay_micros : ℕ
  pub client_is_busy : Bool
  pub busy_until_time : ℕ
  pub busy_done_event : Option ℕ
  pub incoming_message_queue : List Message
  pub num_messages_sent : ℕ

-- The client with the meter behind it and what the two change: the network, and the event manager, of
-- which there are the time, the other events that were submitted (the latest first), and the events
-- that resume the client, by their number and time, as long as they are neither cancelled nor fired.
-- `handled` has the messages that the meter was given, in their order.
pub record World (Message Meter NetworkClient Engine : Type 0) : Type 0 where
  pub client : SimNetworkClient Message
  pub meter : Meter
  pub network : Network NetworkClient Engine
  pub current_time : ℕ
  pub submitted : List (Submission Message)
  pub resume_events : List (ℕ × ℕ)
  pub next_event : ℕ
  pub handled : List Message

abbrev pub without : ℕ → List (ℕ × ℕ) → List (ℕ × ℕ)
without event [] = []
without event ((id, time) ∷ rest) =
    let kept = without event rest in if id == event then kept else (id, time) ∷ kept

-- The meter's code and the latency. `handle_message` has the meter's next state and its calls, by its
-- state, which meters have failed (so that the results of its sends are known), and the message; for
-- a message of a type that no handler takes it does nothing. `reports_failures` is whether
-- ProtocolState_t is not the Byzantine protocol.
pub record Setting : Type 1 where
  pub Message : Type 0
  pub Meter : Type 0
  pub NetworkClient : Type 0
  pub latency : Latency
  pub handle_message : Meter → List Bool → Message → Meter × List (Call Message)
  pub reports_failures : Bool

module _ (setting : Setting) where
  open setting use {Message, Meter, NetworkClient, latency, handle_message, reports_failures}

  abbrev pub State : Type 0
  State = World Message Meter NetworkClient latency.Engine

  -- `busy_done_event = event_manager.submit(..., busy_until_time, ...)`.
  abbrev pub submit_resume : ℕ → State → State
  submit_resume time w = record w {
    client = record w.client { busy_until_time = time; busy_done_event = some w.next_event };
    resume_events = (w.next_event, time) ∷ w.resume_events;
    next_event = w.next_event + 1;
  }

  -- The event is cancelled, if it has not expired.
  abbrev pub cancel_resume : Option ℕ → State → State
  cancel_resume none w = w
  cancel_resume (some event) w = record w { resume_events = without event w.resume_events }

  abbrev pub with_delay : ℕ → State → State
  with_delay micros w = record w { client = record w.client { accumulated_delay_micros = micros } }

  unfoldable pub delay_client : ℕ → State → State
  delay_client delay_time_micros w =
      let micros = w.client.accumulated_delay_micros + delay_time_micros in
      if ltb 1000 micros
      then (let w₁ = with_delay (micros % 1000) w in
          if w.client.client_is_busy
          then submit_resume (w.client.busy_until_time + micros / 1000)
              (cancel_resume w.client.busy_done_event w₁)
          else submit_resume (w.current_time + micros / 1000)
              (record w₁ { client = record w₁.client { client_is_busy = true } }))
      else with_delay micros w

  -- What a send of the network does to the client's side.
  abbrev pub after_sending : List Message → Option ℕ → Sending → State → State
  after_sending messages recipient (Sending.arrives time) w = record w {
    submitted = delivery messages recipient time ∷ w.submitted;
  }
  after_sending messages recipient (Sending.recipient_failed micros) w = delay_client micros w
  after_sending messages recipient _ w = w

  unfoldable pub network_send : List Message → Option ℕ → State → Outcome State
  unfolding delay_client
  network_send messages recipient w = do
    (sending, network) ←
        Network.send latency w.current_time (some w.client.meter_id) recipient w.network
    ok (after_sending messages recipient sending (record w { network = network }))

  -- The private `send`, and whether it reports success.
  unfoldable pub send : List Message → Option ℕ → State → Outcome (State × Bool)
  unfolding network_send
  send messages recipient w = do
    failed ← is_failed recipient w.network
    w₁ ← elim w.client.client_is_busy [
      | false ↦ network_send messages recipient w
      | true ↦ ok (record w {
        submitted = delayed_send messages recipient w.client.busy_until_time ∷ w.submitted;
      })
    ]
    ok (w₁, (if reports_failures then not failed else true))

  abbrev pub count_sent : ℕ → State → State
  count_sent n w = record w {
    client = record w.client { num_messages_sent = w.client.num_messages_sent + n };
  }

  unfoldable pub call : Call Message → State → Outcome State
  unfolding send delay_client
  call (delay micros) w = ok (delay_client micros w)
  call (overlay_batch messages recipient) w = do
    (w₁, success) ← send messages (some recipient) (count_sent (length messages) w)
    ok w₁
  call (aggregation message recipient) w = do
    (w₁, success) ← send (message ∷ []) recipient (count_sent 1 w)
    ok w₁
  call (ping message recipient) w = do (w₁, success) ← send (message ∷ []) (some recipient) w; ok w₁
  call (signature_request message recipient) w = do
    (w₁, success) ← send (message ∷ []) none (count_sent 1 w)
    ok w₁

  unfoldable pub calls : List (Call Message) → State → Outcome State
  unfolding call
  calls [] w = ok w
  calls (c ∷ rest) w = do w₁ ← call c w; calls rest w₁

  -- The switch: `meter_client.handle_message`, whose calls come back to this client.
  unfoldable pub dispatch : Message → State → Outcome State
  unfolding calls
  dispatch message w =
      let (meter, made) = handle_message w.meter w.network.failed message in
      calls made (record w { meter = meter; handled = w.handled ++ message ∷ [] })

  unfoldable pub receive_message : Message → State → Outcome State
  unfolding dispatch
  receive_message message w = elim w.client.client_is_busy [
    | false ↦ dispatch message (with_delay 0 w)
    | true ↦ ok (record w {
      client = record w.client {
        incoming_message_queue = w.client.incoming_message_queue ++ message ∷ [];
      };
    })
  ]

  abbrev pub with_queue : List Message → State → State
  with_queue queue w = record w { client = record w.client { incoming_message_queue = queue } }

  -- The loop over the queue, which a message leaves after it has been handled.
  unfoldable pub receive_queued : List Message → State → Outcome State
  unfolding dispatch
  receive_queued [] w = ok w
  receive_queued (message ∷ rest) w = elim w.client.client_is_busy [
    | true ↦ ok w
    | false ↦ do w₁ ← dispatch message w; receive_queued rest (with_queue rest w₁)
  ]

  unfoldable pub resume_from_busy : State → Outcome State
  unfolding receive_queued
  resume_from_busy w =
      if ltb w.current_time w.client.busy_until_time
      then ok w
      else receive_queued w.client.incoming_message_queue
          (record w { client = record w.client { client_is_busy = false } })

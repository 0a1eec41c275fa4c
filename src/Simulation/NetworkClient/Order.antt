-- ===== src/Simulation/NetworkClient/Order.antt =====
-- What can happen to a SimNetworkClient, and the order of its messages.
pub mod Delays
pub mod Calls
pub mod Steps
pub mod Always
use pddm.Prelude.{
  ℕ, ◌+◌, ltb, ◌==◌, ◌≤◌, ◌≡◌, refl, if◌then◌else◌, Bool, true, false, Option, none, some, List, [],
  ◌∷◌, ◌++◌,
}
use pddm.Messages.Outcome.{Outcome, ok, ◌>>=◌}
use pddm.Simulation.NetworkClient.{
  Call, SimNetworkClient, World, Setting, State, without, network_send, calls, receive_message,
  resume_from_busy,
}

-- The event that resumes a client, by whether the client is busy, the time until which it is,
-- `busy_done_event`, and the events that resume it.
abbrev pub WaitsAs : Bool → ℕ → Option ℕ → List (ℕ × ℕ) → Type 0
WaitsAs false until expected events = events ≡ []
WaitsAs true until expected events =
    (event : ℕ) × (expected ≡ some event) × (events ≡ (event, until) ∷ [])

abbrev pub time_of : ℕ → List (ℕ × ℕ) → Option ℕ
time_of event [] = none
time_of event ((id, time) ∷ rest) = if id == event then some time else time_of event rest

-- A message arrives, an event that resumes the client fires, an event with messages that had to wait
-- fires, a timer's callback makes calls, and time passes.
pub data Happening (Message : Type 0) : Type 0 where
  message_arrives : Message → Happening Message
  resume_fires : ℕ → Happening Message
  messages_leave : List Message → Option ℕ → Happening Message
  timer_calls : List (Call Message) → Happening Message
  time_passes : ℕ → Happening Message

-- The messages among them.
abbrev pub arrivals : {Message : Type 0} → List (Happening Message) → List Message
arrivals [] = []
arrivals (message_arrives m ∷ rest) = m ∷ arrivals rest
arrivals (_ ∷ rest) = arrivals rest

module _ (setting : Setting) where
  open setting use {Message}

  abbrev pub at_least : ℕ → State setting → State setting
  at_least time w = record w {
    current_time = if ltb w.current_time time then time else w.current_time;
  }

  unfoldable pub happens : Happening Message → State setting → Outcome (State setting)
  unfolding receive_message resume_from_busy network_send calls
  happens (message_arrives m) w = receive_message setting m w
  happens (resume_fires event) w = elim (time_of event w.resume_events) [
    | none ↦ ok w
    | some time ↦
        resume_from_busy setting
          (record (at_least time w) { resume_events = without event w.resume_events })
  ]
  happens (messages_leave messages recipient) w = network_send setting messages recipient w
  happens (timer_calls made) w = calls setting made w
  happens (time_passes time) w = ok (at_least time w)

  unfoldable pub run : List (Happening Message) → State setting → Outcome (State setting)
  unfolding happens
  run [] w = ok w
  run (happening ∷ rest) w = do w₁ ← happens happening w; run rest w₁

  -- At most 1000 microseconds of delay are left over, and the client is resumed if it is busy.
  abbrev pub Waits : State setting → Type 0
  Waits w =
      WaitsAs w.client.client_is_busy w.client.busy_until_time w.client.busy_done_event
        w.resume_events
      × (w.client.accumulated_delay_micros ≤ 1000)

  -- What the queue has been while calls are made: the messages handled, those in the queue.
  abbrev pub Kept : List Message → List Message → State setting → Type 0
  Kept handled queue w = (w.handled ≡ handled) × (w.client.incoming_message_queue ≡ queue) × Waits w

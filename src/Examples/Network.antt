-- ===== src/Examples/Network.antt =====
-- The cryptography of the simulation, a network that is set up, and a client whose meter needs 2500 microseconds for each message, and gets three at once.
use pddm.Prelude.{
  ℕ, zero, suc, ◌+◌, ◌<◌, get_elem?, ◌≡◌, refl, arith, true, false, none, some, List, [], ◌∷◌, ◌++◌,
  length,
}
use pddm.Prelude.Int.{pos}
use pddm.Messages.Outcome.{ok}
use pddm.Simulation.Network
use pddm.Simulation.Network.{Network, Latency, connect_meter, finish_setup}
use pddm.Simulation.Network.Setup.{first_of}
use pddm.Simulation.Network.Setup.Finish.{connect_all, finish_setup_by_id}
use pddm.Simulation.NetworkClient.{Call, Setting, State}
use pddm.Simulation.NetworkClient.Order.{Happening, run}
use pddm.Simulation.NetworkClient.Order.Steps.{Settled}
use pddm.Simulation.NetworkClient.Order.Always.{messages_in_order, client-Settled}

abbrev four : Latency
four = record { Engine = Unit {0}; draw = λ e. (pos 4, e) }

-- The meter sends each message on to the meter with the id 1.
abbrev setting : Setting
setting = record {
  Message = ℕ;
  Meter = ℕ;
  NetworkClient = Unit {0};
  latency = four;
  handle_message = λ n failed m. (n + 1, Call.delay 2500 ∷ Call.aggregation m (some 1) ∷ []);
  reports_failures = true;
}

abbrev idle : State setting
idle = record {
  client = record {
    meter_id = 0;
    accumulated_delay_micros = 0;
    client_is_busy = false;
    busy_until_time = 0;
    busy_done_event = none;
    incoming_message_queue = [];
    num_messages_sent = 0;
  };
  meter = 0;
  network = record {
    meter_clients_setup = [];
    meter_clients = tt ∷ tt ∷ [];
    failed = false ∷ false ∷ [];
    latency_randomness = tt;
  };
  current_time = 10;
  submitted = [];
  resume_events = [];
  next_event = 0;
  handled = [];
}

abbrev happenings : List (Happening ℕ)
happenings =
    Happening.message_arrives 7
    ∷ Happening.message_arrives 8
    ∷ Happening.message_arrives 9
    ∷ Happening.resume_fires 0
    ∷ []

abbrev after : State setting
unfolding run
after = elim (run setting happenings idle) [ ok w ↦ w | _ ↦ idle ]

-- Two messages are handled, and the third waits until the time 15.
two_handled : after.handled ≡ 7 ∷ 8 ∷ []
unfolding after Network.send
two_handled = refl

one_waits : (after.client.busy_until_time ∷ after.client.incoming_message_queue) ≡ 15 ∷ 9 ∷ []
unfolding after Network.send
one_waits = refl

messages_in_order_example : after.handled ++ after.client.incoming_message_queue ≡ 7 ∷ 8 ∷ 9 ∷ []
unfolding run Network.send
messages_in_order_example =
    messages_in_order setting happenings idle after ((refl, omega arith), refl) refl

client-Settled_example : Settled setting after
unfolding run Network.send
client-Settled_example =
    client-Settled setting happenings idle after ((refl, omega arith), refl) refl

-- Two meters, of which the second is connected first, and then once more.
abbrev connections : List (ℕ × ℕ)
connections = (1, 31) ∷ (0, 30) ∷ (1, 32) ∷ []

abbrev no_network : Network ℕ (Unit {0})
no_network = record {
  meter_clients_setup = [];
  meter_clients = [];
  failed = [];
  latency_randomness = tt;
}

both_there : (id : ℕ) → id < 2 → (client : ℕ) × (first_of id connections ≡ some client)
both_there zero lt = (30, refl)
both_there (suc zero) lt = (31, refl)
both_there (suc (suc id)) lt = let absurd : ⊥ = omega arith in elim absurd [ ]

finish_setup_by_id_example :
    (set_up : Network ℕ (Unit {0})) × (finish_setup (connect_all connections no_network)
      ≡ ok set_up)
    × (length set_up.meter_clients ≡ 2)
    × ((id : ℕ) → id < 2 → get_elem? set_up.meter_clients id ≡ first_of id connections)
finish_setup_by_id_example =
    finish_setup_by_id connections 1 no_network refl refl
      (omega arith, (omega arith, (omega arith, tt))) both_there

-- ===== src/Simulation/Network.antt =====
-- simulation/Network.h and .cpp: the simulated network, which knows the meters' clients by their ids
-- and which of them have failed, and delivers messages after a random latency.
pub mod Setup
pub mod Ends
use pddm.Prelude.{
  ℕ, zero, suc, ◌+◌, ◌-◌, ◌*◌, ltb, ◌==◌, if◌then◌else◌, Bool, true, false, Option, none, some,
  List, [], ◌∷◌, ◌++◌, length, get_elem?, set, replicate,
}
use pddm.Prelude.Int.{ℤ, pos, negsuc}
use pddm.Messages.Outcome.{Outcome, ok, undefined, ◌>>=◌}

-- The normal distribution of the latency, rounded.
pub record Latency : Type 1 where
  pub Engine : Type 0
  pub draw : Engine → ℤ × Engine

abbrev pub min_latency : ℕ
min_latency = 2

-- `fmax(MIN_LATENCY + x, 0)`.
abbrev pub above_minimum : ℤ → ℕ
above_minimum (pos n) = min_latency + n
above_minimum (negsuc n) = min_latency - (n + 1)

-- A `Client` stands for the reference to a SimNetworkClient. The clients by their ids until the
-- set-up is finished are a std::map, in the order of the ids.
pub record Network (Client Engine : Type 0) : Type 0 where
  pub meter_clients_setup : List (ℕ × Client)
  pub meter_clients : List Client
  pub failed : List Bool
  pub latency_randomness : Engine

-- std::map::emplace, which leaves an entry that is there.
unfoldable pub emplace_client {ℓ} : {A : Type ℓ} → ℕ → A → List (ℕ × A) → List (ℕ × A)
emplace_client id a [] = (id, a) ∷ []
emplace_client id a ((key, b) ∷ rest) =
    let later = emplace_client id a rest in
    if id == key
    then (key, b) ∷ rest
    else if ltb id key
    then (id, a) ∷ (key, b) ∷ rest
    else (key, b) ∷ later

-- The vector of failures made long enough for an index, by entries that are false.
unfoldable pub resize_failed : ℕ → List Bool → List Bool
resize_failed id failed =
    if ltb (length failed) (id + 1)
    then failed ++ replicate (id + 1 - length failed) false
    else failed

-- std::map::at.
unfoldable pub client_at {ℓ} : {A : Type ℓ} → ℕ → List (ℕ × A) → Outcome A
client_at id [] = Outcome.out_of_range
client_at id ((key, a) ∷ rest) = let later = client_at id rest in if key == id then ok a else later

-- The loop of `finish_setup` from `id` on.
unfoldable pub clients_from {ℓ} : {A : Type ℓ} → ℕ → ℕ → List (ℕ × A) → Outcome (List A)
unfolding client_at
clients_from zero id map = ok []
clients_from (suc count) id map = do
  client ← client_at id map
  rest ← clients_from count (id + 1) map
  ok (client ∷ rest)

-- The greatest key, that of the last entry.
unfoldable pub last_id {ℓ} : {A : Type ℓ} → ℕ × A → List (ℕ × A) → ℕ
last_id (key, a) [] = key
last_id (key, a) (entry ∷ rest) = last_id entry rest

-- What comes of a send: messages that are given up with the sender, messages that arrive at a time,
-- a meter that has failed, by which the sender is delayed (in microseconds), or one that there is not.
pub data Sending : Type 0 where
  sender_failed : Sending
  arrives : ℕ → Sending
  recipient_failed : ℕ → Sending
  no_such_meter : Sending

-- The value that `send` returns.
abbrev pub was_sent : Sending → Bool
was_sent Sending.sender_failed = true
was_sent (Sending.arrives time) = true
was_sent (Sending.recipient_failed delay) = false
was_sent Sending.no_such_meter = false

module _ {Client Engine : Type 0} where
  unfoldable pub connect_meter : Client → ℕ → Network Client Engine → Network Client Engine
  unfolding emplace_client resize_failed
  connect_meter client id network = record network {
    meter_clients_setup = emplace_client id client network.meter_clients_setup;
    failed = set (resize_failed id network.failed) id false;
  }

  unfoldable pub finish_setup : Network Client Engine → Outcome (Network Client Engine)
  unfolding clients_from last_id
  finish_setup network = elim network.meter_clients [
    | client ∷ rest ↦ Outcome.setup_twice
    | [] ↦ elim network.meter_clients_setup [
      | [] ↦ Outcome.no_meters
      | entry ∷ rest ↦ do
        clients ← clients_from (last_id entry rest + 1) 0 (entry ∷ rest)
        ok (record network { meter_clients = clients; meter_clients_setup = [] })
    ]
  ]

  -- `failed[id]`, a read that is not checked.
  abbrev pub failed_at : ℕ → Network Client Engine → Outcome Bool
  failed_at id network = elim (get_elem? network.failed id) [
    | none ↦ undefined
    | some failed ↦ ok failed
  ]

  -- The utility, whose id is -1, has `none`.
  unfoldable pub is_failed : Option ℕ → Network Client Engine → Outcome Bool
  is_failed none network = ok false
  is_failed (some id) network = failed_at id network

  unfoldable pub mark_failed : ℕ → Network Client Engine → Outcome (Network Client Engine)
  mark_failed id network =
      if ltb id (length network.failed)
      then ok (record network { failed = set network.failed id true })
      else undefined

  unfoldable pub reset_failures : Network Client Engine → Network Client Engine
  reset_failures network = record network { failed = replicate (length network.failed) false }

module _ (latency : Latency) {Client : Type 0} where
  unfoldable pub generate_latency :
      Network Client latency.Engine → ℕ × Network Client latency.Engine
  generate_latency network =
      let (x, engine) = latency.draw network.latency_randomness in
      (above_minimum x, record network { latency_randomness = engine })

  -- The two latencies after which a meter finds that the recipient does not answer. The utility is not
  -- delayed.
  unfoldable pub refused :
      Option ℕ → Network Client latency.Engine → Sending × Network Client latency.Engine
  unfolding generate_latency
  refused none network = (Sending.recipient_failed 0, network)
  refused (some sender) network =
      let (there, network₁) = generate_latency network in
      let (back, network₂) = generate_latency network₁ in
      (Sending.recipient_failed ((there + back) * 1000), network₂)

  unfoldable pub accepted :
      ℕ → Network Client latency.Engine → Sending × Network Client latency.Engine
  unfolding generate_latency
  accepted now network =
      let (later, network₁) = generate_latency network in (Sending.arrives (now + later), network₁)

  -- To a meter.
  unfoldable pub send_to :
      ℕ
      → Option ℕ
      → ℕ
      → Network Client latency.Engine
      → Outcome (Sending × Network Client latency.Engine)
  unfolding refused accepted
  send_to now sender_id recipient network = elim (ltb recipient (length network.meter_clients)) [
    | false ↦ ok (Sending.no_such_meter, network)
    | true ↦ do
      recipient_is_failed ← failed_at recipient network
      ok (if recipient_is_failed then refused sender_id network else accepted now network)
  ]

  -- A send at the time `now`.
  unfoldable pub send :
      ℕ
      → Option ℕ
      → Option ℕ
      → Network Client latency.Engine
      → Outcome (Sending × Network Client latency.Engine)
  unfolding is_failed send_to accepted
  send now sender_id recipient_id network = do
    sender_is_failed ← is_failed sender_id network
    elim sender_is_failed [
      | true ↦ ok (Sending.sender_failed, network)
      | false ↦ elim recipient_id [
        | none ↦ ok (accepted now network)
        | some recipient ↦ send_to now sender_id recipient network
      ]
    ]

-- ===== src/Meter/Values/Runs.antt =====
-- Properties of the values of both states of MeterClient.cpp, over messages and timeouts.
use pddm.Prelude.{◌≡◌, ℕ, Bool, true, false, Option, none, some, List, [], ◌∷◌}
use pddm.Messages.{ValueTuple, ValueContribution, QueryRequest}
use pddm.Messages.Outcome.{Outcome, ok, undefined, ◌>>=◌, both_return}
use pddm.Protocol.{Environment, ProtocolState}
use pddm.Protocol.Round
use pddm.Protocol.Round.{handle_round_timeout}
use pddm.Protocol.Keeps.Defs.{Keeps, ok-Holds}
use pddm.Protocol.Keeps.{handle_round_timeout-Keeps}
use pddm.Protocol.Events.{ping-Holds}
use pddm.Meter.{
  Meter, MeterProtocol, MeterClient, with_calls_of, on_primary, on_second_id, second_done,
  set_second_id, contributed_data,
}
use pddm.Meter.Handlers.{
  handle_ping_message, start_second, start_primary, handle_query_request, handle_signature_response,
}
use pddm.Meter.Run.{Arrival, handle_message, run}
use pddm.Meter.Values.{
  IsKept, HoldsOfBoth, KeepsBoth, ok-HoldsOfBoth, on_primary-KeepsBoth, on_second_id-KeepsBoth,
  overlay-KeepsBoth, aggregation-KeepsBoth,
}

module _ {Impl Engine : Type 0} (Q : Option ValueTuple → List ValueContribution → Type 0)
    (env : Environment) (protocol : MeterProtocol Impl Engine) (kept : IsKept Q protocol)
    (fuel : ℕ) where
  ping-Keeps :
      (is_response : Bool) (sender : ℕ)
      → Keeps Q (λ s. ok (Round.handle_ping_message env protocol.sub s is_response sender))
  ping-Keeps is_response sender s s' e h =
      ok-Holds Q (Round.handle_ping_message env protocol.sub s is_response sender) s' e
        (ping-Holds env protocol.sub fuel Q kept.keeping s is_response sender h)

  ping-KeepsBoth :
      (is_response : Bool) (sender : ℕ)
      → KeepsBoth Q (handle_ping_message env protocol fuel is_response sender)
  unfolding handle_ping_message
  ping-KeepsBoth is_response sender c c' e h =
      let (c₁, ran, later) = both_return (on_primary ping c) (on_second_id ping) e in
      on_second_id-KeepsBoth Q ping (ping-Keeps is_response sender) c₁ c' later
        (on_primary-KeepsBoth Q ping (ping-Keeps is_response sender) c c₁ ran h)
    where
      ping : ProtocolState Impl → Outcome (ProtocolState Impl)
      ping s = ok (Round.handle_ping_message env protocol.sub s is_response sender)

  start_primary-KeepsBoth :
      (meter : Meter) (query : QueryRequest)
      → KeepsBoth Q (start_primary env protocol fuel meter query)
  unfolding start_primary
  start_primary-KeepsBoth meter query c c' e h =
      let ((s, engine'), ran, later) =
        both_return
          (protocol.start_query c.primary_protocol_state c.engine query
            (contributed_data meter query))
          _ e in
      ok-HoldsOfBoth Q (record c { primary_protocol_state = s; engine = engine' }) c' later
        (kept.starts c.primary_protocol_state s c.engine engine' query _ ran, h.1)

  start_second-KeepsBoth :
      (query : QueryRequest) → KeepsBoth Q (start_second env protocol fuel query)
  unfolding start_second
  start_second-KeepsBoth query c c' e h = go c.secondary_protocol_state e
    where
      go :
          (second : Option (ProtocolState Impl))
          → (elim second [
            | none ↦ undefined
            | some s ↦
                protocol.start_query (with_calls_of c.primary_protocol_state s) c.engine query []
                >>= (λ (s', engine'). ok (record (second_done c s') { engine = engine' }))
          ])
            ≡ ok c'
          → HoldsOfBoth Q c'
      go none e = cc
      go (some s) e =
          let borrowed = with_calls_of c.primary_protocol_state s in
          let ((s', engine'), ran, later) =
            both_return (protocol.start_query borrowed c.engine query []) _ e in
          ok-HoldsOfBoth Q (record (second_done c s') { engine = engine' }) c' later
            (h.0, kept.starts borrowed s' c.engine engine' query [] ran)

  query-KeepsBoth :
      (meter : Meter) (query : QueryRequest)
      → KeepsBoth Q (handle_query_request env protocol fuel meter query)
  unfolding handle_query_request
  query-KeepsBoth meter query c c' e h =
      let (c₁, ran, later) = both_return (start_primary env protocol fuel meter query c) _ e in
      go c₁ c₁.has_second_id later (start_primary-KeepsBoth meter query c c₁ ran h)
    where
      go :
          (c₁ : MeterClient Impl Engine) (b : Bool)
          → (elim b [ true ↦ start_second env protocol fuel query c₁ | false ↦ ok c₁ ]) ≡ ok c'
          → HoldsOfBoth Q c₁
          → HoldsOfBoth Q c'
      go c₁ true e h = start_second-KeepsBoth query c₁ c' e h
      go c₁ false e h = ok-HoldsOfBoth Q c₁ c' e h

  signature-KeepsBoth :
      (answer : List ℕ) → KeepsBoth Q (handle_signature_response env protocol fuel answer)
  unfolding handle_signature_response
  signature-KeepsBoth answer c c' e h =
      on_primary-KeepsBoth Q (λ s. protocol.handle_signature_response s answer) (kept.signs answer)
        c c' e h

  module _ (meter : Meter) where
    handle_message-KeepsBoth :
        (arrival : Arrival) → KeepsBoth Q (handle_message env protocol fuel meter arrival)
    unfolding handle_message set_second_id
    handle_message-KeepsBoth (Arrival.overlay_message m) c c' e h =
        overlay-KeepsBoth Q env protocol kept fuel m c c' e h
    handle_message-KeepsBoth (Arrival.aggregation_message m) c c' e h =
        aggregation-KeepsBoth Q env protocol kept fuel m c c' e h
    handle_message-KeepsBoth (Arrival.ping_message is_response sender) c c' e h =
        ping-KeepsBoth is_response sender c c' e h
    handle_message-KeepsBoth (Arrival.query_request query) c c' e h =
        query-KeepsBoth meter query c c' e h
    handle_message-KeepsBoth (Arrival.signature_response answer) c c' e h =
        signature-KeepsBoth answer c c' e h
    handle_message-KeepsBoth (Arrival.second_id id) c c' e h =
        ok-HoldsOfBoth Q (set_second_id protocol id c) c' e (h.0, kept.at_first)
    handle_message-KeepsBoth Arrival.primary_timeout c c' e h =
        on_primary-KeepsBoth Q (λ s. handle_round_timeout env protocol.sub fuel s)
          (handle_round_timeout-Keeps Q env protocol.sub kept.keeping fuel) c c' e h
    handle_message-KeepsBoth Arrival.secondary_timeout c c' e h =
        on_second_id-KeepsBoth Q (λ s. handle_round_timeout env protocol.sub fuel s)
          (handle_round_timeout-Keeps Q env protocol.sub kept.keeping fuel) c c' e h

    pub run-KeepsBoth :
        (arrivals : List Arrival) → KeepsBoth Q (run env protocol fuel meter arrivals)
    unfolding run
    run-KeepsBoth [] c c' e h = ok-HoldsOfBoth Q c c' e h
    run-KeepsBoth (arrival ∷ rest) c c' e h =
        let (c₁, ran, later) =
          both_return (handle_message env protocol fuel meter arrival c)
            (run env protocol fuel meter rest) e in
        run-KeepsBoth rest c₁ c' later (handle_message-KeepsBoth arrival c c₁ ran h)

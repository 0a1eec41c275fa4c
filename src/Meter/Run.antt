-- ===== src/Meter/Run.antt =====
-- What can reach a MeterClient, and sequences of it.
use pddm.Prelude.{ℕ, Bool, List, [], ◌∷◌}
use pddm.Messages.{QueryRequest, AggregationMessage}
use pddm.Messages.Outcome.{Outcome, ok, ◌>>=◌}
use pddm.Protocol.{Transport, Environment}
use pddm.Protocol.Round.{handle_round_timeout}
use pddm.Meter.{Meter, MeterProtocol, MeterClient, on_primary, on_second_id, set_second_id}
use pddm.Meter.Handlers.{
  handle_overlay_message, handle_aggregation_message, handle_ping_message, handle_query_request,
  handle_signature_response,
}

-- A message from the network, by its type: a ping has `is_response` and its sender, a signature the
-- utility's answer. And what else calls the client: the simulator with a second id, and the timers of
-- the two states.
pub data Arrival : Type 0 where
  overlay_message : Transport → Arrival
  aggregation_message : AggregationMessage → Arrival
  ping_message : Bool → ℕ → Arrival
  query_request : QueryRequest → Arrival
  signature_response : List ℕ → Arrival
  second_id : ℕ → Arrival
  primary_timeout secondary_timeout : Arrival

module _ {Impl Engine : Type 0} (env : Environment) (protocol : MeterProtocol Impl Engine)
    (fuel : ℕ) (meter : Meter) where
  unfoldable pub handle_message :
      Arrival → MeterClient Impl Engine → Outcome (MeterClient Impl Engine)
  unfolding handle_overlay_message handle_aggregation_message handle_ping_message
      handle_query_request handle_signature_response set_second_id
  handle_message (Arrival.overlay_message m) c = handle_overlay_message env protocol fuel m c
  handle_message (Arrival.aggregation_message m) c =
      handle_aggregation_message env protocol fuel m c
  handle_message (Arrival.ping_message is_response sender) c =
      handle_ping_message env protocol fuel is_response sender c
  handle_message (Arrival.query_request query) c =
      handle_query_request env protocol fuel meter query c
  handle_message (Arrival.signature_response answer) c =
      handle_signature_response env protocol fuel answer c
  handle_message (Arrival.second_id id) c = ok (set_second_id protocol id c)
  handle_message Arrival.primary_timeout c =
      on_primary (λ s. handle_round_timeout env protocol.sub fuel s) c
  handle_message Arrival.secondary_timeout c =
      on_second_id (λ s. handle_round_timeout env protocol.sub fuel s) c

  unfoldable pub run : List Arrival → MeterClient Impl Engine → Outcome (MeterClient Impl Engine)
  unfolding handle_message
  run [] c = ok c
  run (arrival ∷ rest) c = do c₁ ← handle_message arrival c; run rest c₁

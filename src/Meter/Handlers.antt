-- ===== src/Meter/Handlers.antt =====
-- MeterClient.cpp, the handlers of the messages, which choose the protocol states.
use pddm.Prelude.{ℕ, ◌==◌, Bool, true, false, none, some, List, []}
use pddm.Messages.{QueryRequest, AggregationMessage}
use pddm.Messages.Outcome.{Outcome, ok, undefined, ◌>>=◌}
use pddm.Overlay.Gossip.{target}
use pddm.Overlay.Groups.{aggregation_group_for}
use pddm.Protocol.{Transport, Environment, ProtocolState}
use pddm.Protocol.Round
use pddm.Protocol.Round.{Subclass, end_overlay_round}
use pddm.Meter.{
  receive_overlay, receive_aggregation, on_primary, on_secondary, on_second_id, second_done,
  with_calls_of, contributed_data, Meter, MeterProtocol, MeterClient,
}

module _ {Impl Engine : Type 0} (env : Environment) (protocol : MeterProtocol Impl Engine)
    (fuel : ℕ) where
  unfoldable pub handle_overlay_message :
      Transport → MeterClient Impl Engine → Outcome (MeterClient Impl Engine)
  unfolding receive_overlay
  handle_overlay_message message c =
      let to = target message.sender_id message.sender_round c.num_meters in
      elim (to == c.meter_id) [
        | true ↦ on_primary (receive_overlay env protocol fuel message) c
        | false ↦ elim (to == c.second_id) [
          | true ↦ on_second_id (receive_overlay env protocol fuel message) c
          | false ↦ ok c
        ]
      ]

  -- The two ids are in one group of the state's groups.
  abbrev pub in_group_of : ProtocolState Impl → ℕ → ℕ → ℕ → Bool
  in_group_of s num_meters sender id =
      aggregation_group_for sender s.num_aggregation_groups num_meters
      == aggregation_group_for id s.num_aggregation_groups num_meters

  unfoldable pub handle_aggregation_for_second :
      AggregationMessage → MeterClient Impl Engine → Outcome (MeterClient Impl Engine)
  unfolding receive_aggregation
  handle_aggregation_for_second message c = elim c.secondary_protocol_state [
    | none ↦ undefined
    | some s ↦ elim (in_group_of s c.num_meters message.sender_id c.second_id) [
      | true ↦ on_secondary (receive_aggregation env protocol fuel message) c
      | false ↦ ok c
    ]
  ]

  unfoldable pub handle_aggregation_message :
      AggregationMessage → MeterClient Impl Engine → Outcome (MeterClient Impl Engine)
  unfolding receive_aggregation handle_aggregation_for_second
  handle_aggregation_message message c =
      elim (in_group_of c.primary_protocol_state c.num_meters message.sender_id c.meter_id) [
        | true ↦ on_primary (receive_aggregation env protocol fuel message) c
        | false ↦ elim c.has_second_id [
          | true ↦ handle_aggregation_for_second message c
          | false ↦ ok c
        ]
      ]

  unfoldable pub handle_ping_message :
      Bool → ℕ → MeterClient Impl Engine → Outcome (MeterClient Impl Engine)
  handle_ping_message is_response sender c = do
    let ping : ProtocolState Impl → Outcome (ProtocolState Impl) =
        λ s. ok (Round.handle_ping_message env protocol.sub s is_response sender)
    c₁ ← on_primary ping c
    on_second_id ping c₁

  -- The second state contributes no data.
  unfoldable pub start_second :
      QueryRequest → MeterClient Impl Engine → Outcome (MeterClient Impl Engine)
  start_second query c = elim c.secondary_protocol_state [
    | none ↦ undefined
    | some s ↦ do
      (s', engine') ←
          protocol.start_query (with_calls_of c.primary_protocol_state s) c.engine query []
      ok (record (second_done c s') { engine = engine' })
  ]

  unfoldable pub start_primary :
      Meter → QueryRequest → MeterClient Impl Engine → Outcome (MeterClient Impl Engine)
  start_primary meter query c = do
    (s, engine') ←
        protocol.start_query c.primary_protocol_state c.engine query (contributed_data meter query)
    ok (record c { primary_protocol_state = s; engine = engine' })

  unfoldable pub handle_query_request :
      Meter → QueryRequest → MeterClient Impl Engine → Outcome (MeterClient Impl Engine)
  unfolding start_second start_primary
  handle_query_request meter query c = do
    c₁ ← start_primary meter query c
    elim c₁.has_second_id [ true ↦ start_second query c₁ | false ↦ ok c₁ ]

  unfoldable pub handle_signature_response :
      List ℕ → MeterClient Impl Engine → Outcome (MeterClient Impl Engine)
  handle_signature_response answer c =
      on_primary (λ s. protocol.handle_signature_response s answer) c

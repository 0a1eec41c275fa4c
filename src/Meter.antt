-- ===== src/Meter.antt =====
-- MeterClient.h and .cpp: the code on a meter, which has a protocol state for its own id and perhaps
-- one for a second id, and passes the messages from the network on to them.
pub mod Protocols
pub mod Handlers
pub mod Run
pub mod Order
pub mod Early
pub mod Values
use pddm.Prelude.{
  ℕ, ◌+◌, ltb, ◌==◌, if◌then◌else◌, Bool, true, false, not, Option, none, some, List, [], ◌∷◌,
}
use pddm.Prelude.Log.{ceil_log2}
use pddm.Messages.{QueryType, QueryRequest, AggregationMessage}
use pddm.Messages.Outcome.{Outcome, ok, undefined, ◌>>=◌}
use pddm.Messages.Body.{MessageBody}
use pddm.Overlay.Gossip.{target}
use pddm.Overlay.Groups.{aggregation_group_for}
use pddm.Protocol.{
  Transport, Environment, ProtocolState, get_current_query_num, buffer_future_message,
  buffer_future_aggregation,
}
use pddm.Protocol.Round
use pddm.Protocol.Round.{Subclass, end_overlay_round}

-- MeterInterface: what the meter measures by a query's time window. The projected usage is by the
-- price function that the request has with it.
pub record Meter : Type 0 where
  pub measure_consumption : ℕ → ℕ
  pub measure_shiftable_consumption : ℕ → ℕ
  pub measure_daily_consumption : ℕ
  pub simulate_projected_usage : QueryRequest → List ℕ

-- ProtocolState_t, which the configuration chooses. `Engine` is the source of randomness of
-- `pick_proxies`. The overload of `handle_signature_response` is chosen with the protocol.
pub record MeterProtocol (Impl Engine : Type 0) : Type 0 where
  pub sub : Subclass Impl
  pub num_aggregation_groups : ℕ
  pub new_impl : Impl
  pub start_query :
      ProtocolState Impl → Engine → QueryRequest → List ℕ → Outcome (ProtocolState Impl × Engine)
  pub handle_signature_response : ProtocolState Impl → List ℕ → Outcome (ProtocolState Impl)

pub record MeterClient (Impl Engine : Type 0) : Type 0 where
  pub meter_id : ℕ
  pub num_meters : ℕ
  pub second_id : ℕ
  pub has_second_id : Bool
  pub primary_protocol_state : ProtocolState Impl
  pub secondary_protocol_state : Option (ProtocolState Impl)
  pub engine : Engine

-- The constructor of ProtocolState. The timer -1, which is none, is 0, and the others come after it.
abbrev pub new_state :
    {Impl Engine : Type 0} → MeterProtocol Impl Engine → ℕ → ℕ → ProtocolState Impl
new_state protocol num_meters meter_id = record {
  meter_id = meter_id;
  num_meters = num_meters;
  log2n = ceil_log2 num_meters;
  num_aggregation_groups = protocol.num_aggregation_groups;
  next_round = 1;
  is_last_round = false;
  failed_meter_ids = [];
  round_timeout_timer = 0;
  next_timer = 1;
  ping_response_from_predecessor = false;
  future_overlay_messages = [];
  future_aggregation_messages = [];
  waiting_messages = [];
  outgoing_messages = [];
  my_contribution = none;
  proxy_values = [];
  aggregation_phase_state = none;
  impl = protocol.new_impl;
  effects = [];
}

-- `get_current_query_num()` is -1 without a contribution.
abbrev pub is_above : ℕ → Option ℕ → Bool
is_above n none = true
is_above n (some current) = ltb current n

abbrev pub is_below : ℕ → Option ℕ → Bool
is_below n none = false
is_below n (some current) = ltb n current

abbrev pub is_current : ℕ → Option ℕ → Bool
is_current n none = false
is_current n (some current) = n == current

-- The query of an OverlayMessage, to which the body of an envelope is cast.
abbrev pub query_num_of : MessageBody → Option ℕ
query_num_of (MessageBody.overlay query destination encrypted flood body) = some query
query_num_of (MessageBody.path_overlay query destination encrypted flood path body) = some query
query_num_of _ = none

abbrev pub contributed_data : Meter → QueryRequest → List ℕ
contributed_data meter query = elim query.request_type [
  | QueryType.curr_usage_sum ↦ meter.measure_consumption query.time_window ∷ []
  | QueryType.curr_usage_histogram ↦ meter.measure_consumption query.time_window ∷ []
  | QueryType.projected_sum ↦ meter.simulate_projected_usage query
  | QueryType.projected_histogram ↦ meter.simulate_projected_usage query
  | QueryType.cumulative_usage ↦ meter.measure_daily_consumption ∷ []
  | QueryType.available_offset_breakdown ↦
      meter.measure_consumption query.time_window
      ∷ meter.measure_shiftable_consumption query.time_window
      ∷ []
]

-- A state with the timers and the calls so far of another one: both call the same libraries.
abbrev pub with_calls_of :
    {Impl : Type 0} → ProtocolState Impl → ProtocolState Impl → ProtocolState Impl
with_calls_of other s = record s { next_timer = other.next_timer; effects = other.effects }

module _ {Impl Engine : Type 0} where
  -- An operation of one of the two states. A second one that is not there is an empty optional.
  abbrev pub on_primary :
      (ProtocolState Impl → Outcome (ProtocolState Impl))
      → MeterClient Impl Engine
      → Outcome (MeterClient Impl Engine)
  on_primary f c = do s ← f c.primary_protocol_state; ok (record c { primary_protocol_state = s })

  abbrev pub second_done : MeterClient Impl Engine → ProtocolState Impl → MeterClient Impl Engine
  second_done c s = record c {
    primary_protocol_state = with_calls_of s c.primary_protocol_state;
    secondary_protocol_state = some s;
  }

  abbrev pub on_secondary :
      (ProtocolState Impl → Outcome (ProtocolState Impl))
      → MeterClient Impl Engine
      → Outcome (MeterClient Impl Engine)
  on_secondary f c = elim c.secondary_protocol_state [
    | none ↦ undefined
    | some s ↦ do s' ← f (with_calls_of c.primary_protocol_state s); ok (second_done c s')
  ]

  -- An operation of the second state, if there is a second id.
  abbrev pub on_second_id :
      (ProtocolState Impl → Outcome (ProtocolState Impl))
      → MeterClient Impl Engine
      → Outcome (MeterClient Impl Engine)
  on_second_id f c = elim c.has_second_id [ true ↦ on_secondary f c | false ↦ ok c ]

  unfoldable pub set_second_id :
      MeterProtocol Impl Engine → ℕ → MeterClient Impl Engine → MeterClient Impl Engine
  set_second_id protocol id c = record c {
    second_id = id;
    has_second_id = true;
    secondary_protocol_state = some (new_state protocol c.num_meters id);
  }

  module _ (env : Environment) (protocol : MeterProtocol Impl Engine) (fuel : ℕ) where
    -- An envelope for a state's id: one for later is kept, and one of the past is discarded.
    unfoldable pub receive_overlay : Transport → ProtocolState Impl → Outcome (ProtocolState Impl)
    receive_overlay message s = elim (query_num_of message.body) [
      | none ↦ undefined
      | some query_num ↦
          if is_above query_num (get_current_query_num s)
          then ok (buffer_future_message s message)
          else if is_below query_num (get_current_query_num s)
          then ok s
          else if message.sender_round + 1 == s.next_round
          then Round.handle_overlay_message env protocol.sub
              (end_overlay_round env protocol.sub fuel) s message
          else if ltb s.next_round (message.sender_round + 1)
          then ok (buffer_future_message s message)
          else ok s
    ]

    -- An aggregate from a meter of a state's group.
    unfoldable pub receive_aggregation :
        AggregationMessage → ProtocolState Impl → Outcome (ProtocolState Impl)
    receive_aggregation message s =
        if protocol.sub.is_in_aggregate_phase s.impl
        then Round.handle_aggregation_message env protocol.sub s message
        else if is_current message.query_num (get_current_query_num s)
        then ok (buffer_future_aggregation s message)
        else ok s

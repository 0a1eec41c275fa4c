-- ===== src/Protocol/Hft.antt =====
-- HftProtocolState.h and .cpp: the protocol that floods the values to relays (scatter), and from there
-- to their proxies (gather), in two layers of encryption.
pub mod Random
pub mod Query
pub mod Floods
pub mod Returns
use mathlib.Core.List.{Memᴰ}
use pddm.Prelude.{
  ◌↔◌, ℕ, ◌+◌, ◌-◌, leb, ltb, ◌==◌, if◌then◌else◌, Bool, true, false, ◌&&◌, none, some, List, [],
  ◌∷◌, ◌++◌, length, replicate,
}
use pddm.Messages.{ValueContribution, QueryRequest}
use pddm.Messages.Outcome.{Outcome, ok, undefined, ◌>>=◌}
use pddm.Messages.Body.{MessageBody, Crypto}
use pddm.Aggregation.{done_receiving_from_children, compute_and_send_aggregate}
use pddm.Overlay.Gossip.{target}
use pddm.Protocol.{Transport, Environment, ProtocolState, send_aggregate, noted, emplace_value}
use pddm.Protocol.Round.{Subclass, end_overlay_round}

pub data HftProtocolPhase : Type 0 where
  idle scatter gather aggregate : HftProtocolPhase

-- The sets of messages are lists; random_engine is an argument of the start of a query.
pub record HftProtocolState : Type 0 where
  pub protocol_phase : HftProtocolPhase
  pub gather_start_round : ℕ
  pub current_flood_messages : List MessageBody
  pub relay_messages : List MessageBody

abbrev pub State : Type 0
State = ProtocolState HftProtocolState

-- What the std::unordered_sets of messages do that the messages' values do not decide, since the hash
-- of a message is by the address of its body: whether a message is found, and the order of the
-- elements.
pub record MessageSets : Type 0 where
  pub holds : List MessageBody → MessageBody → Bool
  pub order : List MessageBody → List MessageBody
  pub mem-order : (m : MessageBody) (ms : List MessageBody) → Memᴰ m (order ms) ↔ Memᴰ m ms

abbrev pub is_in_overlay_phase : HftProtocolState → Bool
is_in_overlay_phase p = elim p.protocol_phase [
  | HftProtocolPhase.scatter ↦ true
  | HftProtocolPhase.gather ↦ true
  | _ ↦ false
]

abbrev pub is_in_aggregate_phase : HftProtocolState → Bool
is_in_aggregate_phase p = elim p.protocol_phase [ HftProtocolPhase.aggregate ↦ true | _ ↦ false ]

-- The rounds that the scatter and the gather take.
abbrev pub phase_rounds : Environment → State → ℕ
phase_rounds env s = s.log2n + env.failures_tolerated

abbrev pub emplace_message : MessageSets → MessageBody → List MessageBody → List MessageBody
emplace_message sets message messages =
    if sets.holds messages message then messages else message ∷ messages

abbrev pub flood_on : MessageSets → MessageBody → State → State
flood_on sets message s = record s {
  impl = record s.impl {
    current_flood_messages = emplace_message sets message s.impl.current_flood_messages;
  };
}

abbrev pub keep_relay : MessageSets → MessageBody → State → State
keep_relay sets message s = record s {
  impl = record s.impl { relay_messages = emplace_message sets message s.impl.relay_messages };
}

-- `body` is that of the message, which is not a null pointer.
unfoldable pub handle_scatter_phase_message : MessageSets → State → MessageBody → State
handle_scatter_phase_message sets s (MessageBody.overlay q d e f b) =
    keep_relay sets (MessageBody.overlay q d e f b) s
handle_scatter_phase_message sets s (MessageBody.path_overlay q d e f p b) =
    keep_relay sets (MessageBody.path_overlay q d e f p b) s
handle_scatter_phase_message sets s _ = s

unfoldable pub handle_gather_phase_message : State → MessageBody → Outcome State
handle_gather_phase_message s (MessageBody.value_contribution contribution) =
    elim s.my_contribution [
      | none ↦ undefined
      | some mine ↦
          if contribution.value.query_num == mine.query_num
          then ok (record s { proxy_values = emplace_value contribution s.proxy_values })
          else ok s
    ]
handle_gather_phase_message s _ = ok s

-- A payload that is destined for this meter.
unfoldable pub handle_payload : MessageSets → State → MessageBody → Outcome State
unfolding handle_scatter_phase_message handle_gather_phase_message
handle_payload sets s body = elim s.impl.protocol_phase [
  | HftProtocolPhase.scatter ↦ ok (handle_scatter_phase_message sets s body)
  | HftProtocolPhase.gather ↦ handle_gather_phase_message s body
  | _ ↦ ok s
]

-- What the handler does with `message`, whose destination and body are the next two arguments.
unfoldable pub handle_destined : MessageSets → State → MessageBody → ℕ → MessageBody → Outcome State
unfolding handle_payload
handle_destined sets s message destination MessageBody.null = ok s
handle_destined sets s message destination body =
    if destination == s.meter_id then handle_payload sets s body else ok (flood_on sets message s)

-- The message is cast to an OverlayMessage without a check.
unfoldable pub handle_opened : MessageSets → State → MessageBody → Outcome State
unfolding handle_destined
handle_opened sets s (MessageBody.overlay q destination e f body) =
    handle_destined sets s (MessageBody.overlay q destination e f body) destination body
handle_opened sets s (MessageBody.path_overlay q destination e f p body) =
    handle_destined sets s (MessageBody.path_overlay q destination e f p body) destination body
handle_opened sets s _ = undefined

unfoldable pub handle_overlay_message_impl :
    MessageSets → (State → Outcome State) → State → Transport → Outcome State
unfolding handle_opened
handle_overlay_message_impl sets end_overlay_round s message = do
  s₁ ← handle_opened sets s message.body
  elim (message.is_final_message && is_in_overlay_phase s₁.impl) [
    | true ↦ end_overlay_round s₁
    | false ↦ ok s₁
  ]

unfoldable pub send_aggregate_if_done : State → Outcome State
send_aggregate_if_done s = elim s.aggregation_phase_state [
  | none ↦ undefined
  | some aggregation ↦
      if done_receiving_from_children aggregation
      then (do
        (aggregation', parent, sum) ← compute_and_send_aggregate aggregation s.proxy_values
        ok (
            noted (send_aggregate sum parent) (record s {
              aggregation_phase_state = some aggregation';
              impl = record s.impl {
                protocol_phase = HftProtocolPhase.idle;
                current_flood_messages = [];
              };
            })))
      else ok s
]

-- Whether a message is sent to its destination if it is sent to `meter`.
unfoldable pub arrives_at : ℕ → MessageBody → Bool
arrives_at meter (MessageBody.overlay q destination e f body) = meter == destination
arrives_at meter (MessageBody.path_overlay q destination e f p body) = meter == destination
arrives_at meter _ = false

-- The messages that are flooded on after a round in which all are sent to `meter`.
unfoldable pub still_flooding : ℕ → List MessageBody → List MessageBody
unfolding arrives_at
still_flooding meter [] = []
still_flooding meter (m ∷ rest) =
    let kept = still_flooding meter rest in if arrives_at meter m then kept else m ∷ kept

-- The loop over the flood messages.
unfoldable pub send_floods : MessageSets → State → State
unfolding still_flooding
send_floods sets s =
    let floods = sets.order s.impl.current_flood_messages in
    record s {
      outgoing_messages = s.outgoing_messages ++ floods;
      impl = record s.impl {
        current_flood_messages =
            still_flooding (target s.meter_id s.next_round s.num_meters) floods;
      };
    }

-- The end of the scatter or the gather, if it is over.
unfoldable pub end_phase : Environment → (State → Outcome State) → State → Outcome State
end_phase env start_aggregate_phase s = elim s.impl.protocol_phase [
  | HftProtocolPhase.scatter ↦
      if leb (phase_rounds env s + 1) s.next_round
      then ok (record s {
        impl = record {
          protocol_phase = HftProtocolPhase.gather;
          gather_start_round = s.next_round - 1;
          current_flood_messages = s.impl.relay_messages;
          relay_messages = [];
        };
      })
      else ok s
  | HftProtocolPhase.gather ↦
      if leb (s.impl.gather_start_round + phase_rounds env s + 1) s.next_round
      then start_aggregate_phase (record s {
        impl = record s.impl {
          protocol_phase = HftProtocolPhase.aggregate;
          current_flood_messages = [];
        };
      })
      else ok s
  | _ ↦ ok s
]

unfoldable pub end_overlay_round_impl :
    Environment → MessageSets → (State → Outcome State) → State → Outcome State
unfolding end_phase send_floods
end_overlay_round_impl env sets start_aggregate_phase s = do
  s₁ ← end_phase env start_aggregate_phase s
  ok (if is_in_overlay_phase s₁.impl then send_floods sets s₁ else s₁)

unfoldable pub subclass : Environment → MessageSets → Subclass HftProtocolState
unfolding handle_overlay_message_impl send_aggregate_if_done end_overlay_round_impl
subclass env sets = record {
  is_in_overlay_phase = is_in_overlay_phase;
  is_in_aggregate_phase = is_in_aggregate_phase;
  send_aggregate_if_done = send_aggregate_if_done;
  handle_overlay_message_impl = handle_overlay_message_impl sets;
  end_overlay_round_impl = end_overlay_round_impl env sets;
}

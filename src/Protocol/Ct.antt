-- ===== src/Protocol/Ct.antt =====
-- CtProtocolState.h and .cpp: the crash-tolerant protocol, which shuffles the values to their proxies
-- and echoes them between the proxies.
pub mod Returns
pub mod Relay
use pddm.Prelude.{
  ℕ, ◌+◌, ◌-◌, ◌*◌, leb, ◌==◌, if◌then◌else◌, Bool, true, false, ◌&&◌, none, some, List, [], ◌∷◌,
  ◌++◌, replicate,
}
use pddm.Messages.{ValueContribution, QueryRequest}
use pddm.Messages.Outcome.{Outcome, ok, undefined, ◌>>=◌}
use pddm.Messages.Body.{MessageBody}
use pddm.Messages.Multicast.{multicast}
use pddm.Aggregation.{done_receiving_from_children, compute_and_send_aggregate}
use pddm.Protocol.{
  Transport, Environment, ProtocolState, send_aggregate, noted, emplace_value,
  get_current_query_num,
}
use pddm.Protocol.Content.{Content, no_payload, not_here, next_layer, payload, content}
use pddm.Protocol.Start
use pddm.Protocol.Round.{Subclass}

pub data CtProtocolPhase : Type 0 where
  idle shuffle echo aggregate : CtProtocolPhase

pub record CtProtocolState : Type 0 where
  pub echo_start_round : ℕ
  pub protocol_phase : CtProtocolPhase

abbrev pub State : Type 0
State = ProtocolState CtProtocolState

abbrev pub is_in_overlay_phase : CtProtocolState → Bool
is_in_overlay_phase p = elim p.protocol_phase [
  | CtProtocolPhase.shuffle ↦ true
  | CtProtocolPhase.echo ↦ true
  | _ ↦ false
]

abbrev pub is_in_aggregate_phase : CtProtocolState → Bool
is_in_aggregate_phase p = elim p.protocol_phase [ CtProtocolPhase.aggregate ↦ true | _ ↦ false ]

-- The rounds that the shuffle and the echo take.
abbrev pub phase_rounds : Environment → State → ℕ
phase_rounds env s = env.failures_tolerated + 2 * s.log2n + 1

-- `handle_shuffle_phase_message` and `handle_echo_phase_message`, which do the same. A null pointer is
-- dereferenced if there is no contribution.
unfoldable pub handle_value : State → MessageBody → Outcome State
handle_value s (MessageBody.value_contribution contribution) = elim s.my_contribution [
  | none ↦ undefined
  | some mine ↦
      if contribution.value.query_num == mine.query_num
      then ok (record s { proxy_values = emplace_value contribution s.proxy_values })
      else ok s
]
handle_value s _ = ok s

unfoldable pub handle_content : State → Content → Outcome State
unfolding handle_value
handle_content s no_payload = ok s
handle_content s not_here = ok s
handle_content s (next_layer body) =
    ok (record s { waiting_messages = s.waiting_messages ++ body ∷ [] })
handle_content s (payload body) = if is_in_overlay_phase s.impl then handle_value s body else ok s

unfoldable pub handle_overlay_message_impl :
    (State → Outcome State) → State → Transport → Outcome State
unfolding handle_content
handle_overlay_message_impl end_overlay_round s message = do
  s₁ ← handle_content s (content s.meter_id message.body)
  elim (message.is_final_message && is_in_overlay_phase s₁.impl) [
    | true ↦ end_overlay_round s₁
    | false ↦ ok s₁
  ]

unfoldable pub send_aggregate_if_done : State → Outcome State
send_aggregate_if_done s = elim s.aggregation_phase_state [
  | none ↦ undefined
  | some aggregation ↦
      if done_receiving_from_children aggregation
      then (do
        (aggregation', parent, sum) ← compute_and_send_aggregate aggregation s.proxy_values
        ok (
            noted (send_aggregate sum parent) (record s {
              aggregation_phase_state = some aggregation';
              impl = record s.impl { protocol_phase = CtProtocolPhase.idle };
            })))
      else ok s
]

-- The messages that echo the values to their other proxies. A meter without a contribution has none.
unfoldable pub echoes : Environment → State → List ValueContribution → Outcome (List MessageBody)
echoes env s [] = ok []
echoes env s (v ∷ rest) = elim (get_current_query_num s) [
  | none ↦ undefined
  | some query_num ↦ do
    first ←
        multicast env.crypto env.order query_num s.meter_id s.num_meters s.next_round
          v.value.proxies (MessageBody.value_contribution v)
    later ← echoes env s rest
    ok (first ++ later)
]

unfoldable pub end_overlay_round_impl :
    Environment → (State → Outcome State) → State → Outcome State
unfolding echoes
end_overlay_round_impl env start_aggregate_phase s = elim s.impl.protocol_phase [
  | CtProtocolPhase.shuffle ↦
      if leb (phase_rounds env s + 1) s.next_round
      then (do
        messages ← echoes env s s.proxy_values
        ok (record s {
          outgoing_messages = s.outgoing_messages ++ messages;
          impl = record {
            echo_start_round = s.next_round - 1;
            protocol_phase = CtProtocolPhase.echo;
          };
        }))
      else ok s
  | CtProtocolPhase.echo ↦
      if leb (s.impl.echo_start_round + phase_rounds env s + 1) s.next_round
      then start_aggregate_phase
          (record s { impl = record s.impl { protocol_phase = CtProtocolPhase.aggregate } })
      else ok s
  | _ ↦ ok s
]

unfoldable pub subclass : Environment → Subclass CtProtocolState
unfolding handle_overlay_message_impl send_aggregate_if_done end_overlay_round_impl
subclass env = record {
  is_in_overlay_phase = is_in_overlay_phase;
  is_in_aggregate_phase = is_in_aggregate_phase;
  send_aggregate_if_done = send_aggregate_if_done;
  handle_overlay_message_impl = handle_overlay_message_impl;
  end_overlay_round_impl = end_overlay_round_impl env;
}

unfoldable pub start_query :
    (env : Environment)
    → ℕ
    → State
    → env.uniform.Engine
    → QueryRequest
    → List ℕ
    → Outcome (State × env.uniform.Engine)
unfolding subclass
start_query env fuel s engine query contributed_data = do
  (s₁, engine') ← Start.prepare_query env s engine query contributed_data
  elim s₁.my_contribution [
    | none ↦ undefined
    | some mine ↦ do
      s₂ ←
          Start.encrypted_multicast_to_proxies env (subclass env) fuel
            (record s₁ {
              impl = record { echo_start_round = 0; protocol_phase = CtProtocolPhase.shuffle };
            })
            (record { value = mine; signature = replicate 256 0 })
      ok (s₂, engine')
  ]

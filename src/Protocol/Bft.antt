-- ===== src/Protocol/Bft.antt =====
-- BftProtocolState.h and .cpp: the Byzantine protocol, in which the utility signs the values and the
-- proxies agree on them.
pub mod Signed
pub mod Rounds
pub mod Returns
use pddm.Prelude.{
  ℕ, zero, suc, ◌+◌, ◌-◌, ◌*◌, leb, ◌==◌, if◌then◌else◌, Bool, true, false, not, ◌&&◌, Option, none,
  some, List, [], ◌∷◌, ◌++◌,
}
use pddm.Messages.{ValueTuple, ValueContribution, QueryRequest}
use pddm.Messages.Outcome.{Outcome, ok, undefined, ◌>>=◌}
use pddm.Messages.Body.{MessageBody}
use pddm.Messages.Multicast.{multicast}
use pddm.Aggregation.{done_receiving_from_children, compute_and_send_aggregate}
use pddm.Agreement
use pddm.Agreement.{CrusaderAgreementState, finish_phase_1, finish_phase_2}
use pddm.Protocol.{
  Transport, Environment, ProtocolState, send_aggregate, send_signature_request, noted,
  emplace_value, get_current_query_num,
}
use pddm.Protocol.Content.{Content, no_payload, not_here, next_layer, payload, content}
use pddm.Protocol.Start
use pddm.Protocol.Round.{Subclass}

pub data BftProtocolPhase : Type 0 where
  idle setup shuffle agreement aggregate : BftProtocolPhase

pub record BftProtocolState : Type 0 where
  pub protocol_phase : BftProtocolPhase
  pub agreement_phase_state : Option CrusaderAgreementState
  pub agreement_start_round : ℕ
  pub accepted_proxy_values : List ValueContribution

abbrev pub State : Type 0
State = ProtocolState BftProtocolState

abbrev pub is_in_overlay_phase : BftProtocolState → Bool
is_in_overlay_phase p = elim p.protocol_phase [
  | BftProtocolPhase.shuffle ↦ true
  | BftProtocolPhase.agreement ↦ true
  | _ ↦ false
]

abbrev pub is_in_aggregate_phase : BftProtocolState → Bool
is_in_aggregate_phase p = elim p.protocol_phase [ BftProtocolPhase.aggregate ↦ true | _ ↦ false ]

-- The rounds that the shuffle takes, and each phase of the agreement.
abbrev pub phase_rounds : Environment → State → ℕ
phase_rounds env s = 2 * env.failures_tolerated + s.log2n * s.log2n + 1

-- The state after `start_query_impl`, and the request for the utility's signature.
unfoldable pub start_query_impl : Environment → State → QueryRequest → Outcome State
start_query_impl env s query = elim s.my_contribution [
  | none ↦ undefined
  | some mine ↦ ok (
      noted (send_signature_request (env.crypto.encrypt_value mine s.meter_id)) (record s {
        impl = record s.impl {
          protocol_phase = BftProtocolPhase.setup;
          accepted_proxy_values = [];
          agreement_phase_state =
              some (Agreement.new_state s.meter_id s.num_meters query.query_number);
        };
      }))
]

-- `ProtocolState::start_query`, with this subclass.
unfoldable pub start_query :
    (env : Environment)
    → State
    → env.uniform.Engine
    → QueryRequest
    → List ℕ
    → Outcome (State × env.uniform.Engine)
unfolding start_query_impl
start_query env s engine query contributed_data = do
  (s₁, engine') ← Start.prepare_query env s engine query contributed_data
  s₂ ← start_query_impl env s₁ query
  ok (s₂, engine')

unfoldable pub handle_shuffle_phase_message : Environment → State → MessageBody → Outcome State
handle_shuffle_phase_message env s (MessageBody.value_contribution contribution) =
    elim s.my_contribution [
      | none ↦ undefined
      | some mine ↦
          if contribution.value.query_num == mine.query_num
            && env.crypto.verify_by_utility contribution.value contribution.signature
          then ok (record s { proxy_values = emplace_value contribution s.proxy_values })
          else ok s
    ]
handle_shuffle_phase_message env s _ = ok s

unfoldable pub handle_agreement_phase_message : Environment → State → MessageBody → Outcome State
handle_agreement_phase_message env s body = elim s.impl.agreement_phase_state [
  | none ↦ undefined
  | some agreed ↦ ok (record s {
    impl = record s.impl {
      agreement_phase_state = some (Agreement.handle_message env.crypto agreed body);
    };
  })
]

-- The payload of a message that is for this meter, by the phase.
unfoldable pub handle_payload : Environment → State → MessageBody → Outcome State
unfolding handle_shuffle_phase_message handle_agreement_phase_message
handle_payload env s body = elim s.impl.protocol_phase [
  | BftProtocolPhase.shuffle ↦ handle_shuffle_phase_message env s body
  | BftProtocolPhase.agreement ↦ handle_agreement_phase_message env s body
  | _ ↦ ok s
]

unfoldable pub handle_content : Environment → State → Content → Outcome State
unfolding handle_payload
handle_content env s no_payload = ok s
handle_content env s not_here = ok s
handle_content env s (next_layer body) =
    ok (record s { waiting_messages = s.waiting_messages ++ body ∷ [] })
handle_content env s (payload body) = handle_payload env s body

unfoldable pub handle_overlay_message_impl :
    Environment → (State → Outcome State) → State → Transport → Outcome State
unfolding handle_content
handle_overlay_message_impl env end_overlay_round s message = do
  s₁ ← handle_content env s (content s.meter_id message.body)
  elim (message.is_final_message && is_in_overlay_phase s₁.impl) [
    | true ↦ end_overlay_round s₁
    | false ↦ ok s₁
  ]

unfoldable pub send_aggregate_if_done : State → Outcome State
send_aggregate_if_done s = elim s.aggregation_phase_state [
  | none ↦ undefined
  | some aggregation ↦
      if done_receiving_from_children aggregation
      then (do
        (aggregation', parent, sum) ←
            compute_and_send_aggregate aggregation s.impl.accepted_proxy_values
        ok (
            noted (send_aggregate sum parent) (record s {
              aggregation_phase_state = some aggregation';
              impl = record s.impl { protocol_phase = BftProtocolPhase.idle };
            })))
      else ok s
]

-- The messages that send each value, signed by this meter, to its other proxies. A meter without a
-- contribution has no values.
unfoldable pub signed_values :
    Environment → State → List ValueContribution → Outcome (List MessageBody)
signed_values env s [] = ok []
signed_values env s (v ∷ rest) = elim (get_current_query_num s) [
  | none ↦ undefined
  | some query_num ↦ do
    first ←
        multicast env.crypto env.order query_num s.meter_id s.num_meters s.next_round
          v.value.proxies
          (MessageBody.signed_value
            (record { value = v; signatures = (s.meter_id, env.crypto.sign_contribution v) ∷ [] }))
    later ← signed_values env s rest
    ok (first ++ later)
]

-- The end of a phase of the agreement, with the agreement's state.
unfoldable pub end_agreement_round :
    Environment → (State → Outcome State) → State → CrusaderAgreementState → Outcome State
end_agreement_round env start_aggregate_phase s agreed =
    let start = s.impl.agreement_start_round in
    if leb (start + 2 * phase_rounds env s + 1) s.next_round && agreed.phase_1_finished
    then start_aggregate_phase (record s {
      impl = record s.impl {
        accepted_proxy_values = finish_phase_2 agreed;
        protocol_phase = BftProtocolPhase.aggregate;
      };
    })
    else if leb (start + phase_rounds env s + 1) s.next_round && not agreed.phase_1_finished
    then (do
      (agreed', messages) ← finish_phase_1 env.crypto env.order agreed (s.next_round - 1)
      ok (record s {
        outgoing_messages = s.outgoing_messages ++ messages;
        impl = record s.impl { agreement_phase_state = some agreed' };
      }))
    else ok s

-- The end of a round of the shuffle: after the last one, the signed values go out.
unfoldable pub end_shuffle_round : Environment → State → Outcome State
unfolding signed_values
end_shuffle_round env s =
    if leb (phase_rounds env s + 1) s.next_round
    then (do
      messages ← signed_values env s s.proxy_values
      ok (record s {
        outgoing_messages = s.outgoing_messages ++ messages;
        impl = record s.impl {
          agreement_start_round = s.next_round - 1;
          protocol_phase = BftProtocolPhase.agreement;
        };
      }))
    else ok s

-- The end of a round of the agreement. Without a state, the source reads a null pointer as soon as the
-- first of the rounds that it compares with is reached.
unfoldable pub end_agreement_phase : Environment → (State → Outcome State) → State → Outcome State
unfolding end_agreement_round
end_agreement_phase env start_aggregate_phase s = elim s.impl.agreement_phase_state [
  | none ↦
      if leb (s.impl.agreement_start_round + phase_rounds env s + 1) s.next_round
      then undefined
      else ok s
  | some agreed ↦ end_agreement_round env start_aggregate_phase s agreed
]

unfoldable pub end_overlay_round_impl :
    Environment → (State → Outcome State) → State → Outcome State
unfolding end_shuffle_round end_agreement_phase
end_overlay_round_impl env start_aggregate_phase s = elim s.impl.protocol_phase [
  | BftProtocolPhase.shuffle ↦ end_shuffle_round env s
  | BftProtocolPhase.agreement ↦ end_agreement_phase env start_aggregate_phase s
  | _ ↦ ok s
]

unfoldable pub subclass : Environment → Subclass BftProtocolState
unfolding handle_overlay_message_impl send_aggregate_if_done end_overlay_round_impl
subclass env = record {
  is_in_overlay_phase = is_in_overlay_phase;
  is_in_aggregate_phase = is_in_aggregate_phase;
  send_aggregate_if_done = send_aggregate_if_done;
  handle_overlay_message_impl = handle_overlay_message_impl env;
  end_overlay_round_impl = end_overlay_round_impl env;
}

-- `answer` is the ciphertext in the utility's response.
unfoldable pub handle_signature_response : Environment → ℕ → State → List ℕ → Outcome State
unfolding subclass
handle_signature_response env fuel s answer = elim s.my_contribution [
  | none ↦ undefined
  | some mine ↦
      Start.encrypted_multicast_to_proxies env (subclass env) fuel
        (record s { impl = record s.impl { protocol_phase = BftProtocolPhase.shuffle } })
        (record { value = mine; signature = env.crypto.decrypt_signature answer })
]

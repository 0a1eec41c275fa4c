-- ===== src/Protocol/Hft/Returns/Handlers.antt =====
-- The rounds left by HftProtocolState.cpp, over its handlers.
use pddm.Prelude.{ℕ, ◌+◌, if◌then◌else◌, Bool, true, false, ◌&&◌, Option, none, some, [], ◌==◌}
use pddm.Messages.{ValueTuple}
use pddm.Messages.Outcome.{Outcome, ok, undefined, ◌>>=◌}
use pddm.Messages.Ends.{Ends, Any, bind-Ends, if-Ends}
use pddm.Messages.Body.{MessageBody}
use pddm.Aggregation.{
  TreeAggregationState, done_receiving_from_children, compute_and_send_aggregate,
}
use pddm.Aggregation.Ends.{compute_and_send_aggregate-Ends}
use pddm.Protocol.{Transport, Environment, send_aggregate, noted, emplace_value}
use pddm.Protocol.Returns.Stages.{Stage, outside, staged}
use pddm.Protocol.Returns.Bounds.{Within, After}
use pddm.Protocol.Hft.{
  HftProtocolPhase, HftProtocolState, MessageSets, State, is_in_overlay_phase, flood_on,
  handle_scatter_phase_message, handle_gather_phase_message, handle_payload, handle_destined,
  handle_opened, handle_overlay_message_impl, send_aggregate_if_done,
}

-- The scatter and the gather are two stages.
abbrev pub stage : HftProtocolState → Stage
stage p = elim p.protocol_phase [
  | HftProtocolPhase.scatter ↦ Stage.first
  | HftProtocolPhase.gather ↦ Stage.second
  | _ ↦ outside
]

module _ (env : Environment) where
  abbrev pub rounds_left : ℕ → ℕ → HftProtocolState → Option ℕ
  rounds_left = staged (λ log2n. log2n + env.failures_tolerated) stage (λ p. p.gather_start_round)

  abbrev pub InTime : ℕ → State → Type 0
  InTime = Within rounds_left

  abbrev pub Next : ℕ → State → Type 0
  Next = After rounds_left

  scatter-InTime :
      (b : ℕ) (sets : MessageSets) (body : MessageBody) (s : State)
      → InTime b s
      → InTime b (handle_scatter_phase_message sets s body)
  unfolding handle_scatter_phase_message
  scatter-InTime b sets MessageBody.null s h = h
  scatter-InTime b sets (MessageBody.string_body x) s h = h
  scatter-InTime b sets (MessageBody.value_contribution x) s h = h
  scatter-InTime b sets (MessageBody.signed_value x) s h = h
  scatter-InTime b sets (MessageBody.agreement_value x) s h = h
  scatter-InTime b sets (MessageBody.overlay x y z w m) s h = h
  scatter-InTime b sets (MessageBody.path_overlay x y z w r m) s h = h

  gather-Ends :
      (b : ℕ) (body : MessageBody) (s : State)
      → InTime b s
      → Ends (InTime b) (handle_gather_phase_message s body)
  unfolding handle_gather_phase_message
  gather-Ends b (MessageBody.value_contribution v) s h = go s.my_contribution
    where
      go :
          (c : Option ValueTuple)
          → Ends (InTime b) (elim c [
            | none ↦ undefined
            | some mine ↦
                if v.value.query_num == mine.query_num
                then ok (record s { proxy_values = emplace_value v s.proxy_values })
                else ok s
          ])
      go none = tt
      go (some mine) = if-Ends (InTime b) (v.value.query_num == mine.query_num) _ _ h h
  gather-Ends b MessageBody.null s h = h
  gather-Ends b (MessageBody.string_body x) s h = h
  gather-Ends b (MessageBody.signed_value x) s h = h
  gather-Ends b (MessageBody.agreement_value x) s h = h
  gather-Ends b (MessageBody.overlay x y z w m) s h = h
  gather-Ends b (MessageBody.path_overlay x y z w r m) s h = h

  payload-Ends :
      (b : ℕ) (sets : MessageSets) (body : MessageBody) (s : State)
      → InTime b s
      → Ends (InTime b) (handle_payload sets s body)
  unfolding handle_payload
  payload-Ends b sets body s h = go s.impl.protocol_phase
    where
      go :
          (p : HftProtocolPhase)
          → Ends (InTime b) (elim p [
            | HftProtocolPhase.scatter ↦ ok (handle_scatter_phase_message sets s body)
            | HftProtocolPhase.gather ↦ handle_gather_phase_message s body
            | _ ↦ ok s
          ])
      go HftProtocolPhase.idle = h
      go HftProtocolPhase.scatter = scatter-InTime b sets body s h
      go HftProtocolPhase.gather = gather-Ends b body s h
      go HftProtocolPhase.aggregate = h

  module _ (b : ℕ) (sets : MessageSets) (message : MessageBody) (destination : ℕ) (s : State)
      (h : InTime b s) where
    -- With a payload.
    present :
        (body : MessageBody)
        → Ends (InTime b) (
            if destination == s.meter_id
            then handle_payload sets s body
            else ok (flood_on sets message s))
    present body =
        if-Ends (InTime b) (destination == s.meter_id) _ _ (payload-Ends b sets body s h) h

    destined-Ends :
        (body : MessageBody) → Ends (InTime b) (handle_destined sets s message destination body)
    unfolding handle_destined
    destined-Ends MessageBody.null = h
    destined-Ends (MessageBody.string_body x) = present (MessageBody.string_body x)
    destined-Ends (MessageBody.value_contribution x) = present (MessageBody.value_contribution x)
    destined-Ends (MessageBody.signed_value x) = present (MessageBody.signed_value x)
    destined-Ends (MessageBody.agreement_value x) = present (MessageBody.agreement_value x)
    destined-Ends (MessageBody.overlay x y z w m) = present (MessageBody.overlay x y z w m)
    destined-Ends (MessageBody.path_overlay x y z w r m) =
        present (MessageBody.path_overlay x y z w r m)

  opened-Ends :
      (b : ℕ) (sets : MessageSets) (message : MessageBody) (s : State)
      → InTime b s
      → Ends (InTime b) (handle_opened sets s message)
  unfolding handle_opened
  opened-Ends b sets MessageBody.null s h = tt
  opened-Ends b sets (MessageBody.string_body x) s h = tt
  opened-Ends b sets (MessageBody.value_contribution x) s h = tt
  opened-Ends b sets (MessageBody.signed_value x) s h = tt
  opened-Ends b sets (MessageBody.agreement_value x) s h = tt
  opened-Ends b sets (MessageBody.overlay q d e f m) s h = destined-Ends b sets _ d s h m
  opened-Ends b sets (MessageBody.path_overlay q d e f r m) s h = destined-Ends b sets _ d s h m

  pub handle_overlay_message_impl-Ends :
      (sets : MessageSets) (again : State → Outcome State) (b : ℕ)
      → ((s : State) → InTime b s → Ends (InTime b) (again s))
      → (m : Transport) (s : State) → InTime b s
      → Ends (InTime b) (handle_overlay_message_impl sets again s m)
  unfolding handle_overlay_message_impl
  handle_overlay_message_impl-Ends sets again b k m s h =
      bind-Ends (InTime b) (InTime b) (handle_opened sets s m.body) _
        (opened-Ends b sets m.body s h)
        (λ s₁ h'. last_message s₁ (m.is_final_message && is_in_overlay_phase s₁.impl) h')
    where
      last_message :
          (s₁ : State) (final : Bool)
          → InTime b s₁
          → Ends (InTime b) (elim final [ true ↦ again s₁ | false ↦ ok s₁ ])
      last_message s₁ true h' = k s₁ h'
      last_message s₁ false h' = h'

  pub send_aggregate_if_done-Ends : (s : State) → Ends Any (send_aggregate_if_done s)
  unfolding send_aggregate_if_done
  send_aggregate_if_done-Ends s = go s.aggregation_phase_state
    where
      go :
          (a : Option TreeAggregationState)
          → Ends Any (elim a [
            | none ↦ undefined
            | some aggregation ↦
                if done_receiving_from_children aggregation
                then compute_and_send_aggregate aggregation s.proxy_values
                  >>= (λ (aggregation', parent, sum). ok (
                      noted (send_aggregate sum parent) (record s {
                        aggregation_phase_state = some aggregation';
                        impl = record s.impl {
                          protocol_phase = HftProtocolPhase.idle;
                          current_flood_messages = [];
                        };
                      })))
                else ok s
          ])
      go none = tt
      go (some aggregation) =
          if-Ends Any (done_receiving_from_children aggregation) _ _
            (bind-Ends Any Any (compute_and_send_aggregate aggregation s.proxy_values) _
              (compute_and_send_aggregate-Ends aggregation s.proxy_values) (λ r h. tt))
            tt

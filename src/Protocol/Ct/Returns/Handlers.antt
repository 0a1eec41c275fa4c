-- ===== src/Protocol/Ct/Returns/Handlers.antt =====
-- The rounds left by CtProtocolState.cpp, over its handlers.
use pddm.Prelude.{
  ℕ, ◌+◌, ◌*◌, if◌then◌else◌, Bool, true, false, ◌&&◌, Option, none, some, List, [], ◌∷◌, ◌++◌,
  ◌==◌,
}
use pddm.Messages.{ValueTuple, ValueContribution}
use pddm.Messages.Outcome.{Outcome, ok, undefined, ◌>>=◌}
use pddm.Messages.Ends.{Ends, Any, bind-Ends, if-Ends}
use pddm.Messages.Body.{MessageBody}
use pddm.Messages.Multicast.{multicast}
use pddm.Aggregation.{
  TreeAggregationState, done_receiving_from_children, compute_and_send_aggregate,
}
use pddm.Aggregation.Ends.{compute_and_send_aggregate-Ends}
use pddm.Protocol.{
  Transport, Environment, send_aggregate, noted, emplace_value, get_current_query_num,
}
use pddm.Protocol.Content.{Content, no_payload, not_here, next_layer, payload, content}
use pddm.Protocol.Returns.Stages.{Stage, outside, staged}
use pddm.Protocol.Returns.Bounds.{Within, After}
use pddm.Protocol.Returns.Steps.{multicast-Ends}
use pddm.Protocol.Ct.{
  CtProtocolPhase, CtProtocolState, State, is_in_overlay_phase, handle_value, handle_content,
  handle_overlay_message_impl, send_aggregate_if_done, echoes,
}

-- The shuffle and the echo are two stages.
abbrev pub stage : CtProtocolState → Stage
stage p = elim p.protocol_phase [
  | CtProtocolPhase.shuffle ↦ Stage.first
  | CtProtocolPhase.echo ↦ Stage.second
  | _ ↦ outside
]

module _ (env : Environment) where
  abbrev pub rounds_left : ℕ → ℕ → CtProtocolState → Option ℕ
  rounds_left =
      staged (λ log2n. env.failures_tolerated + 2 * log2n + 1) stage (λ p. p.echo_start_round)

  abbrev pub InTime : ℕ → State → Type 0
  InTime = Within rounds_left

  abbrev pub Next : ℕ → State → Type 0
  Next = After rounds_left

  handle_value-Ends :
      (b : ℕ) (body : MessageBody) (s : State) → InTime b s → Ends (InTime b) (handle_value s body)
  unfolding handle_value
  handle_value-Ends b (MessageBody.value_contribution v) s h = go s.my_contribution
    where
      go :
          (c : Option ValueTuple)
          → Ends (InTime b) (elim c [
            | none ↦ undefined
            | some mine ↦
                if v.value.query_num == mine.query_num
                then ok (record s { proxy_values = emplace_value v s.proxy_values })
                else ok s
          ])
      go none = tt
      go (some mine) = if-Ends (InTime b) (v.value.query_num == mine.query_num) _ _ h h
  handle_value-Ends b MessageBody.null s h = h
  handle_value-Ends b (MessageBody.string_body x) s h = h
  handle_value-Ends b (MessageBody.signed_value x) s h = h
  handle_value-Ends b (MessageBody.agreement_value x) s h = h
  handle_value-Ends b (MessageBody.overlay x y z w m) s h = h
  handle_value-Ends b (MessageBody.path_overlay x y z w r m) s h = h

  handle_content-Ends :
      (b : ℕ) (c : Content) (s : State) → InTime b s → Ends (InTime b) (handle_content s c)
  unfolding handle_content
  handle_content-Ends b no_payload s h = h
  handle_content-Ends b not_here s h = h
  handle_content-Ends b (next_layer body) s h = h
  handle_content-Ends b (payload body) s h =
      if-Ends (InTime b) (is_in_overlay_phase s.impl) _ _ (handle_value-Ends b body s h) h

  pub handle_overlay_message_impl-Ends :
      (again : State → Outcome State) (b : ℕ)
      → ((s : State) → InTime b s → Ends (InTime b) (again s))
      → (m : Transport) (s : State) → InTime b s
      → Ends (InTime b) (handle_overlay_message_impl again s m)
  unfolding handle_overlay_message_impl
  handle_overlay_message_impl-Ends again b k m s h =
      bind-Ends (InTime b) (InTime b) (handle_content s (content s.meter_id m.body)) _
        (handle_content-Ends b (content s.meter_id m.body) s h)
        (λ s₁ h'. last_message s₁ (m.is_final_message && is_in_overlay_phase s₁.impl) h')
    where
      last_message :
          (s₁ : State) (final : Bool)
          → InTime b s₁
          → Ends (InTime b) (elim final [ true ↦ again s₁ | false ↦ ok s₁ ])
      last_message s₁ true h' = k s₁ h'
      last_message s₁ false h' = h'

  pub send_aggregate_if_done-Ends : (s : State) → Ends Any (send_aggregate_if_done s)
  unfolding send_aggregate_if_done
  send_aggregate_if_done-Ends s = go s.aggregation_phase_state
    where
      go :
          (a : Option TreeAggregationState)
          → Ends Any (elim a [
            | none ↦ undefined
            | some aggregation ↦
                if done_receiving_from_children aggregation
                then compute_and_send_aggregate aggregation s.proxy_values
                  >>= (λ (aggregation', parent, sum). ok (
                      noted (send_aggregate sum parent) (record s {
                        aggregation_phase_state = some aggregation';
                        impl = record s.impl { protocol_phase = CtProtocolPhase.idle };
                      })))
                else ok s
          ])
      go none = tt
      go (some aggregation) =
          if-Ends Any (done_receiving_from_children aggregation) _ _
            (bind-Ends Any Any (compute_and_send_aggregate aggregation s.proxy_values) _
              (compute_and_send_aggregate-Ends aggregation s.proxy_values) (λ r h. tt))
            tt

  pub echoes-Ends : (s : State) (values : List ValueContribution) → Ends Any (echoes env s values)
  unfolding echoes
  echoes-Ends s [] = tt
  echoes-Ends s (v ∷ rest) = go (get_current_query_num s) (echoes-Ends s rest)
    where
      go :
          (num : Option ℕ)
          → Ends Any (echoes env s rest)
          → Ends Any (elim num [
            | none ↦ undefined
            | some query_num ↦
                multicast env.crypto env.order query_num s.meter_id s.num_meters s.next_round
                  v.value.proxies
                  (MessageBody.value_contribution v)
                >>= (λ first. echoes env s rest >>= (λ later. ok (first ++ later)))
          ])
      go none h = tt
      go (some query_num) h =
          bind-Ends Any Any _ _
            (multicast-Ends env.crypto env.order query_num s.meter_id s.num_meters s.next_round
              v.value.proxies _)
            (λ first h'. bind-Ends Any Any (echoes env s rest) _ h (λ later h''. tt))

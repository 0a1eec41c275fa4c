-- ===== src/Protocol/Bft/Returns/Handlers.antt =====
-- The rounds left by BftProtocolState.cpp, over its handlers of messages.
use pddm.Prelude.{
  ℕ, leb, ◌≡◌, refl, ◌⊎◌, if◌then◌else◌, Bool, true, false, not, ◌&&◌, Option, none, some, List, [],
  ◌∷◌, ◌==◌,
}
use pddm.Messages.{ValueTuple}
use pddm.Messages.Outcome.{Outcome, ok, undefined, ◌>>=◌}
use pddm.Messages.Ends.{Ends, Any, bind-Ends, if-Ends}
use pddm.Messages.Body.{MessageBody, Crypto}
use pddm.Aggregation.{
  TreeAggregationState, done_receiving_from_children, compute_and_send_aggregate,
}
use pddm.Aggregation.Ends.{compute_and_send_aggregate-Ends}
use pddm.Agreement
use pddm.Agreement.{
  CrusaderAgreementState, handle_phase_1_message, handle_phase_2_message, finish_phase_1,
  finish_phase_2, store, validate,
}
use pddm.Protocol.{Transport, Environment, send_aggregate, noted, emplace_value}
use pddm.Protocol.Content.{Content, no_payload, not_here, next_layer, payload, content}
use pddm.Protocol.Returns.Bounds.{IsLeft, IsLast, Within}
use pddm.Protocol.Bft.Rounds.{is_finished, left_in, rounds_left}
use pddm.Protocol.Bft.{
  BftProtocolPhase, State, is_in_overlay_phase, phase_rounds, handle_shuffle_phase_message,
  handle_agreement_phase_message, handle_payload, handle_content, handle_overlay_message_impl,
  send_aggregate_if_done,
}

abbrev flag : CrusaderAgreementState → Bool
flag s = s.phase_1_finished

either-finished :
    (f b : Bool) (x y : CrusaderAgreementState)
    → x.phase_1_finished ≡ f
    → y.phase_1_finished ≡ f
    → (if b then x else y).phase_1_finished ≡ f
either-finished f true x y h h' = h
either-finished f false x y h h' = h'

handle_message-finished :
    (crypto : Crypto) (s : CrusaderAgreementState) (body : MessageBody)
    → (Agreement.handle_message crypto s body).phase_1_finished ≡ s.phase_1_finished
unfolding Agreement.handle_message handle_phase_1_message handle_phase_2_message
handle_message-finished crypto s (MessageBody.signed_value v) = go v.signatures
  where
    go :
        (signatures : List (ℕ × List ℕ))
        → flag (elim signatures [
          | [] ↦ s
          | (id, sig) ∷ rest ↦
              if not (crypto.verify_contribution v.value sig id)
              then s
              else record s { signed_proxy_values = store v ((id, sig) ∷ []) s.signed_proxy_values }
        ])
          ≡ s.phase_1_finished
    go [] = refl
    go ((id, sig) ∷ rest) =
        either-finished s.phase_1_finished (not (crypto.verify_contribution v.value sig id)) s _
          refl refl
handle_message-finished crypto s (MessageBody.agreement_value v) =
    either-finished s.phase_1_finished _ s _ refl
      (either-finished s.phase_1_finished (leb s.log2n _) _ s refl refl)
handle_message-finished crypto s MessageBody.null = refl
handle_message-finished crypto s (MessageBody.string_body x) = refl
handle_message-finished crypto s (MessageBody.value_contribution x) = refl
handle_message-finished crypto s (MessageBody.overlay x y z w b) = refl
handle_message-finished crypto s (MessageBody.path_overlay x y z w r b) = refl

module _ (env : Environment) where
  -- The last round is over, or the rounds left are within a bound.
  abbrev pub InTime : ℕ → State → Type 0
  InTime = Within (rounds_left env)

  shuffle_message-Ends :
      (b : ℕ) (body : MessageBody) (s : State)
      → InTime b s
      → Ends (InTime b) (handle_shuffle_phase_message env s body)
  unfolding handle_shuffle_phase_message
  shuffle_message-Ends b (MessageBody.value_contribution v) s h = go s.my_contribution
    where
      go :
          (c : Option ValueTuple)
          → Ends (InTime b) (elim c [
            | none ↦ undefined
            | some mine ↦
                if v.value.query_num == mine.query_num
                  && env.crypto.verify_by_utility v.value v.signature
                then ok (record s { proxy_values = emplace_value v s.proxy_values })
                else ok s
          ])
      go none = tt
      go (some mine) =
          if-Ends (InTime b)
            (v.value.query_num == mine.query_num
              && env.crypto.verify_by_utility v.value v.signature)
            _ _ h h
  shuffle_message-Ends b MessageBody.null s h = h
  shuffle_message-Ends b (MessageBody.string_body x) s h = h
  shuffle_message-Ends b (MessageBody.signed_value x) s h = h
  shuffle_message-Ends b (MessageBody.agreement_value x) s h = h
  shuffle_message-Ends b (MessageBody.overlay x y z w m) s h = h
  shuffle_message-Ends b (MessageBody.path_overlay x y z w r m) s h = h

  agreement_message-Ends :
      (b : ℕ) (body : MessageBody) (s : State)
      → InTime b s
      → Ends (InTime b) (handle_agreement_phase_message env s body)
  unfolding handle_agreement_phase_message
  agreement_message-Ends b body s h = go s.impl.agreement_phase_state refl
    where
      go :
          (a : Option CrusaderAgreementState)
          → s.impl.agreement_phase_state ≡ a
          → Ends (InTime b) (elim a [
            | none ↦ undefined
            | some agreed ↦ ok (record s {
              impl = record s.impl {
                agreement_phase_state = some (Agreement.handle_message env.crypto agreed body);
              };
            })
          ])
      go none e = tt
      go (some agreed) e =
          let same = handle_message-finished env.crypto agreed body in
          let h' : IsLast (rounds_left env) s
              ⊎ IsLeft b (
                  left_in (phase_rounds env s) s.impl.protocol_phase s.impl.agreement_start_round
                    (is_finished (some agreed)) s.next_round) =
            rw e at h in
          rw same h'

  payload-Ends :
      (b : ℕ) (body : MessageBody) (s : State)
      → InTime b s
      → Ends (InTime b) (handle_payload env s body)
  unfolding handle_payload
  payload-Ends b body s h = go s.impl.protocol_phase
    where
      go :
          (p : BftProtocolPhase)
          → Ends (InTime b) (elim p [
            | BftProtocolPhase.shuffle ↦ handle_shuffle_phase_message env s body
            | BftProtocolPhase.agreement ↦ handle_agreement_phase_message env s body
            | _ ↦ ok s
          ])
      go BftProtocolPhase.idle = h
      go BftProtocolPhase.setup = h
      go BftProtocolPhase.shuffle = shuffle_message-Ends b body s h
      go BftProtocolPhase.agreement = agreement_message-Ends b body s h
      go BftProtocolPhase.aggregate = h

  content-Ends :
      (b : ℕ) (c : Content) (s : State) → InTime b s → Ends (InTime b) (handle_content env s c)
  unfolding handle_content
  content-Ends b no_payload s h = h
  content-Ends b not_here s h = h
  content-Ends b (next_layer body) s h = h
  content-Ends b (payload body) s h = payload-Ends b body s h

  pub handle_overlay_message_impl-Ends :
      (again : State → Outcome State) (b : ℕ)
      → ((s : State) → InTime b s → Ends (InTime b) (again s))
      → (m : Transport) (s : State) → InTime b s
      → Ends (InTime b) (handle_overlay_message_impl env again s m)
  unfolding handle_overlay_message_impl
  handle_overlay_message_impl-Ends again b k m s h =
      bind-Ends (InTime b) (InTime b) (handle_content env s (content s.meter_id m.body)) _
        (content-Ends b (content s.meter_id m.body) s h)
        (λ s₁ h'. last_message s₁ (m.is_final_message && is_in_overlay_phase s₁.impl) h')
    where
      last_message :
          (s₁ : State) (final : Bool)
          → InTime b s₁
          → Ends (InTime b) (elim final [ true ↦ again s₁ | false ↦ ok s₁ ])
      last_message s₁ true h' = k s₁ h'
      last_message s₁ false h' = h'

  pub send_aggregate_if_done-Ends : (s : State) → Ends Any (send_aggregate_if_done s)
  unfolding send_aggregate_if_done
  send_aggregate_if_done-Ends s = go s.aggregation_phase_state
    where
      go :
          (a : Option TreeAggregationState)
          → Ends Any (elim a [
            | none ↦ undefined
            | some aggregation ↦
                if done_receiving_from_children aggregation
                then compute_and_send_aggregate aggregation s.impl.accepted_proxy_values
                  >>= (λ (aggregation', parent, sum). ok (
                      noted (send_aggregate sum parent) (record s {
                        aggregation_phase_state = some aggregation';
                        impl = record s.impl { protocol_phase = BftProtocolPhase.idle };
                      })))
                else ok s
          ])
      go none = tt
      go (some aggregation) =
          if-Ends Any (done_receiving_from_children aggregation) _ _
            (bind-Ends Any Any (compute_and_send_aggregate aggregation s.impl.accepted_proxy_values)
              _ (compute_and_send_aggregate-Ends aggregation s.impl.accepted_proxy_values)
              (λ r h. tt))
            tt

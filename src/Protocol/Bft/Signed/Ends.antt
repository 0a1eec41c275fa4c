-- ===== src/Protocol/Bft/Signed/Ends.antt =====
-- The signatures of the proxy values, over the ends of rounds of BftProtocolState.cpp.
use pddm.Prelude.{◌+◌, ◌-◌, ◌≡◌, if◌then◌else◌, Bool, true, false, Option, none, some, ◌++◌, leb}
use pddm.Messages.Outcome.{Outcome, ok, undefined, ◌>>=◌, both_return}
use pddm.Aggregation.{
  TreeAggregationState, done_receiving_from_children, compute_and_send_aggregate,
}
use pddm.Agreement.{CrusaderAgreementState, finish_phase_1, finish_phase_2}
use pddm.Protocol.{Environment, send_aggregate, noted}
use pddm.Protocol.Keeps.Defs.{Holds, Keeps, ok-Holds}
use pddm.Protocol.Bft.{
  BftProtocolPhase, State, phase_rounds, send_aggregate_if_done, signed_values, end_agreement_round,
  end_shuffle_round, end_agreement_phase, end_overlay_round_impl,
}
use pddm.Protocol.Bft.Signed.Handlers.{AreSigned}

module _ (env : Environment) where
  pub aggregates-Keeps : Keeps (AreSigned env) send_aggregate_if_done
  unfolding send_aggregate_if_done
  aggregates-Keeps s s' e h = go s.aggregation_phase_state e
    where
      sends :
          (aggregation : TreeAggregationState) (b : Bool)
          → (if b
              then compute_and_send_aggregate aggregation s.impl.accepted_proxy_values
                >>= (λ (aggregation', parent, sum). ok (
                    noted (send_aggregate sum parent) (record s {
                      aggregation_phase_state = some aggregation';
                      impl = record s.impl { protocol_phase = BftProtocolPhase.idle };
                    })))
              else ok s)
            ≡ ok s'
          → Holds (AreSigned env) s'
      sends aggregation true e =
          let (_, _, later) =
            both_return (compute_and_send_aggregate aggregation s.impl.accepted_proxy_values) _ e in
          ok-Holds (AreSigned env) _ s' later h
      sends aggregation false e = ok-Holds (AreSigned env) s s' e h

      go :
          (a : Option TreeAggregationState)
          → (elim a [
            | none ↦ undefined
            | some aggregation ↦
                if done_receiving_from_children aggregation
                then compute_and_send_aggregate aggregation s.impl.accepted_proxy_values
                  >>= (λ (aggregation', parent, sum). ok (
                      noted (send_aggregate sum parent) (record s {
                        aggregation_phase_state = some aggregation';
                        impl = record s.impl { protocol_phase = BftProtocolPhase.idle };
                      })))
                else ok s
          ])
            ≡ ok s'
          → Holds (AreSigned env) s'
      go none e = cc
      go (some aggregation) e = sends aggregation _ e

  agreement_end-Keeps :
      (start : State → Outcome State)
      → Keeps (AreSigned env) start
      → (agreed : CrusaderAgreementState)
      → Keeps (AreSigned env) (λ s. end_agreement_round env start s agreed)
  unfolding end_agreement_round
  agreement_end-Keeps start k agreed s s' e h = go _ _ e
    where
      accepted : State
      accepted = record s {
        impl = record s.impl {
          accepted_proxy_values = finish_phase_2 agreed;
          protocol_phase = BftProtocolPhase.aggregate;
        };
      }

      go :
          (b c : Bool)
          → (if b
              then start accepted
              else if c
              then finish_phase_1 env.crypto env.order agreed (s.next_round - 1)
                >>= (λ (agreed', messages). ok (record s {
                  outgoing_messages = s.outgoing_messages ++ messages;
                  impl = record s.impl { agreement_phase_state = some agreed' };
                }))
              else ok s)
            ≡ ok s'
          → Holds (AreSigned env) s'
      go true c e = k accepted s' e h
      go false true e =
          let (_, _, later) =
            both_return (finish_phase_1 env.crypto env.order agreed (s.next_round - 1)) _ e in
          ok-Holds (AreSigned env) _ s' later h
      go false false e = ok-Holds (AreSigned env) s s' e h

  shuffle_end-Keeps : Keeps (AreSigned env) (end_shuffle_round env)
  unfolding end_shuffle_round
  shuffle_end-Keeps s s' e h = go _ e
    where
      go :
          (b : Bool)
          → (if b
              then signed_values env s s.proxy_values >>= (λ messages. ok (record s {
                outgoing_messages = s.outgoing_messages ++ messages;
                impl = record s.impl {
                  agreement_start_round = s.next_round - 1;
                  protocol_phase = BftProtocolPhase.agreement;
                };
              }))
              else ok s)
            ≡ ok s'
          → Holds (AreSigned env) s'
      go true e =
          let (_, _, later) = both_return (signed_values env s s.proxy_values) _ e in
          ok-Holds (AreSigned env) _ s' later h
      go false e = ok-Holds (AreSigned env) s s' e h

  agreement_phase-Keeps :
      (start : State → Outcome State)
      → Keeps (AreSigned env) start
      → Keeps (AreSigned env) (end_agreement_phase env start)
  unfolding end_agreement_phase
  agreement_phase-Keeps start k s s' e h = go s.impl.agreement_phase_state e
    where
      without : (b : Bool) → (if b then undefined else ok s) ≡ ok s' → Holds (AreSigned env) s'
      without true e = cc
      without false e = ok-Holds (AreSigned env) s s' e h

      go :
          (a : Option CrusaderAgreementState)
          → (elim a [
            | none ↦
                if leb (s.impl.agreement_start_round + phase_rounds env s + 1) s.next_round
                then undefined
                else ok s
            | some agreed ↦ end_agreement_round env start s agreed
          ])
            ≡ ok s'
          → Holds (AreSigned env) s'
      go none e = without _ e
      go (some agreed) e = agreement_end-Keeps start k agreed s s' e h

  pub ends-Keeps :
      (start : State → Outcome State)
      → Keeps (AreSigned env) start
      → Keeps (AreSigned env) (end_overlay_round_impl env start)
  unfolding end_overlay_round_impl
  ends-Keeps start k s s' e h = go s.impl.protocol_phase e
    where
      go :
          (p : BftProtocolPhase)
          → (elim p [
            | BftProtocolPhase.shuffle ↦ end_shuffle_round env s
            | BftProtocolPhase.agreement ↦ end_agreement_phase env start s
            | _ ↦ ok s
          ])
            ≡ ok s'
          → Holds (AreSigned env) s'
      go BftProtocolPhase.idle e = ok-Holds (AreSigned env) s s' e h
      go BftProtocolPhase.setup e = ok-Holds (AreSigned env) s s' e h
      go BftProtocolPhase.shuffle e = shuffle_end-Keeps s s' e h
      go BftProtocolPhase.agreement e = agreement_phase-Keeps start k s s' e h
      go BftProtocolPhase.aggregate e = ok-Holds (AreSigned env) s s' e h

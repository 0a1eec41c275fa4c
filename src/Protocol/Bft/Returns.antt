-- ===== src/Protocol/Bft/Returns.antt =====
-- The ends of the rounds of BftProtocolState.cpp.
pub mod Handlers
pub mod Phases
use pddm.Prelude.{
  ℕ, ◌+◌, ◌-◌, ◌*◌, leb, ◌≤◌, ◌<◌, ◌≡◌, ◌≢◌, refl, ◌⊎◌, inl, inr, arith, if◌then◌else◌, Bool, true,
  false, not, ◌&&◌, Bool-cases, Option, none, some, List, [], ◌∷◌, ◌++◌, length, ltb, ◌==◌, leb→le,
  not_leb→lt, &&-false_right,
}
use pddm.Messages.{ValueTuple, ValueContribution}
use pddm.Messages.Outcome.{Outcome, ok, undefined, out_of_fuel, ◌>>=◌}
use pddm.Messages.Ends.{Ends, Any, Ends-returns, bind-Ends, if-Ends, weaken-Ends}
use pddm.Messages.Body.{MessageBody, Crypto, SignedValue, AgreementValue}
use pddm.Messages.Multicast.{multicast}
use pddm.Aggregation.{
  TreeAggregationState, done_receiving_from_children, compute_and_send_aggregate,
}
use pddm.Aggregation.Ends.{compute_and_send_aggregate-Ends}
use pddm.Agreement
use pddm.Agreement.{
  CrusaderAgreementState, handle_phase_1_message, handle_phase_2_message, finish_phase_1,
  finish_phase_2, store, validate,
}
use pddm.Protocol.{
  Transport, Environment, ProtocolState, send_aggregate, noted, emplace_value,
  get_current_query_num,
}
use pddm.Protocol.Content.{Content, no_payload, not_here, next_layer, payload, content}
use pddm.Protocol.Round.{Subclass, end_overlay_round}
use pddm.Protocol.Returns.{end_overlay_round-Ends, encrypted_multicast_to_proxies-Ends}
use pddm.Protocol.Returns.Bounds.{IsLeft, IsLast, Within, After, IsBounded}
use pddm.Protocol.Start.{encrypted_multicast_to_proxies}
use pddm.Protocol.Returns.Steps.{multicast-Ends, finish_phase_1-Ends}
use pddm.Protocol.Bft.Rounds.{
  IsLess, is_finished, left_in, rounds_left, shuffle_ends, shuffle_goes_on, phase_1_ends,
  phase_1_goes_on, phase_2_goes_on, whole_query,
}
use pddm.Protocol.Bft.{
  BftProtocolPhase, BftProtocolState, State, is_in_overlay_phase, phase_rounds,
  handle_shuffle_phase_message, handle_agreement_phase_message, handle_payload, handle_content,
  handle_overlay_message_impl, send_aggregate_if_done, signed_values, end_agreement_round,
  end_shuffle_round, end_agreement_phase, end_overlay_round_impl, subclass,
  handle_signature_response,
}
use pddm.Protocol.Bft.Returns.Handlers.{
  InTime, handle_overlay_message_impl-Ends, send_aggregate_if_done-Ends,
}
use pddm.Protocol.Bft.Returns.Phases.{end_overlay_round_impl-Ends}

module _ (env : Environment) where
  bounded : IsBounded (rounds_left env) (subclass env)
  unfolding subclass
  bounded = record {
    aggregates = send_aggregate_if_done-Ends env;
    handles = handle_overlay_message_impl-Ends env;
    ends = end_overlay_round_impl-Ends env;
  }

  -- In the Byzantine protocol, while the shuffle or the agreement runs, the end of a round comes to an
  -- end, whatever the buffered messages make it handle and whatever meters are down: the recursion is at
  -- most as deep as there are rounds left, so fuel beyond `rounds_left` never runs out.
  pub end_overlay_round_returns :
      (fuel rounds : ℕ) (s : State)
      → rounds_left env s.log2n s.next_round s.impl ≡ some rounds
      → rounds < fuel
      → end_overlay_round env (subclass env) fuel s ≢ out_of_fuel
  end_overlay_round_returns fuel rounds s e lt = Ends-returns (InTime env rounds) _ (
      end_overlay_round-Ends (rounds_left env) env (subclass env) bounded fuel rounds lt s
        (inr (rw e (omega arith))))

  -- In the Byzantine protocol, the utility's response, which starts the overlay of a query, is handled to
  -- an end, whatever the state: fuel beyond three times the rounds of a phase, and three more, never
  -- runs out.
  pub handle_signature_response_returns :
      (fuel : ℕ) (s : State) (answer : List ℕ)
      → 3 * phase_rounds env s + 3 < fuel
      → handle_signature_response env fuel s answer ≢ out_of_fuel
  unfolding handle_signature_response
  handle_signature_response_returns fuel s answer lt =
      Ends-returns (InTime env rounds) _ (go s.my_contribution)
    where
      rounds : ℕ
      rounds = 3 * phase_rounds env s + 3

      started : State
      started = record s { impl = record s.impl { protocol_phase = BftProtocolPhase.shuffle } }

      go :
          (c : Option ValueTuple)
          → Ends (InTime env rounds) (elim c [
            | none ↦ undefined
            | some mine ↦
                encrypted_multicast_to_proxies env
                  (subclass env)
                  fuel
                  started
                  (record { value = mine; signature = env.crypto.decrypt_signature answer })
          ])
      go none = tt
      go (some mine) =
          encrypted_multicast_to_proxies-Ends (rounds_left env) env (subclass env) bounded fuel
            rounds lt started _ (inr (whole_query (phase_rounds env s) s.next_round))

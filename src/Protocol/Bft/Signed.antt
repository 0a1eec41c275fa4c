-- ===== src/Protocol/Bft/Signed.antt =====
-- The proxy values of the Byzantine protocol, over all events of a query.
pub mod Handlers
pub mod Ends
use pddm.Prelude.{
  ℕ, ◌+◌, ◌-◌, ◌==◌, ==_iff, ◌≡◌, refl, if◌then◌else◌, Bool, true, false, not, ◌&&◌, &&-true,
  Bool-cases, inl, inr, Option, none, some, List, [], ◌∷◌, ◌++◌, All, leb,
}
use pddm.Messages.{ValueTuple, ValueContribution}
use pddm.Messages.Outcome.{Outcome, ok, undefined, ◌>>=◌, both_return}
use pddm.Messages.Body.{MessageBody}
use pddm.Aggregation.{
  TreeAggregationState, done_receiving_from_children, compute_and_send_aggregate,
}
use pddm.Agreement
use pddm.Agreement.{CrusaderAgreementState, finish_phase_1, finish_phase_2}
use pddm.Protocol.{
  Transport, Environment, ProtocolState, send_aggregate, noted, emplace_value, has_value,
  get_current_query_num,
}
use pddm.Protocol.Content.{Content, no_payload, not_here, next_layer, payload, content}
use pddm.Protocol.Round.{Subclass}
use pddm.Protocol.Keeps.Defs.{Holds, Keeps, IsKeeping, ok-Holds}
use pddm.Protocol.Events.{Event, run, run-Keeps}
use pddm.Protocol.Bft.{
  BftProtocolPhase, BftProtocolState, State, is_in_overlay_phase, phase_rounds,
  handle_shuffle_phase_message, handle_agreement_phase_message, handle_payload, handle_content,
  handle_overlay_message_impl, send_aggregate_if_done, signed_values, end_agreement_round,
  end_shuffle_round, end_agreement_phase, end_overlay_round_impl, subclass,
}
use pddm.Protocol.Bft.Signed.Handlers.{AreSigned, handles-Keeps}
use pddm.Protocol.Bft.Signed.Ends.{aggregates-Keeps, ends-Keeps}

module _ (env : Environment) where
  pub keeping : IsKeeping (AreSigned env) (subclass env)
  unfolding subclass
  keeping = record {
    aggregates = aggregates-Keeps env;
    handles = handles-Keeps env;
    ends = ends-Keeps env;
  }

  -- In the Byzantine protocol, whatever events come in whatever order, if all of them return: from a
  -- state whose proxy values are signed, as they are when a query starts and there are none, every
  -- value that the meter has as a proxy has the number of its own query and the utility's signature.
  pub proxy_values_signed :
      (fuel : ℕ) (events : List Event) (s s' : State)
      → AreSigned env s.my_contribution s.proxy_values
      → run env (subclass env) fuel events s ≡ ok s'
      → AreSigned env s'.my_contribution s'.proxy_values
  proxy_values_signed fuel events s s' h e =
      run-Keeps env (subclass env) fuel (AreSigned env) keeping events s s' e h

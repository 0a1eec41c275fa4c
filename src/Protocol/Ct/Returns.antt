-- ===== src/Protocol/Ct/Returns.antt =====
-- The ends of the rounds of CtProtocolState.cpp.
pub mod Handlers
use pddm.Prelude.{
  ℕ, suc, ◌+◌, ◌-◌, ◌*◌, leb, leb→le, not_leb→lt, ◌≤◌, ◌<◌, ◌≡◌, ◌≢◌, refl, inl, inr, ◌⊎◌, arith,
  if◌then◌else◌, Bool, true, false, ◌&&◌, Bool-cases, Option, none, some, List, [], ◌∷◌, ◌++◌, ◌==◌,
}
use pddm.Messages.{ValueTuple, ValueContribution}
use pddm.Messages.Outcome.{Outcome, ok, undefined, out_of_fuel, ◌>>=◌}
use pddm.Messages.Ends.{Ends, Any, Ends-returns, bind-Ends, if-Ends, weaken-Ends}
use pddm.Messages.Body.{MessageBody}
use pddm.Messages.Multicast.{multicast}
use pddm.Aggregation.{
  TreeAggregationState, done_receiving_from_children, compute_and_send_aggregate,
}
use pddm.Aggregation.Ends.{compute_and_send_aggregate-Ends}
use pddm.Protocol.{
  Transport, Environment, ProtocolState, send_aggregate, noted, emplace_value,
  get_current_query_num,
}
use pddm.Protocol.Content.{Content, no_payload, not_here, next_layer, payload, content}
use pddm.Protocol.Round.{end_overlay_round}
use pddm.Protocol.Returns.{end_overlay_round-Ends}
use pddm.Protocol.Returns.Stages
use pddm.Protocol.Returns.Stages.{Stage, first_over, first_on, second_on, outside-After}
use pddm.Protocol.Returns.Bounds.{IsLeft, IsLast, Within, After, IsBounded}
use pddm.Protocol.Returns.Steps.{multicast-Ends}
use pddm.Protocol.Ct.{
  CtProtocolPhase, CtProtocolState, State, is_in_overlay_phase, phase_rounds, handle_value,
  handle_content, handle_overlay_message_impl, send_aggregate_if_done, echoes,
  end_overlay_round_impl, subclass,
}
use pddm.Protocol.Ct.Returns.Handlers.{
  stage, rounds_left, InTime, Next, handle_overlay_message_impl-Ends, send_aggregate_if_done-Ends,
  echoes-Ends,
}

module _ (env : Environment) where
  abbrev length_of : ℕ → ℕ
  length_of log2n = env.failures_tolerated + 2 * log2n + 1

  abbrev start_of : CtProtocolState → ℕ
  start_of p = p.echo_start_round

  abbrev Few : ℕ → State → Stage → Type 0
  Few = Stages.Few length_of stage start_of

  end_overlay_round_impl-Ends :
      (start_phase : State → Outcome State)
      → ((s : State) → Ends (IsLast (rounds_left env)) (start_phase s))
      → (b : ℕ) (s : State) → InTime env b s
      → Ends (Next env b) (end_overlay_round_impl env start_phase s)
  unfolding end_overlay_round_impl
  end_overlay_round_impl-Ends start_phase k b s h = go s.impl.protocol_phase refl
    where
      rounds : ℕ
      rounds = phase_rounds env s

      shuffled : State → List MessageBody → State
      shuffled s messages = record s {
        outgoing_messages = s.outgoing_messages ++ messages;
        impl = record {
          echo_start_round = s.next_round - 1;
          protocol_phase = CtProtocolPhase.echo;
        };
      }

      shuffle :
          s.impl.protocol_phase ≡ CtProtocolPhase.shuffle
          → Ends (Next env b) (
              if leb (rounds + 1) s.next_round
              then echoes env s s.proxy_values >>= (λ messages. ok (shuffled s messages))
              else ok s)
      shuffle c =
          let few : Few b s Stage.first = rw c at h in
          elim (Bool-cases (leb (rounds + 1) s.next_round)) [
            | inl over ↦ rw over (
                bind-Ends Any (Next env b) (echoes env s s.proxy_values) _
                  (echoes-Ends env s s.proxy_values)
                  (λ messages h'.
                    first_over length_of stage start_of b s (leb→le (rounds + 1) s.next_round over)
                      few))
            | inr before ↦
                rw (before, c)
                  (first_on length_of stage start_of b s
                    (not_leb→lt (rounds + 1) s.next_round before) few)
          ]

      echo :
          s.impl.protocol_phase ≡ CtProtocolPhase.echo
          → Ends (Next env b) (
              if leb (s.impl.echo_start_round + rounds + 1) s.next_round
              then start_phase
                  (record s { impl = record s.impl { protocol_phase = CtProtocolPhase.aggregate } })
              else ok s)
      echo c =
          let few : Few b s Stage.second = rw c at h in
          elim (Bool-cases (leb (s.impl.echo_start_round + rounds + 1) s.next_round)) [
            | inl over ↦
                rw over (
                  weaken-Ends (IsLast (rounds_left env)) (Next env b) _ (k _) (λ s' last. inl last))
            | inr before ↦
                rw (before, c)
                  (second_on length_of stage start_of b s
                    (not_leb→lt (s.impl.echo_start_round + rounds + 1) s.next_round before) few)
          ]

      go :
          (p : CtProtocolPhase)
          → s.impl.protocol_phase ≡ p
          → Ends (Next env b) (elim p [
            | CtProtocolPhase.shuffle ↦
                if leb (rounds + 1) s.next_round
                then echoes env s s.proxy_values >>= (λ messages. ok (shuffled s messages))
                else ok s
            | CtProtocolPhase.echo ↦
                if leb (s.impl.echo_start_round + rounds + 1) s.next_round
                then start_phase (record s {
                  impl = record s.impl { protocol_phase = CtProtocolPhase.aggregate };
                })
                else ok s
            | _ ↦ ok s
          ])
      go CtProtocolPhase.idle c = outside-After length_of stage start_of b s (rw c refl) h
      go CtProtocolPhase.shuffle c = shuffle c
      go CtProtocolPhase.echo c = echo c
      go CtProtocolPhase.aggregate c = outside-After length_of stage start_of b s (rw c refl) h

  bounded : IsBounded (rounds_left env) (subclass env)
  unfolding subclass
  bounded = record {
    aggregates = send_aggregate_if_done-Ends env;
    handles = handle_overlay_message_impl-Ends env;
    ends = end_overlay_round_impl-Ends;
  }

  -- In the crash-tolerant protocol, while the shuffle or the echo runs, the end of a round comes to an
  -- end, whatever the buffered messages make it handle and whatever meters are down: fuel beyond the
  -- rounds left, which are at most two phases and two rounds at the start, never runs out.
  pub ct_round_returns :
      (fuel rounds : ℕ) (s : State)
      → (rounds_left env) s.log2n s.next_round s.impl ≡ some rounds
      → rounds < fuel
      → end_overlay_round env (subclass env) fuel s ≢ out_of_fuel
  ct_round_returns fuel rounds s e lt = Ends-returns (InTime env rounds) _ (
      end_overlay_round-Ends (rounds_left env) env (subclass env) bounded fuel rounds lt s
        (inr (rw e (omega arith))))
